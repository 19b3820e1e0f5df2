-- ===== src/Base/Results.antt =====
-- What code that may raise returns: a value or the exception, and the same beside a state.
use mathlib.Core.Path.{◌≡◌, refl, subst}
use mathlib.Core.Logic.{◌⊎◌, inl, inr}
use mathlib.Core.Option.{Option, some}

pub data Result {ℓ κ} (E : Type ℓ) (A : Type κ) : Type (ℓ ⊔ κ) where
  ok : A → Result E A
  err : E → Result E A

-- A method that mutates `S` and may raise: what was written before a raise stays written.
abbrev pub Exec {ℓ} : Type ℓ → Type ℓ → Type ℓ → Type ℓ
Exec S E A = S → Result E A × S

module _ {ℓ κ μ} {E : Type ℓ} {A : Type κ} {B : Type μ} where
  infixl 10 ◌>>=◌
  -- The rest of a function runs only if what stands before it did not raise.
  abbrev pub ◌>>=◌ : Result E A → (A → Result E B) → Result E B
  ok value >>= next = next value
  err raised >>= next = err raised

  -- What returned ran through both of its parts.
  pub >>=-eq-ok :
      (r : Result E A) (next : A → Result E B) {y : B}
      → (r >>= next) ≡ ok y
      → (x : A) × (r ≡ ok x) × (next x ≡ ok y)
  >>=-eq-ok (ok value) next returned = (value, refl, returned)
  >>=-eq-ok (err raised) next returned = cc

-- The value of what returns nothing.
abbrev pub Done : Type 0
Done = Unit {0}

pub Result-cases {ℓ κ} :
    {E : Type ℓ} {A : Type κ} (r : Result E A) → ((a : A) × (r ≡ ok a)) ⊎ ((e : E) × (r ≡ err e))
Result-cases (ok a) = inl (a, refl)
Result-cases (err e) = inr (e, refl)

-- What holds of the value if nothing was raised.
abbrev pub Returns {ℓ κ μ} : {E : Type ℓ} {A : Type κ} → (A → Type μ) → Result E A → Type μ
Returns P (ok a) = P a
Returns P (err e) = Unit

pub Returns-ok {ℓ κ μ} :
    {E : Type ℓ} {A : Type κ} (P : A → Type μ) (r : Result E A) (a : A)
    → Returns P r
    → r ≡ ok a
    → P a
Returns-ok P r a h e = subst (Returns P) e h

pub ok-eq {ℓ κ} : {E : Type ℓ} {A : Type κ} (r : Result E A) {a b : A} → r ≡ ok a → r ≡ ok b → a ≡ b
ok-eq r e f = cc

pub not_ok {ℓ κ} : {E : Type ℓ} {A : Type κ} {e : E} {a : A} → err e ≡ ok a → ⊥
not_ok e = cc

pub some-eq {ℓ} : {A : Type ℓ} (o : Option A) {a b : A} → o ≡ some a → o ≡ some b → a ≡ b
some-eq o e f = cc
