-- ===== src/Base/Equality.antt =====
-- Python's `==` and `in`, for every type whose equality can be decided.
use Prim.Native.Nat.{ℕ}
use mathlib.Core.Path.{◌≡◌, refl, ap, ap₂}
use mathlib.Core.Logic.{ite, dite}
use mathlib.Core.Bool.{Bool, true, false, ◌||◌}
use mathlib.Core.List.{List, [], ◌∷◌}
use native.Mathlib.Decide.{ℕ_discrete}

pub record Eq {ℓ} (A : Type ℓ) : Type ℓ where
  pub dec : Discrete A

module _ {ℓ} {A : Type ℓ} ⦃e : Eq A⦄ where
  infix 50 ◌==◌ ◌!=◌
  abbrev pub ◌==◌ : A → A → Bool
  a == b = ite (e.dec a b) true false

  abbrev pub ◌!=◌ : A → A → Bool
  a != b = ite (e.dec a b) false true

  abbrev pub contains : List A → A → Bool
  contains [] a = false
  contains (x ∷ xs) a = a == x || contains xs a

  head_of : List A → A → A
  head_of [] d = d
  head_of (x ∷ xs) d = x

  tail_of : List A → List A
  tail_of [] = []
  tail_of (x ∷ xs) = xs

  head_path : {a b : A} {xs ys : List A} → a ∷ xs ≡ b ∷ ys → a ≡ b
  unfolding head_of
  head_path {a} p = ap (λ l. head_of l a) p

  tail_path : {a b : A} {xs ys : List A} → a ∷ xs ≡ b ∷ ys → xs ≡ ys
  unfolding tail_of
  tail_path p = ap tail_of p

  list_dec : Discrete (List A)
  list_dec [] [] = yes refl
  list_dec [] (b ∷ ys) = no (λ p. cc)
  list_dec (a ∷ xs) [] = no (λ p. cc)
  list_dec (a ∷ xs) (b ∷ ys) =
      let rest = list_dec xs ys in
      dite (e.dec a b) (λ p. dite rest (λ q. yes (ap₂ ◌∷◌ p q)) (λ n. no (λ r. n (tail_path r))))
        (λ n. no (λ r. n (head_path r)))

  instance unfoldable pub list_eq : Eq (List A)
  unfolding list_dec head_path tail_path
  list_eq = record { dec = list_dec }

instance unfoldable pub nat_eq : Eq ℕ
unfolding ℕ_discrete
nat_eq = record { dec = ℕ_discrete }
