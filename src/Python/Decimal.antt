-- ===== src/Python/Decimal.antt =====
-- `str(n)`, `text.isdigit()` and `int(text)` for a text of digits.

use mathlib.Core.Option.{some-injective}
use secure_file_system.Base.{
  ℕ, zero, suc, ◌+◌, ◌*◌, ◌/◌, ◌%◌, ◌≤◌, ◌<◌, ◌≡◌, sym, ap, ◌∙◌, inl, inr, Bool, true, false,
  Option, none, some, [], ◌∷◌, ◌++◌, arith, ltb, if◌then◌else◌, Bool-cases, Option-cases,
}
use secure_file_system.Base.Lists.{length, all, All, length-append, All-append}
use secure_file_system.Base.Text.{Text}
use secure_file_system.Python.Unicode.{Unicode, ascii_digit, ascii_decimal}

unfoldable pub is_digits : Unicode → Text → Bool
is_digits u [] = false
is_digits u (c ∷ s) = all u.is_digit (c ∷ s)

-- A decimal digit's value, of any script.
digit_value : Unicode → ℕ → Option ℕ
digit_value u c = if ltb c 128 then ascii_decimal c else u.decimal c

digits_value : Unicode → ℕ → Text → Option ℕ
digits_value u acc [] = some acc
digits_value u acc (c ∷ s) = elim (digit_value u c) [
  | none ↦ none
  | some v ↦ digits_value u (acc * 10 + v) s
]

-- Python refuses to convert longer texts.
abbrev pub max_str_digits : ℕ
max_str_digits = 4300

-- `int(text)` where the text passed `isdigit`; `none` is a `ValueError`.
unfoldable pub int_digits : Unicode → Text → Option ℕ
unfolding digit_value digits_value
int_digits u s = if ltb max_str_digits (length s) then none else digits_value u 0 s

-- 10 ^ k
abbrev pub pow10 : ℕ → ℕ
pow10 zero = 1
pow10 (suc k) = 10 * pow10 k

-- `str(n)`, with fuel for the digits.
decimal_from : ℕ → ℕ → Text
decimal_from zero n = []
decimal_from (suc fuel) n =
    let front = decimal_from fuel (n / 10) in
    if ltb n 10 then (n + 48) ∷ [] else front ++ ((n % 10 + 48) ∷ [])

unfoldable pub decimal : ℕ → Text
unfolding decimal_from
decimal n = decimal_from (suc n) n

decimal_from-digits : (fuel n : ℕ) → All (λ c. ascii_digit c ≡ true) (decimal_from fuel n)
unfolding decimal_from
decimal_from-digits zero n = tt
decimal_from-digits (suc fuel) n = elim (Bool-cases (ltb n 10)) [
  | inl e ↦ rw e (ground arith, tt)
  | inr e ↦ rw e (
      All-append (λ c. ascii_digit c ≡ true) (decimal_from fuel (n / 10)) ((n % 10 + 48) ∷ [])
        (decimal_from-digits fuel (n / 10)) (ground arith, tt))
]

-- Every character is a decimal digit.
pub decimal-digits : (n : ℕ) → All (λ c. ascii_digit c ≡ true) (decimal n)
unfolding decimal
decimal-digits n = decimal_from-digits (suc n) n

digits_value-append :
    (u : Unicode) (acc d m : ℕ) (s : Text)
    → d < 10
    → digits_value u acc s ≡ some m
    → digits_value u acc (s ++ ((d + 48) ∷ [])) ≡ some (m * 10 + d)
unfolding digits_value digit_value
digits_value-append u acc d m [] h e = ground arith
digits_value-append u acc d m (c ∷ s) h e = elim (Option-cases (digit_value u c)) [
  | inl x ↦ cc (rw (x, digits_value) at e)
  | inr (v, x) ↦
      rw (x, digits_value)
        (digits_value-append u (acc * 10 + v) d m s h (rw (x, digits_value) at e))
]

digits_value-decimal_from :
    (u : Unicode) (fuel n : ℕ) → n < fuel → digits_value u 0 (decimal_from fuel n) ≡ some n
unfolding decimal_from
digits_value-decimal_from u zero n h = elim h [ ]
digits_value-decimal_from u (suc fuel) n h = elim (Bool-cases (ltb n 10)) [
  | inl e ↦ rw e (unfold digits_value digit_value in ground arith)
  | inr e ↦ rw e (
      digits_value-append u 0 (n % 10) (n / 10) (decimal_from fuel (n / 10)) (omega arith)
        (digits_value-decimal_from u fuel (n / 10) (ground arith))
      ∙ ap some (omega arith))
]

-- A number is read back from its text, if Python reads texts of that length.
pub int_digits-decimal :
    (u : Unicode) (n : ℕ) → length (decimal n) ≤ max_str_digits → int_digits u (decimal n) ≡ some n
unfolding int_digits decimal
int_digits-decimal u n h = rw (digits_value-decimal_from u (suc n) n (omega arith)) (ground arith)

pub decimal-injective : (u : Unicode) (m n : ℕ) → decimal m ≡ decimal n → m ≡ n
unfolding decimal
decimal-injective u m n e = some-injective m n (
    sym (digits_value-decimal_from u (suc m) m (omega arith))
    ∙ ap (digits_value u 0) e
    ∙ digits_value-decimal_from u (suc n) n (omega arith))

length-decimal_from : (k fuel n : ℕ) → n < pow10 k → 0 < k → length (decimal_from fuel n) ≤ k
unfolding decimal_from
length-decimal_from zero fuel n h p = elim p [ ]
length-decimal_from (suc k) zero n h p = omega arith
length-decimal_from (suc zero) (suc fuel) n h p = ground arith
length-decimal_from (suc (suc k)) (suc fuel) n h p = ground (
  arith,
  length-append (decimal_from fuel (n / 10)) ((n % 10 + 48) ∷ []),
  length-decimal_from (suc k) fuel (n / 10),
)

-- A number below 10 ^ k has k digits at most.
pub length-decimal : (k n : ℕ) → n < pow10 k → 0 < k → length (decimal n) ≤ k
unfolding decimal
length-decimal k n h p = length-decimal_from k (suc n) n h p

decimal_from-nonempty : (fuel n : ℕ) → 0 < length (decimal_from (suc fuel) n)
unfolding decimal_from
decimal_from-nonempty fuel n =
    ground (arith, length-append (decimal_from fuel (n / 10)) ((n % 10 + 48) ∷ []))

pub decimal-nonempty : (n : ℕ) → 0 < length (decimal n)
unfolding decimal
decimal-nonempty n = decimal_from-nonempty n n
