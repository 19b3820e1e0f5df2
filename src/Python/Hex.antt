-- ===== src/Python/Hex.antt =====
-- `bytes.hex()`, `'%032x' % n` and `int(text, 16)`.
use secure_file_system.Base.{
  ℕ, zero, suc, ◌+◌, ◌-◌, ◌*◌, ◌/◌, ◌%◌, ◌<◌, ◌≡◌, refl, sym, ap, ◌∙◌, Bool, true, false, not, ◌&&◌,
  ◌||◌, Option, none, some, [], ◌∷◌, ◌++◌, map, arith, ◌==◌, list_eq, nat_eq, ltb, leb,
  if◌then◌else◌,
}
use secure_file_system.Base.Lists.{length, All, length-append, All-append}
use secure_file_system.Base.Text.{Text, Bytes}
use secure_file_system.Python.Strings.{strip, strip-of_none}
use secure_file_system.Python.Unicode.{Unicode}
use mathlib.Core.Option

-- The digit of a value below 16.
unfoldable pub hex_digit : ℕ → ℕ
hex_digit v = if ltb v 10 then v + 48 else v + 87

-- The last `k` digits of a number, the first of them on the left.
unfoldable pub hex_digits : ℕ → ℕ → Text
hex_digits zero n = []
hex_digits (suc k) n = hex_digits k (n / 16) ++ (hex_digit (n % 16) ∷ [])

-- `bytes.hex()`
unfoldable pub hex : Bytes → Text
hex [] = []
hex (b ∷ bs) = hex_digit (b / 16) ∷ hex_digit (b % 16) ∷ hex bs

-- 16 ^ k
abbrev pub pow16 : ℕ → ℕ
pow16 zero = 1
pow16 (suc k) = 16 * pow16 k

abbrev pub is_hex : ℕ → Bool
is_hex c = (leb 48 c && leb c 57) || (leb 97 c && leb c 102)

hex_digit-is_hex : (v : ℕ) → v < 16 → is_hex (hex_digit v) ≡ true
unfolding hex_digit
hex_digit-is_hex v h = ground arith

pub hex_digits-is_hex : (k n : ℕ) → All (λ c. is_hex c ≡ true) (hex_digits k n)
unfolding hex_digits
hex_digits-is_hex zero n = tt
hex_digits-is_hex (suc k) n =
    All-append (λ c. is_hex c ≡ true) (hex_digits k (n / 16)) (hex_digit (n % 16) ∷ [])
      (hex_digits-is_hex k (n / 16)) (hex_digit-is_hex (n % 16) (omega arith), tt)

pub length-hex_digits : (k n : ℕ) → length (hex_digits k n) ≡ k
unfolding hex_digits
length-hex_digits zero n = refl
length-hex_digits (suc k) n = omega (
  arith,
  length-append (hex_digits k (n / 16)) (hex_digit (n % 16) ∷ []),
  length-hex_digits k (n / 16),
)

pub length-hex : (bs : Bytes) → length (hex bs) ≡ 2 * length bs
unfolding hex
length-hex [] = refl
length-hex (b ∷ bs) = omega (arith, length-hex bs)

-- What `int` does to the text first: digits and spaces of any script become ASCII ones.
to_ascii : Unicode → ℕ → ℕ
to_ascii u c =
    if ltb c 128
    then c
    else if u.is_space c
    then 32
    else elim (u.decimal c) [ none ↦ 63 | some d ↦ d + 48 ]

c_space : ℕ → Bool
c_space c = (leb 9 c && leb c 13) || (c == 32)

unfoldable pub hex_value : ℕ → Option ℕ
hex_value c =
    if leb 48 c && leb c 57
    then some (c - 48)
    else if leb 97 c && leb c 102
    then some (c - 87)
    else if leb 65 c && leb c 70
    then some (c - 55)
    else none

-- The digits from the left. The test tells whether an underscore, or the start, came last.
digit_run : ℕ → Bool → Text → Option ℕ
digit_run acc gap [] = if gap then none else some acc
digit_run acc gap (c ∷ s) = elim (hex_value c) [
  | some v ↦ digit_run (acc * 16 + v) false s
  | none ↦ if (c == 95) && not gap then digit_run acc true s else none
]

-- `0x`, and one underscore after it, may stand in front.
after_prefix : Text → Text
after_prefix (z ∷ x ∷ c ∷ s) =
    if (z == 48) && ((x == 120) || (x == 88)) then (if c == 95 then s else c ∷ s) else z ∷ x ∷ c ∷ s
after_prefix s = s

signed_run : Text → Option (Bool × ℕ)
signed_run [] = none
signed_run (c ∷ s) =
    if c == 43
    then Option.map (λ n. (false, n)) (digit_run 0 true (after_prefix s))
    else if c == 45
    then Option.map (λ n. (true, n)) (digit_run 0 true (after_prefix s))
    else Option.map (λ n. (false, n)) (digit_run 0 true (after_prefix (c ∷ s)))

-- `int(text, 16)`: whether a minus sign was written, and the magnitude; `none` is a `ValueError`.
unfoldable pub int_16 : Unicode → Text → Option (Bool × ℕ)
unfolding to_ascii c_space hex_value digit_run after_prefix signed_run
int_16 u s = signed_run (strip c_space (map (to_ascii u) s))

-- The value of a run of plain digits.
value : ℕ → Text → ℕ
value acc [] = acc
value acc (c ∷ s) = value (acc * 16 + (if leb c 57 then c - 48 else c - 87)) s

value-append_digit :
    (acc d : ℕ) (s : Text) → value acc (s ++ (d ∷ [])) ≡ value acc s * 16 + value 0 (d ∷ [])
unfolding value
value-append_digit acc d [] = omega arith
value-append_digit acc d (c ∷ s) =
    value-append_digit (acc * 16 + (if leb c 57 then c - 48 else c - 87)) d s

value-hex_digit : (v : ℕ) → v < 16 → value 0 (hex_digit v ∷ []) ≡ v
unfolding value hex_digit
value-hex_digit v h = ground arith

value-hex_digits : (k n : ℕ) → n < pow16 k → value 0 (hex_digits k n) ≡ n
unfolding hex_digits
value-hex_digits zero n h = unfold value in omega arith
value-hex_digits (suc k) n h =
    rw
      (
        value-append_digit 0 (hex_digit (n % 16)) (hex_digits k (n / 16)),
        value-hex_digits k (n / 16) (omega arith),
        value-hex_digit (n % 16) (omega arith),
      )
      (omega arith)

digit_run-value :
    (acc : ℕ) (gap : Bool) (c : ℕ) (s : Text)
    → is_hex c ≡ true
    → All (λ d. is_hex d ≡ true) s
    → digit_run acc gap (c ∷ s) ≡ some (value acc (c ∷ s))
unfolding digit_run hex_value value
digit_run-value acc gap c [] h hs = ground arith
digit_run-value acc gap c (d ∷ s) h hs =
    ground (
      arith,
      digit_run-value (acc * 16 + (if leb c 57 then c - 48 else c - 87)) false d s hs.0 hs.1,
    )

not_prefix : (z x : ℕ) → is_hex x ≡ true → ((z == 48) && ((x == 120) || (x == 88))) ≡ false
not_prefix z x h = ground arith

after_prefix-of_hex : (s : Text) → All (λ c. is_hex c ≡ true) s → after_prefix s ≡ s
unfolding after_prefix
after_prefix-of_hex [] h = refl
after_prefix-of_hex (a ∷ []) h = refl
after_prefix-of_hex (a ∷ b ∷ []) h = refl
after_prefix-of_hex (a ∷ b ∷ c ∷ s) h = rw (not_prefix a b h.1.0)

signed_run-of_hex :
    (c : ℕ) (s : Text)
    → is_hex c ≡ true
    → All (λ d. is_hex d ≡ true) s
    → signed_run (c ∷ s) ≡ some (false, value 0 (c ∷ s))
unfolding signed_run
signed_run-of_hex c s h hs =
    ground (arith, after_prefix-of_hex (c ∷ s) (h, hs), digit_run-value 0 true c s h hs)

hex-not_space : (s : Text) → All (λ c. is_hex c ≡ true) s → All (λ c. c_space c ≡ false) s
unfolding c_space
hex-not_space [] h = tt
hex-not_space (c ∷ s) h = (ground arith, hex-not_space s h.1)

to_ascii-of_hex : (u : Unicode) (s : Text) → All (λ c. is_hex c ≡ true) s → map (to_ascii u) s ≡ s
unfolding to_ascii
to_ascii-of_hex u [] h = refl
to_ascii-of_hex u (c ∷ s) h = ground (arith, to_ascii-of_hex u s h.1)

int_16-of_hex :
    (u : Unicode) (c : ℕ) (s : Text)
    → All (λ d. is_hex d ≡ true) (c ∷ s)
    → int_16 u (c ∷ s) ≡ some (false, value 0 (c ∷ s))
unfolding int_16
int_16-of_hex u c s h =
    rw (to_ascii-of_hex u (c ∷ s) h, strip-of_none c_space (c ∷ s) (hex-not_space (c ∷ s) h))
      (signed_run-of_hex c s h.0 h.1)

-- Reading back what was written in hexadecimal digits, at least one of them.
pub int_16-hex_digits :
    (u : Unicode) (k n : ℕ) → n < pow16 (suc k) → int_16 u (hex_digits (suc k) n) ≡ some (false, n)
int_16-hex_digits u k n h = from (hex_digits (suc k) n) refl
  where
    from : (s : Text) → hex_digits (suc k) n ≡ s → int_16 u s ≡ some (false, n)
    from [] e = absurd (omega (arith, length-hex_digits (suc k) n, ap length e))
    from (c ∷ s) e =
        int_16-of_hex u c s (rw e at (hex_digits-is_hex (suc k) n))
        ∙ ap (λ t. some (false, value 0 t)) (sym e)
        ∙ ap (λ v. some (false, v)) (value-hex_digits (suc k) n h)
