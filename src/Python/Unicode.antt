-- ===== src/Python/Unicode.antt =====
-- The Unicode tables behind `str` and `int`, a parameter of the model: the source is Python's, and
-- its data are no part of the program. The laws say what the tables hold below 128.
use secure_file_system.Base.{
  ℕ, ◌+◌, ◌-◌, ◌<◌, ◌≡◌, refl, Bool, ◌&&◌, ◌||◌, Option, none, some, map, leb, if◌then◌else◌,
}
use secure_file_system.Base.Lists.{All}
use secure_file_system.Base.Text.{Text}

pub record Unicode : Type 0 where
  -- the value of a decimal digit of any script
  pub decimal : ℕ → Option ℕ
  -- `str.isdigit()` of one character, which superscripts pass too
  pub is_digit : ℕ → Bool
  -- what `str.strip()` takes off
  pub is_space : ℕ → Bool
  -- `str.lower()`, whose result depends on the context of a letter
  pub lower : Text → Text

abbrev pub ascii_digit : ℕ → Bool
ascii_digit c = leb 48 c && leb c 57

abbrev pub ascii_decimal : ℕ → Option ℕ
ascii_decimal c = if ascii_digit c then some (c - 48) else none

abbrev pub ascii_space : ℕ → Bool
ascii_space c = (leb 9 c && leb c 13) || (leb 28 c && leb c 32)

abbrev pub ascii_lower : ℕ → ℕ
ascii_lower c = if leb 65 c && leb c 90 then c + 32 else c

pub record IsUnicode (u : Unicode) : Type 0 where
  pub decimal_ascii : (c : ℕ) → c < 128 → u.decimal c ≡ ascii_decimal c
  pub digit_ascii : (c : ℕ) → c < 128 → u.is_digit c ≡ ascii_digit c
  pub space_ascii : (c : ℕ) → c < 128 → u.is_space c ≡ ascii_space c
  pub lower_ascii : (s : Text) → All (λ c. c < 128) s → u.lower s ≡ map ascii_lower s

-- Tables that know nothing beyond ASCII meet the laws.
abbrev pub ascii_only : Unicode
ascii_only = record {
  decimal = ascii_decimal;
  is_digit = ascii_digit;
  is_space = ascii_space;
  lower = map ascii_lower;
}

pub ascii_only-IsUnicode : IsUnicode ascii_only
ascii_only-IsUnicode = record {
  decimal_ascii = λ c h. refl;
  digit_ascii = λ c h. refl;
  space_ascii = λ c h. refl;
  lower_ascii = λ s h. refl;
}
