-- ===== src/Python/Base64.antt =====
-- `base64.urlsafe_b64encode(digest).rstrip(b"=").decode()`.

-- The character of a value below 64.
use secure_file_system.Base.{
  ℕ, ◌+◌, ◌-◌, ◌*◌, ◌/◌, ◌%◌, ◌<◌, ◌≡◌, refl, sym, ◌∙◌, Bool, true, false, [], ◌∷◌, arith, ◌==◌,
  list_eq, nat_eq, ltb, if◌then◌else◌,
}
use secure_file_system.Base.Lists.{length, All}
use secure_file_system.Base.Text.{Text, Bytes}
use secure_file_system.Python.Strings.{rstrip}

char_of : ℕ → ℕ
char_of v =
    if ltb v 26
    then v + 65
    else if ltb v 52
    then v + 71
    else if ltb v 62
    then v - 4
    else if v == 62
    then 45
    else 95

urlsafe_b64encode : Bytes → Text
urlsafe_b64encode [] = []
urlsafe_b64encode (a ∷ []) = char_of (a / 4) ∷ char_of (a % 4 * 16) ∷ 61 ∷ 61 ∷ []
urlsafe_b64encode (a ∷ b ∷ []) =
    char_of (a / 4) ∷ char_of (a % 4 * 16 + b / 16) ∷ char_of (b % 16 * 4) ∷ 61 ∷ []
urlsafe_b64encode (a ∷ b ∷ c ∷ rest) =
    char_of (a / 4)
    ∷ char_of (a % 4 * 16 + b / 16)
    ∷ char_of (b % 16 * 4 + c / 64)
    ∷ char_of (c % 64)
    ∷ urlsafe_b64encode rest

equals_sign : ℕ → Bool
equals_sign c = c == 61

unfoldable pub unpadded_b64 : Bytes → Text
unfolding char_of urlsafe_b64encode equals_sign
unpadded_b64 s = rstrip equals_sign (urlsafe_b64encode s)

-- The same without the padding in between.
plain : Bytes → Text
plain [] = []
plain (a ∷ []) = char_of (a / 4) ∷ char_of (a % 4 * 16) ∷ []
plain (a ∷ b ∷ []) = char_of (a / 4) ∷ char_of (a % 4 * 16 + b / 16) ∷ char_of (b % 16 * 4) ∷ []
plain (a ∷ b ∷ c ∷ rest) =
    char_of (a / 4)
    ∷ char_of (a % 4 * 16 + b / 16)
    ∷ char_of (b % 16 * 4 + c / 64)
    ∷ char_of (c % 64)
    ∷ plain rest

abbrev IsByte : ℕ → Type 0
IsByte b = b < 256

char_of-ne : (v : ℕ) → v < 64 → equals_sign (char_of v) ≡ false
unfolding char_of equals_sign
char_of-ne v h = ground arith

char_of-ascii : (v : ℕ) → v < 64 → char_of v < 128
unfolding char_of
char_of-ascii v h = ground arith

char_of-injective : (v w : ℕ) → v < 64 → w < 64 → char_of v ≡ char_of w → v ≡ w
unfolding char_of
char_of-injective v w h k e = ground arith

plain-ascii : (s : Bytes) → All IsByte s → All (λ c. c < 128) (plain s)
unfolding plain
plain-ascii [] h = tt
plain-ascii (a ∷ []) h = (char_of-ascii _ (omega arith), (char_of-ascii _ (omega arith), tt))
plain-ascii (a ∷ b ∷ []) h = (
  char_of-ascii _ (omega arith),
  (char_of-ascii _ (omega arith), (char_of-ascii _ (omega arith), tt)),
)
plain-ascii (a ∷ b ∷ c ∷ s) h = (
  char_of-ascii _ (omega arith),
  (
    char_of-ascii _ (omega arith),
    (char_of-ascii _ (omega arith), (char_of-ascii _ (omega arith), plain-ascii s h.1.1.1)),
  ),
)

equals_sign_lem : equals_sign 61 ≡ true
unfolding equals_sign
equals_sign_lem = ground arith

rstrip-plain : (s : Bytes) → All IsByte s → rstrip equals_sign (urlsafe_b64encode s) ≡ plain s
unfolding urlsafe_b64encode plain rstrip
rstrip-plain [] h = refl
rstrip-plain (a ∷ []) h = ground (
  arith,
  equals_sign_lem,
  char_of-ne (a / 4) (omega arith),
  char_of-ne (a % 4 * 16) (omega arith),
)
rstrip-plain (a ∷ b ∷ []) h = ground (
  arith,
  equals_sign_lem,
  char_of-ne (a / 4) (omega arith),
  char_of-ne (a % 4 * 16 + b / 16) (omega arith),
  char_of-ne (b % 16 * 4) (omega arith),
)
rstrip-plain (a ∷ b ∷ c ∷ s) h = ground (
  arith,
  char_of-ne (a / 4) (omega arith),
  char_of-ne (a % 4 * 16 + b / 16) (omega arith),
  char_of-ne (b % 16 * 4 + c / 64) (omega arith),
  char_of-ne (c % 64) (omega arith),
  rstrip-plain s h.1.1.1,
)

unpadded_b64-plain : (s : Bytes) → All IsByte s → unpadded_b64 s ≡ plain s
unfolding unpadded_b64
unpadded_b64-plain s h = rstrip-plain s h

plain-injective :
    (s t : Bytes) → All IsByte s → All IsByte t → length s ≡ length t → plain s ≡ plain t → s ≡ t
unfolding plain
plain-injective [] [] h k l e = refl
plain-injective [] (a' ∷ t) h k l e = absurd (omega arith)
plain-injective (a ∷ s) [] h k l e = absurd (omega arith)
plain-injective (a ∷ []) (a' ∷ []) h k l e =
    ground (arith, char_of-injective (a / 4) (a' / 4), char_of-injective (a % 4 * 16) (a' % 4 * 16))
plain-injective (a ∷ []) (a' ∷ b' ∷ t) h k l e = absurd (omega arith)
plain-injective (a ∷ b ∷ s) (a' ∷ []) h k l e = absurd (omega arith)
plain-injective (a ∷ b ∷ []) (a' ∷ b' ∷ []) h k l e = ground (
  arith,
  char_of-injective (a / 4) (a' / 4),
  char_of-injective (a % 4 * 16 + b / 16) (a' % 4 * 16 + b' / 16),
  char_of-injective (b % 16 * 4) (b' % 16 * 4),
)
plain-injective (a ∷ b ∷ []) (a' ∷ b' ∷ c' ∷ t) h k l e = absurd (omega arith)
plain-injective (a ∷ b ∷ c ∷ s) (a' ∷ b' ∷ []) h k l e = absurd (omega arith)
plain-injective (a ∷ b ∷ c ∷ s) (a' ∷ b' ∷ c' ∷ t) h k l e = ground (
  arith,
  char_of-injective (a / 4) (a' / 4),
  char_of-injective (a % 4 * 16 + b / 16) (a' % 4 * 16 + b' / 16),
  char_of-injective (b % 16 * 4 + c / 64) (b' % 16 * 4 + c' / 64),
  char_of-injective (c % 64) (c' % 64),
  plain-injective s t h.1.1.1 k.1.1.1,
)

-- One encoding for one digest of a given size.
pub unpadded_b64-injective :
    (s t : Bytes)
    → All IsByte s
    → All IsByte t
    → length s ≡ length t
    → unpadded_b64 s ≡ unpadded_b64 t
    → s ≡ t
unpadded_b64-injective s t h k l e =
    plain-injective s t h k l (sym (unpadded_b64-plain s h) ∙ e ∙ unpadded_b64-plain t k)

pub unpadded_b64-ascii : (s : Bytes) → All IsByte s → All (λ c. c < 128) (unpadded_b64 s)
unpadded_b64-ascii s h = rw (unpadded_b64-plain s h) (plain-ascii s h)
