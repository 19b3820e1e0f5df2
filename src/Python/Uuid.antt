-- ===== src/Python/Uuid.antt =====
-- `uuid.UUID(text)` and `str(id)`. An identifier is its 128-bit number.
use mathlib.Core.Option
-- Groups of the given sizes with dashes between them, and the rest.
use secure_file_system.Base.{
  ℕ, zero, suc, ◌+◌, ◌<◌, ◌≡◌, refl, ap, ◌∙◌, Bool, true, false, not, ◌&&◌, ◌||◌, Option, none,
  some, List, [], ◌∷◌, ◌++◌, map, arith, ◌==◌, list_eq, nat_eq, ltb, if◌then◌else◌, lt→ltb,
}
use secure_file_system.Base.Lists.{
  length, take, drop, All, length-append, length-take, length-drop, take-append-drop, All-append,
  All-take,
}
use secure_file_system.Base.Text.{Text, codes}
use secure_file_system.Python.Hex.{
  hex_digits, pow16, is_hex, hex_digits-is_hex, length-hex_digits, int_16, int_16-hex_digits,
}
use secure_file_system.Python.Strings.{
  remove_text, strip, strip-of_none, remove_text-of_none, remove_text-append, remove_text-cons,
}
use secure_file_system.Python.Unicode.{Unicode, ascii_lower, IsUnicode}

dashed : List ℕ → Text → Text
dashed [] s = s
dashed (n ∷ ns) s = take n s ++ (45 ∷ dashed ns (drop n s))

abbrev groups : List ℕ
groups = 8 ∷ 4 ∷ 4 ∷ 4 ∷ []

-- `str(id)`
unfoldable pub uuid_text : ℕ → Text
unfolding dashed hex_digits
uuid_text n = dashed groups (hex_digits 32 n)

brace : ℕ → Bool
brace c = (c == 123) || (c == 125)

in_range : Bool × ℕ → Option ℕ
in_range (negative, n) =
    if negative && not (n == 0) then none else if ltb n (pow16 32) then some n else none

-- `uuid.UUID(text)`; `none` is a `ValueError`.
unfoldable pub uuid_of : Unicode → Text → Option ℕ
unfolding brace in_range
uuid_of u s =
    let bare = strip brace (remove_text (codes "uuid:") (remove_text (codes "urn:") s)) in
    let digits = remove_text (45 ∷ []) bare in
    if length digits == 32 then Option.bind (int_16 u digits) in_range else none

-- A canonical text: 36 characters, each a lower-case hexadecimal digit or a dash.
abbrev pub is_id_char : ℕ → Bool
is_id_char c = is_hex c || (c == 45)

pub record IsCanonical (s : Text) : Type 0 where
  pub length_36 : length s ≡ 36
  pub chars : All (λ c. is_id_char c ≡ true) s

All-drop {κ} : (P : ℕ → Type κ) (n : ℕ) (s : Text) → All P s → All P (drop n s)
All-drop P zero s h = h
All-drop P (suc n) [] h = tt
All-drop P (suc n) (c ∷ s) h = All-drop P n s h.1

hex-id_char : (s : Text) → All (λ c. is_hex c ≡ true) s → All (λ c. is_id_char c ≡ true) s
hex-id_char [] h = tt
hex-id_char (c ∷ s) h = (rw (h.0), hex-id_char s h.1)

dashed-id_char :
    (ns : List ℕ) (s : Text)
    → All (λ c. is_hex c ≡ true) s
    → All (λ c. is_id_char c ≡ true) (dashed ns s)
unfolding dashed
dashed-id_char [] s h = hex-id_char s h
dashed-id_char (n ∷ ns) s h =
    All-append (λ c. is_id_char c ≡ true) (take n s) (45 ∷ dashed ns (drop n s))
      (hex-id_char (take n s) (All-take (λ c. is_hex c ≡ true) n s h))
      (ground arith, dashed-id_char ns (drop n s) (All-drop (λ c. is_hex c ≡ true) n s h))

length-dashed : (ns : List ℕ) (s : Text) → length (dashed ns s) ≡ length ns + length s
unfolding dashed
length-dashed [] s = omega arith
length-dashed (n ∷ ns) s = omega (
  arith,
  length-append (take n s) (45 ∷ dashed ns (drop n s)),
  length-dashed ns (drop n s),
  length-take n s,
  length-drop n s,
)

pub uuid_text-IsCanonical : (n : ℕ) → IsCanonical (uuid_text n)
unfolding uuid_text
uuid_text-IsCanonical n = record {
  length_36 = omega (arith, length-dashed groups (hex_digits 32 n), length-hex_digits 32 n);
  chars = dashed-id_char groups (hex_digits 32 n) (hex_digits-is_hex 32 n);
}

hex-not_dash : (s : Text) → All (λ c. is_hex c ≡ true) s → All (λ c. (c == 45) ≡ false) s
hex-not_dash [] h = tt
hex-not_dash (c ∷ s) h = (ground arith, hex-not_dash s h.1)

id_char-not_u : (s : Text) → All (λ c. is_id_char c ≡ true) s → All (λ c. (c == 117) ≡ false) s
id_char-not_u [] h = tt
id_char-not_u (c ∷ s) h = (ground arith, id_char-not_u s h.1)

id_char-not_brace : (s : Text) → All (λ c. is_id_char c ≡ true) s → All (λ c. brace c ≡ false) s
unfolding brace
id_char-not_brace [] h = tt
id_char-not_brace (c ∷ s) h = (ground arith, id_char-not_brace s h.1)

-- The dashes go, and nothing else.
remove_text-dashed :
    (ns : List ℕ) (s : Text)
    → All (λ c. is_hex c ≡ true) s
    → remove_text (45 ∷ []) (dashed ns s) ≡ s
unfolding dashed
remove_text-dashed [] s h = remove_text-of_none 45 [] s (hex-not_dash s h)
remove_text-dashed (n ∷ ns) s h =
    remove_text-append 45 (take n s) (45 ∷ dashed ns (drop n s))
      (hex-not_dash (take n s) (All-take (λ c. is_hex c ≡ true) n s h))
    ∙ ap (λ t. take n s ++ t)
        (remove_text-cons 45 (dashed ns (drop n s))
          ∙ remove_text-dashed ns (drop n s) (All-drop (λ c. is_hex c ≡ true) n s h))
    ∙ take-append-drop n s

in_range-pos : (n : ℕ) → n < pow16 32 → in_range (false, n) ≡ some n
unfolding in_range
in_range-pos n h = rw (lt→ltb n (pow16 32) h)

uuid_of-canonical :
    (u : Unicode) (s : Text)
    → All (λ c. is_id_char c ≡ true) s
    → uuid_of u s ≡ (
        if length (remove_text (45 ∷ []) s) == 32
        then Option.bind (int_16 u (remove_text (45 ∷ []) s)) in_range
        else none)
unfolding uuid_of
uuid_of-canonical u s h = rw (
  remove_text-of_none 117 (codes "rn:") s (id_char-not_u s h),
  remove_text-of_none 117 (codes "uid:") s (id_char-not_u s h),
  strip-of_none brace s (id_char-not_brace s h),
)

remove_text-uuid_text : (n : ℕ) → remove_text (45 ∷ []) (uuid_text n) ≡ hex_digits 32 n
unfolding uuid_text
remove_text-uuid_text n = remove_text-dashed groups (hex_digits 32 n) (hex_digits-is_hex 32 n)

-- Every identifier is read back from its text.
pub uuid_of-uuid_text : (u : Unicode) (n : ℕ) → n < pow16 32 → uuid_of u (uuid_text n) ≡ some n
unfolding Option.bind
uuid_of-uuid_text u n h =
    uuid_of-canonical u (uuid_text n) (uuid_text-IsCanonical n).chars
    ∙ rw (remove_text-uuid_text n, int_16-hex_digits u 31 n h, in_range-pos n h)
        (ground (arith, length-hex_digits 32 n))

in_range-lt : (p : Bool × ℕ) (n : ℕ) → in_range p ≡ some n → n < pow16 32
unfolding in_range
in_range-lt (negative, m) n h = ground arith

bind-lt : (o : Option (Bool × ℕ)) (n : ℕ) → Option.bind o in_range ≡ some n → n < pow16 32
unfolding Option.bind
bind-lt none n h = cc
bind-lt (some p) n h = in_range-lt p n h

if-lt :
    (b : Bool) (o : Option (Bool × ℕ)) (n : ℕ)
    → (if b then Option.bind o in_range else none) ≡ some n
    → n < pow16 32
if-lt true o n h = bind-lt o n h
if-lt false o n h = cc

-- A text that is read as an identifier is read as one of 128 bits.
pub uuid_of-lt : (u : Unicode) (s : Text) (n : ℕ) → uuid_of u s ≡ some n → n < pow16 32
unfolding uuid_of
uuid_of-lt u s n h = if-lt _ _ n h

chars-ascii : (s : Text) → All (λ c. is_id_char c ≡ true) s → All (λ c. c < 128) s
chars-ascii [] h = tt
chars-ascii (c ∷ s) h = (ground arith, chars-ascii s h.1)

chars-lower : (s : Text) → All (λ c. is_id_char c ≡ true) s → map ascii_lower s ≡ s
chars-lower [] h = refl
chars-lower (c ∷ s) h = ground (arith, chars-lower s h.1)

-- Lower-casing leaves a canonical text alone.
pub lower-uuid_text : (u : Unicode) (n : ℕ) → IsUnicode u → u.lower (uuid_text n) ≡ uuid_text n
lower-uuid_text u n laws =
    let chars = (uuid_text-IsCanonical n).chars in
    laws.lower_ascii (uuid_text n) (chars-ascii (uuid_text n) chars)
    ∙ chars-lower (uuid_text n) chars
