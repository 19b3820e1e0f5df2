-- ===== src/Signing/Payload.antt =====
-- The signed bytes determine the fields.
use mathlib.Core.Option.{some-injective}
use secure_file_system.Base.{ℕ, ◌<◌, ◌≡◌, sym, ap, ◌∙◌, ◌≢◌, true, [], ◌∷◌, ◌++◌, arith, nat_eq}
use secure_file_system.Base.Lists.{All, All-append}
use secure_file_system.Base.Text.{Text}
use secure_file_system.Python.Decimal.{decimal, decimal-digits, decimal-injective}
use secure_file_system.Python.Hashlib.{Hashlib}
use secure_file_system.Python.Hex.{pow16}
use secure_file_system.Python.Unicode.{Unicode, ascii_digit, ascii_only}
use secure_file_system.Python.Utf8.{utf8-of_ascii}
use secure_file_system.Python.Uuid.{
  uuid_text, uuid_of, is_id_char, uuid_text-IsCanonical, uuid_of-uuid_text,
}
use secure_file_system.Signing.{payload_prefix, payload, payload_text}

abbrev NotNewline : ℕ → Type 0
NotNewline c = c ≢ 10

-- A key id as the settings allow it: ASCII, with no newline.
abbrev pub IsPlain : Text → Type 0
IsPlain = All (λ c. (c < 128) × (c ≢ 10))

-- Two texts whose first lines end at the same place agree line by line.
lines :
    (s t r q : Text)
    → All NotNewline s
    → All NotNewline t
    → s ++ (10 ∷ r) ≡ t ++ (10 ∷ q)
    → (s ≡ t) × (r ≡ q)
lines [] [] r q h k e = ground arith
lines [] (d ∷ t) r q h k e = ground (arith, k.0)
lines (c ∷ s) [] r q h k e = ground (arith, h.0)
lines (c ∷ s) (d ∷ t) r q h k e = ground (arith, lines s t r q h.1 k.1)

decimal-NotNewline : (s : Text) → All (λ c. ascii_digit c ≡ true) s → All NotNewline s
decimal-NotNewline [] h = tt
decimal-NotNewline (c ∷ s) h = (ground arith, decimal-NotNewline s h.1)

decimal-ascii : (s : Text) → All (λ c. ascii_digit c ≡ true) s → All (λ c. c < 128) s
decimal-ascii [] h = tt
decimal-ascii (c ∷ s) h = (ground arith, decimal-ascii s h.1)

id-NotNewline : (s : Text) → All (λ c. is_id_char c ≡ true) s → All NotNewline s
id-NotNewline [] h = tt
id-NotNewline (c ∷ s) h = (ground arith, id-NotNewline s h.1)

id-ascii : (s : Text) → All (λ c. is_id_char c ≡ true) s → All (λ c. c < 128) s
id-ascii [] h = tt
id-ascii (c ∷ s) h = (ground arith, id-ascii s h.1)

plain-NotNewline : (s : Text) → IsPlain s → All NotNewline s
plain-NotNewline [] h = tt
plain-NotNewline (c ∷ s) h = (h.0.1, plain-NotNewline s h.1)

plain-ascii : (s : Text) → IsPlain s → All (λ c. c < 128) s
plain-ascii [] h = tt
plain-ascii (c ∷ s) h = (h.0.0, plain-ascii s h.1)

line-ascii :
    (s r : Text) → All (λ c. c < 128) s → All (λ c. c < 128) r → All (λ c. c < 128) (s ++ (10 ∷ r))
line-ascii s r h k = All-append (λ c. c < 128) s (10 ∷ r) h (omega arith, k)

payload_text-ascii :
    (kid : Text) (file_id expires link_version : ℕ)
    → IsPlain kid
    → All (λ c. c < 128) (payload_text kid file_id expires link_version)
unfolding payload_text
payload_text-ascii kid file_id expires link_version h =
    let version = decimal link_version in
    let times = decimal expires ++ (10 ∷ version) in
    let ids = uuid_text file_id ++ (10 ∷ times) in
    line-ascii payload_prefix (kid ++ (10 ∷ ids)) (omega arith) (
      line-ascii kid ids (plain-ascii kid h) (
        line-ascii (uuid_text file_id) times
          (id-ascii (uuid_text file_id) (uuid_text-IsCanonical file_id).chars)
          (line-ascii (decimal expires) version (decimal-ascii _ (decimal-digits expires))
            (decimal-ascii _ (decimal-digits link_version)))))

uuid_text-injective :
    (u : Unicode) (m n : ℕ) → m < pow16 32 → n < pow16 32 → uuid_text m ≡ uuid_text n → m ≡ n
uuid_text-injective u m n h k e =
    some-injective m n (sym (uuid_of-uuid_text u m h) ∙ ap (uuid_of u) e ∙ uuid_of-uuid_text u n k)

payload_text-injective :
    (kid kid' : Text) (file_id file_id' expires expires' version version' : ℕ)
    → IsPlain kid
    → IsPlain kid'
    → file_id < pow16 32
    → file_id' < pow16 32
    → payload_text kid file_id expires version ≡ payload_text kid' file_id' expires' version'
    → (kid ≡ kid') × (file_id ≡ file_id') × (expires ≡ expires') × (version ≡ version')
unfolding payload_text
payload_text-injective kid kid' f f' x x' v v' p p' b b' e =
    let canonical = λ (n : ℕ). id-NotNewline (uuid_text n) (uuid_text-IsCanonical n).chars in
    let number = λ (n : ℕ). decimal-NotNewline (decimal n) (decimal-digits n) in
    let (_, e1) = lines payload_prefix payload_prefix _ _ (omega arith) (omega arith) e in
    let (k, e2) = lines kid kid' _ _ (plain-NotNewline kid p) (plain-NotNewline kid' p') e1 in
    let (i, e3) = lines (uuid_text f) (uuid_text f') _ _ (canonical f) (canonical f') e2 in
    let (t, e4) = lines (decimal x) (decimal x') _ _ (number x) (number x') e3 in
    (
      k,
      uuid_text-injective ascii_only f f' b b' i,
      decimal-injective ascii_only x x' t,
      decimal-injective ascii_only v v' e4,
    )

-- Key id, file, expiry and version are all in the signed bytes, and no shift of a boundary between
-- two of them gives the same bytes: equal payloads have equal fields. Key ids are ASCII and have no
-- newline, and file ids have 128 bits.
pub payload-injective :
    (kid kid' : Text) (file_id file_id' expires expires' version version' : ℕ)
    → IsPlain kid
    → IsPlain kid'
    → file_id < pow16 32
    → file_id' < pow16 32
    → payload kid file_id expires version ≡ payload kid' file_id' expires' version'
    → (kid ≡ kid') × (file_id ≡ file_id') × (expires ≡ expires') × (version ≡ version')
unfolding payload
payload-injective kid kid' f f' x x' v v' p p' b b' e =
    payload_text-injective kid kid' f f' x x' v v' p p' b b' (
      sym (utf8-of_ascii _ (payload_text-ascii kid f x v p))
      ∙ e
      ∙ utf8-of_ascii _ (payload_text-ascii kid' f' x' v' p'))
