-- ===== src/Filenames/Disposition.antt =====
-- `content_disposition` of api_service/services/filenames.py. `unicodedata.normalize("NFKD", s)` is
-- a parameter.
use secure_file_system.Base.{
  ℕ, ◌≤◌, ◌<◌, ◌≡◌, refl, ap, ◌∙◌, inl, inr, false, ◌||◌, Option, none, some, [], ◌∷◌, ◌++◌, map,
  arith, ◌==◌, contains, list_eq, nat_eq, ltb, if◌then◌else◌, ltb→lt, Bool-cases,
}
use secure_file_system.Base.Lists.{keep, All, All-append, All-implies}
use secure_file_system.Base.Text.{Text, Bytes, codes}
use secure_file_system.Filenames.{fallback_filename}
use secure_file_system.Python.Strings.{partition, strip, All-strip, partition-cons}
use secure_file_system.Python.Unicode.{Unicode}
use secure_file_system.Python.Urls.{
  is_unreserved, upper_hex_digit, quote_byte, quote_bytes, quote, unquote_to_bytes,
  unquote_to_bytes-quote_bytes,
}
use secure_file_system.Python.Utf8.{utf8, utf8-bytes}

-- A character of the name in ASCII.
unfoldable pub quotable : ℕ → ℕ
quotable c = if contains (codes "\"\\") c || (ltb c 32 || (c == 127)) then 95 else c

unfoldable pub ascii_name : Unicode → (Text → Text) → Text → Text
unfolding quotable
ascii_name u nfkd filename =
    let plain = keep (λ c. ltb c 128) (nfkd filename) in
    let name = strip u.is_space (map quotable plain) in
    if name == [] then fallback_filename else name

abbrev pub before_name : Text
before_name = codes "attachment; filename=\""

abbrev pub after_name : Text
after_name = codes "; filename*=UTF-8''"

unfoldable pub content_disposition : Unicode → (Text → Text) → Text → Text
unfolding ascii_name
content_disposition u nfkd filename =
    before_name ++ (ascii_name u nfkd filename ++ (34 ∷ (after_name ++ quote filename)))

-- What follows a text that another one starts with.
after_text : Text → Text → Option Text
after_text [] s = some s
after_text (p ∷ ps) [] = none
after_text (p ∷ ps) (c ∷ s) = if c == p then after_text ps s else none

-- A client's reading of what stands behind the name, and of the whole header: the quoted name, and
-- the bytes of the UTF-8 name.
read_rest : Text → Text → Option (Text × Bytes)
unfolding after_text
read_rest name rest = elim (after_text after_name rest) [
  | none ↦ none
  | some ext ↦ some (name, unquote_to_bytes ext)
]

unfoldable pub read_disposition : Text → Option (Text × Bytes)
unfolding after_text read_rest
read_disposition header = elim (after_text before_name header) [
  | none ↦ none
  | some s ↦ read_rest (partition 34 s).0 (partition 34 s).1.1
]

read_rest-of_some :
    (name rest ext : Text)
    → after_text after_name rest ≡ some ext
    → read_rest name rest ≡ some (name, unquote_to_bytes ext)
unfolding read_rest
read_rest-of_some name rest ext e = rw (e, read_rest) refl

read_disposition-of_some :
    (header s : Text)
    → after_text before_name header ≡ some s
    → read_disposition header ≡ read_rest (partition 34 s).0 (partition 34 s).1.1
unfolding read_disposition
read_disposition-of_some header s e = rw (e, read_disposition) refl

after_text-append : (p s : Text) → after_text p (p ++ s) ≡ some s
unfolding after_text
after_text-append [] s = refl
after_text-append (c ∷ p) s = ground (arith, after_text-append p s)

-- A visible character of ASCII or a space.
abbrev pub IsPrintable : ℕ → Type 0
IsPrintable c = (32 ≤ c) × (c < 127)

abbrev IsQuotable : ℕ → Type 0
IsQuotable c = IsPrintable c × ((c == 34) ≡ false) × ((c == 92) ≡ false)

quotable-IsQuotable : (c : ℕ) → c < 128 → IsQuotable (quotable c)
unfolding quotable
quotable-IsQuotable c h = ground arith

plain-IsQuotable : (s : Text) → All IsQuotable (map quotable (keep (λ c. ltb c 128) s))
plain-IsQuotable [] = tt
plain-IsQuotable (c ∷ s) = elim (Bool-cases (ltb c 128)) [
  | inl e ↦ rw e (quotable-IsQuotable c (ltb→lt c 128 e), plain-IsQuotable s)
  | inr e ↦ rw e (plain-IsQuotable s)
]

ascii_name-IsQuotable :
    (u : Unicode) (nfkd : Text → Text) (filename : Text)
    → All IsQuotable (ascii_name u nfkd filename)
unfolding ascii_name nat_eq
ascii_name-IsQuotable u nfkd filename =
    let name = strip u.is_space (map quotable (keep (λ c. ltb c 128) (nfkd filename))) in
    elim (Bool-cases (name == [])) [
      | inl e ↦ rw (e, ascii_name) (ground arith)
      | inr e ↦
          rw (e, ascii_name) (All-strip IsQuotable u.is_space _ (plain-IsQuotable (nfkd filename)))
    ]

quote_byte-IsPrintable : (b : ℕ) → b < 256 → All IsPrintable (quote_byte b)
unfolding quote_byte is_unreserved upper_hex_digit
quote_byte-IsPrintable b h = elim (Bool-cases (is_unreserved b)) [
  | inl e ↦ rw e (ground arith)
  | inr e ↦ rw e (omega arith, (ground arith, (ground arith, tt)))
]

quote_bytes-IsPrintable : (bs : Bytes) → All (λ b. b < 256) bs → All IsPrintable (quote_bytes bs)
unfolding quote_bytes
quote_bytes-IsPrintable [] h = tt
quote_bytes-IsPrintable (b ∷ bs) h =
    All-append IsPrintable (quote_byte b) (quote_bytes bs) (quote_byte-IsPrintable b h.0)
      (quote_bytes-IsPrintable bs h.1)

-- The header of every file name, whose characters are code points, has only printable characters of
-- ASCII, so no line break; and a client that reads it finds a name in quotes and, after it, the
-- UTF-8 bytes of the whole file name.
pub read-content_disposition :
    (u : Unicode) (nfkd : Text → Text) (filename : Text)
    → All (λ c. c < 1114112) filename
    → All IsPrintable (content_disposition u nfkd filename)
      × (read_disposition (content_disposition u nfkd filename)
          ≡ some (ascii_name u nfkd filename, utf8 filename))
unfolding content_disposition
read-content_disposition u nfkd filename h =
    let name = ascii_name u nfkd filename in
    let quoted = ascii_name-IsQuotable u nfkd filename in
    let ext = quote filename in
    let bytes = utf8-bytes filename h in
    (
      All-append IsPrintable before_name _ (ground arith) (
          All-append IsPrintable name _ (All-implies name (λ c q. q.0) quoted) (
            omega arith,
            All-append IsPrintable after_name ext (ground arith)
                (quote_bytes-IsPrintable (utf8 filename) bytes),
          )),
      read_disposition-of_some _ _
            (after_text-append before_name (name ++ (34 ∷ (after_name ++ ext))))
          ∙ ap (λ p. read_rest p.0 p.1.1)
              (partition-cons 34 name (after_name ++ ext) (All-implies name (λ c q. q.1) quoted))
          ∙ read_rest-of_some name _ ext (after_text-append after_name ext)
          ∙ ap (λ b. some (name, b)) (unquote_to_bytes-quote_bytes (utf8 filename) bytes),
    )
