-- ===== src/Python/Urls.antt =====
-- `quote`, `quote_plus`, `unquote`, `parse_qsl` and `urlencode` of `urllib.parse`. How bytes that
-- are not UTF-8 decode is a parameter, `decode`, the rest of the decoding with it.
use secure_file_system.Base.{
  ℕ, zero, suc, ◌+◌, ◌*◌, ◌/◌, ◌%◌, ◌<◌, ◌≡◌, refl, ap, ◌∙◌, ◌≢◌, inl, inr, Bool, true, false, ◌&&◌,
  ◌||◌, Option, none, some, List, [], ◌∷◌, ◌++◌, map, arith, ◌==◌, contains, list_eq, nat_eq, ltb,
  leb, if◌then◌else◌, Bool-cases,
}
use secure_file_system.Base.Lists.{All}
use secure_file_system.Base.Text.{Text, Bytes}
use secure_file_system.Python.Hex.{hex_value}
use secure_file_system.Python.Strings.{partition, split, join}
use secure_file_system.Python.Utf8.{utf8}

-- `_ALWAYS_SAFE`: letters, digits and `_.-~`
unfoldable pub is_unreserved : ℕ → Bool
is_unreserved c =
    (leb 65 c && leb c 90)
    || ((leb 97 c && leb c 122)
        || ((leb 48 c && leb c 57) || ((c == 95) || ((c == 46) || ((c == 45) || (c == 126))))))

-- A digit of `%02X`.
unfoldable pub upper_hex_digit : ℕ → ℕ
upper_hex_digit v = if ltb v 10 then v + 48 else v + 55

unfoldable pub quote_byte : ℕ → Text
quote_byte b =
    if is_unreserved b
    then b ∷ []
    else 37 ∷ upper_hex_digit (b / 16) ∷ upper_hex_digit (b % 16) ∷ []

unfoldable pub quote_bytes : Bytes → Text
quote_bytes [] = []
quote_bytes (b ∷ bs) = quote_byte b ++ quote_bytes bs

-- `quote(s, safe='')`
abbrev pub quote : Text → Text
quote s = quote_bytes (utf8 s)

-- `quote_plus(s)`
unfoldable pub quote_plus : Text → Text
quote_plus [] = []
quote_plus (c ∷ s) = (if c == 32 then 43 ∷ [] else quote (c ∷ [])) ++ quote_plus s

-- One byte of a percent code.
unfoldable pub percent_byte : ℕ → ℕ → Option ℕ
percent_byte a b = elim (hex_value a) [
  | none ↦ none
  | some v ↦ elim (hex_value b) [ none ↦ none | some w ↦ some (v * 16 + w) ]
]

-- The codes of an ASCII text; the number counts what is left of a code under way.
unfoldable pub percent_from : ℕ → Text → Bytes
percent_from skip [] = []
percent_from (suc skip) (c ∷ s) = percent_from skip s
percent_from zero (c ∷ []) = c ∷ []
percent_from zero (c ∷ a ∷ []) = c ∷ percent_from zero (a ∷ [])
percent_from zero (c ∷ a ∷ b ∷ s) = elim (if c == 37 then percent_byte a b else none) [
  | none ↦ c ∷ percent_from zero (a ∷ b ∷ s)
  | some v ↦ v ∷ percent_from 2 (a ∷ b ∷ s)
]

-- `unquote_to_bytes`
abbrev pub unquote_to_bytes : Text → Bytes
unquote_to_bytes s = percent_from 0 s

-- `s.replace("+", " ")`
abbrev pub plus_to_space : Text → Text
plus_to_space s = map (λ c. if c == 43 then 32 else c) s

module _ (decode : Bytes → Text) where
  -- The runs of ASCII characters are decoded one by one.
  unfoldable pub unquote_runs : Text → Text → Text
  unquote_runs run [] = decode (unquote_to_bytes run)
  unquote_runs run (c ∷ s) = elim (ltb c 128) [
    | true ↦ unquote_runs (run ++ (c ∷ [])) s
    | false ↦ decode (unquote_to_bytes run) ++ (c ∷ unquote_runs [] s)
  ]

  -- `unquote(s)`
  unfoldable pub unquote : Text → Text
  unfolding unquote_runs
  unquote s = if contains s 37 then unquote_runs [] s else s

  abbrev pub parse_pair : Text → Text × Text
  parse_pair piece =
      let (name, (has_eq, value)) = partition 61 piece in
      (unquote (plus_to_space name), unquote (plus_to_space value))

  unfoldable pub parse_pieces : List Text → List (Text × Text)
  parse_pieces [] = []
  parse_pieces ([] ∷ pieces) = parse_pieces pieces
  parse_pieces ((c ∷ s) ∷ pieces) = parse_pair (c ∷ s) ∷ parse_pieces pieces

  -- `parse_qsl(query, keep_blank_values=True)`
  unfoldable pub parse_qsl : Text → List (Text × Text)
  unfolding parse_pieces
  parse_qsl query = parse_pieces (split 38 query)

-- `urlencode(pairs)`
unfoldable pub urlencode : List (Text × Text) → Text
urlencode pairs = join 38 (map (λ p. quote_plus p.0 ++ (61 ∷ quote_plus p.1)) pairs)

percent_byte-upper_hex_digit :
    (b : ℕ) → b < 256 → percent_byte (upper_hex_digit (b / 16)) (upper_hex_digit (b % 16)) ≡ some b
unfolding percent_byte hex_value upper_hex_digit
percent_byte-upper_hex_digit b h = ground arith

percent_from-plain : (c : ℕ) (s : Text) → c ≢ 37 → percent_from 0 (c ∷ s) ≡ c ∷ percent_from 0 s
unfolding percent_from
percent_from-plain c [] n = refl
percent_from-plain c (a ∷ []) n = refl
percent_from-plain c (a ∷ b ∷ s) n = ground arith

percent_from-code :
    (a b v : ℕ) (s : Text)
    → percent_byte a b ≡ some v
    → percent_from 0 (37 ∷ a ∷ b ∷ s) ≡ v ∷ percent_from 0 s
unfolding percent_from nat_eq
percent_from-code a b v s e = rw (e, percent_from) refl

percent_from-quote_byte :
    (b : ℕ) (s : Text) → b < 256 → percent_from 0 (quote_byte b ++ s) ≡ b ∷ percent_from 0 s
unfolding quote_byte
percent_from-quote_byte b s h = elim (Bool-cases (is_unreserved b)) [
  | inl e ↦ rw e (percent_from-plain b s (unfold is_unreserved in ground arith))
  | inr e ↦ rw e (
      percent_from-code (upper_hex_digit (b / 16)) (upper_hex_digit (b % 16)) b s
        (percent_byte-upper_hex_digit b h))
]

-- Percent codes are read back as the bytes they were made of.
pub unquote_to_bytes-quote_bytes :
    (bs : Bytes) → All (λ b. b < 256) bs → unquote_to_bytes (quote_bytes bs) ≡ bs
unfolding quote_bytes percent_from
unquote_to_bytes-quote_bytes [] h = refl
unquote_to_bytes-quote_bytes (b ∷ bs) h =
    percent_from-quote_byte b (quote_bytes bs) h.0
    ∙ ap (λ l. b ∷ l) (unquote_to_bytes-quote_bytes bs h.1)
