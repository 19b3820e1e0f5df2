-- ===== src/Middleware/Redacted.antt =====
-- The query string in the access log of api_service/middleware.py.
use secure_file_system.Base.{◌≡◌, refl, ap, false, List, [], ◌∷◌, ◌++◌, map, ◌==◌, list_eq, nat_eq}
use secure_file_system.Base.Lists.{All, All-append}
use secure_file_system.Base.Text.{Text, Bytes, codes}
use secure_file_system.Erasure.{decode}
use secure_file_system.Middleware.Query.{redact_pair, redact_query}
use secure_file_system.Python.Strings.{split, join, split-join, partition-cons}
use secure_file_system.Python.Urls.{plus_to_space, unquote, parse_pair, parse_pieces, parse_qsl}

-- One parameter of a query.
abbrev pub parameter : Text → Text → Text
parameter name v = name ++ (61 ∷ v)

parse_pieces-parameter :
    (decode : Bytes → Text) (name v : Text) (pieces : List Text)
    → All (λ c. (c == 61) ≡ false) name
    → parse_pieces decode (parameter name v ∷ pieces)
      ≡ (unquote decode (plus_to_space name), unquote decode (plus_to_space v))
        ∷ parse_pieces decode pieces
unfolding parse_pieces
parse_pieces-parameter decode [] v pieces h = rw (partition-cons 61 [] v h) refl
parse_pieces-parameter decode (c ∷ s) v pieces h = rw (partition-cons 61 (c ∷ s) v h) refl

redacted_pieces :
    (decode : Bytes → Text) (before after : List Text) (name v w : Text)
    → All (λ c. (c == 61) ≡ false) name
    → unquote decode (plus_to_space name) ≡ codes "sig"
    → map redact_pair (parse_pieces decode (before ++ (parameter name v ∷ after)))
      ≡ map redact_pair (parse_pieces decode (before ++ (parameter name w ∷ after)))
unfolding parse_pieces nat_eq list_eq
redacted_pieces decode [] after name v w plain sig =
    rw
      (
        parse_pieces-parameter decode name v after plain,
        parse_pieces-parameter decode name w after plain,
        sig,
      )
      refl
redacted_pieces decode ([] ∷ before) after name v w plain sig =
    redacted_pieces decode before after name v w plain sig
redacted_pieces decode ((c ∷ s) ∷ before) after name v w plain sig =
    ap (λ l. redact_pair (parse_pair decode (c ∷ s)) ∷ l)
      (redacted_pieces decode before after name v w plain sig)

-- A text with no `&`.
abbrev pub IsPiece : Text → Type 0
IsPiece s = All (λ c. (c == 38) ≡ false) s

abbrev pub query_with : List Text → Text → List Text → Text
query_with before p after = join 38 (before ++ (p ∷ after))

split-query_with :
    (before after : List Text) (p : Text)
    → All IsPiece before
    → IsPiece p
    → All IsPiece after
    → split 38 (query_with before p after) ≡ before ++ (p ∷ after)
split-query_with [] after p h k l = split-join 38 p after (k, l)
split-query_with (b ∷ before) after p h k l =
    split-join 38 b (before ++ (p ∷ after)) (h.0, All-append IsPiece before (p ∷ after) h.1 (k, l))

pub redact_query-hides :
    (decode : Bytes → Text) (before after : List Text) (name v w : Text)
    → All IsPiece before
    → All IsPiece after
    → IsPiece (parameter name v)
    → IsPiece (parameter name w)
    → All (λ c. (c == 61) ≡ false) name
    → unquote decode (plus_to_space name) ≡ codes "sig"
    → redact_query decode (query_with before (parameter name v) after)
      ≡ redact_query decode (query_with before (parameter name w) after)
unfolding redact_query parse_qsl
redact_query-hides decode before after name v w b a pv pw plain sig =
    rw
      (
        split-query_with before after (parameter name v) b pv a,
        split-query_with before after (parameter name w) b pw a,
        redacted_pieces decode before after name v w plain sig,
      )
      refl
