-- ===== src/Tests/MiddlewareRuns.antt =====
-- Requests through the layers of the API service.
use mathlib.Core.Option
use secure_file_system.Base.Dict
use secure_file_system.Base.{
  ◌≤◌, ◌≡◌, refl, inr, true, false, none, some, List, [], ◌∷◌, arith, list_eq, nat_eq, ok, err,
}
use secure_file_system.Base.Dict.{Dict}
use secure_file_system.Base.Text.{Text, Bytes, codes}
use secure_file_system.Middleware.{
  Incoming, request_message, response_start, response_body, App, receiving, sending, returns,
  raises, run_app, run_limited, send_413, caught, Scope, dict_of, declared_too_large, size_limited,
}
use secure_file_system.Middleware.BodyLimit.{total_size}
use secure_file_system.Middleware.Query.{redact_query}
use secure_file_system.Middleware.Redacted.{parameter, query_with}
use secure_file_system.Middleware.Stack.{
  LogLine, captured_status, access_log, nosniff, serve_request, service_limit,
  serve_request-total_size, serve_request-transparent, access_log-hides,
}
use secure_file_system.Python.Decimal.{is_digits, int_digits, decimal}
use secure_file_system.Python.Hex.{hex_value}
use secure_file_system.Python.Strings.{partition, split, join}
use secure_file_system.Python.Urls.{
  is_unreserved, quote_byte, quote_bytes, quote_plus, percent_byte, percent_from, unquote_runs,
  unquote, parse_pieces, parse_qsl, urlencode,
}
use secure_file_system.Python.Utf8.{utf8}

abbrev post_files : Scope
post_files = record {
  is_http = true;
  method = codes "POST";
  path = codes "/files";
  query_string = [];
  headers = (codes "content-length", codes "3") ∷ [];
  client = none;
}

-- An application that reads two messages and answers.
abbrev reader : App
reader = receiving (λ a. receiving (λ b. elim b [
  | err e ↦ raises e
  | ok m ↦ sending (response_start 201 []) (sending (response_body []) returns)
]))

abbrev three_bytes : List Incoming
three_bytes = request_message (some (1 ∷ 2 ∷ [])) ∷ request_message (some (3 ∷ [])) ∷ []

abbrev ascii_decode : Bytes → Text
ascii_decode bytes = bytes

-- The second message takes the body over a limit of two bytes.
over_limit :
    let r = size_limited 2 [] three_bytes reader in
    (r.sent ≡ send_413) × (r.given ≡ request_message (some (1 ∷ 2 ∷ [])) ∷ [])
unfolding size_limited declared_too_large is_digits run_limited caught
over_limit = (refl, refl)

-- A declared length over the limit is answered before anything is read.
declared_over : (size_limited 2 (codes "3") three_bytes reader).sent ≡ send_413
unfolding size_limited declared_too_large is_digits int_digits
declared_over = refl

nosniff_run :
    nosniff ((codes "x-content-type-options", codes "off") ∷ [])
    ≡ (codes "x-content-type-options", codes "off") ∷ []
unfolding nosniff nat_eq list_eq
nosniff_run = refl

redacted_run : redact_query ascii_decode (codes "a=1&s%69g=x%2By&b") ≡ codes "a=1&sig=REDACTED&b="
unfolding redact_query parse_qsl split parse_pieces partition unquote unquote_runs percent_from
    percent_byte hex_value urlencode join quote_plus quote_bytes quote_byte is_unreserved utf8
    nat_eq list_eq
redacted_run = refl

serve_request-total_size_example :
    total_size (serve_request ascii_decode 1000 post_files three_bytes reader).0.given
    ≤ service_limit 1000 post_files
serve_request-total_size_example =
    serve_request-total_size ascii_decode 1000 post_files three_bytes reader refl

serve_request-transparent_example :
    let plain = run_app false three_bytes reader in
    let (r, line) = serve_request ascii_decode 1000 post_files three_bytes reader in
    (r.outcome ≡ plain.outcome)
    × (r.given ≡ plain.given)
    × (r.sent ≡ plain.sent)
    × (Option.map (λ (l : LogLine). l.status) line ≡ some (captured_status 500 plain.sent))
unfolding run_app dict_of Dict.get Dict.put nat_eq list_eq decimal
serve_request-transparent_example =
    serve_request-transparent ascii_decode 1000 post_files three_bytes reader refl
      (inr (3, refl, omega arith, omega arith)) (omega arith) (λ e. cc)

access_log-hides_example :
    let r = run_app false three_bytes reader in
    let shown = λ (q : Text). record post_files { query_string = q } in
    access_log ascii_decode
      (shown (query_with (codes "a=1" ∷ []) (parameter (codes "s%69g") (codes "xy")) []))
      r
    ≡ access_log ascii_decode
        (shown (query_with (codes "a=1" ∷ []) (parameter (codes "s%69g") (codes "z")) []))
        r
unfolding unquote unquote_runs percent_from percent_byte hex_value nat_eq list_eq
access_log-hides_example =
    access_log-hides ascii_decode (codes "a=1" ∷ []) [] (codes "s%69g") (codes "xy") (codes "z")
      post_files (run_app false three_bytes reader) ((refl, (refl, (refl, tt))), tt) tt
      (refl, (refl, (refl, (refl, (refl, (refl, (refl, (refl, tt))))))))
      (refl, (refl, (refl, (refl, (refl, (refl, (refl, tt)))))))
      (refl, (refl, (refl, (refl, (refl, tt))))) refl
