-- ===== src/Middleware/Stack.antt =====
-- The layers that `create_app` of api_service/main.py puts around the application: the limit of the
-- body and the access log of api_service/middleware.py, in that order from the inside. `nosniff`,
-- the outermost, is a function that Starlette's BaseHTTPMiddleware calls, which sends the response
-- on by its own rules: of it, only what it does to the headers is modelled. Only requests of HTTP
-- are logged. The duration in a log line is left out.
use mathlib.Core.Path.{subst}
use mathlib.Core.Option
use secure_file_system.Base.{
  ℕ, ◌+◌, ◌≤◌, ◌≡◌, refl, sym, ◌≢◌, true, false, ◌&&◌, Option, none, some, List, [], ◌∷◌, ◌++◌,
  arith, ◌==◌, list_eq, nat_eq, if◌then◌else◌, err,
}
use secure_file_system.Base.Lists.{any, All}
use secure_file_system.Base.Text.{Text, Bytes, codes}
use secure_file_system.Files.Reading.{before}
use secure_file_system.Middleware.{
  Incoming, Outgoing, response_start, response_body, body_too_large, App, Run, run_app, Scope,
  BodyLimits, limit_for, declared_length, body_size_limit,
}
use secure_file_system.Middleware.BodyLimit.{
  total_size, DeclaresFit, body_size_limit-transparent, body_size_limit-total_size,
}
use secure_file_system.Middleware.Query.{redact_query}
use secure_file_system.Middleware.Redacted.{parameter, IsPiece, query_with, redact_query-hides}
use secure_file_system.Python.Urls.{plus_to_space, unquote}

abbrev pub multipart_overhead_bytes : ℕ
multipart_overhead_bytes = 65536

abbrev pub default_body_limit_bytes : ℕ
default_body_limit_bytes = 65536

-- The limits that `create_app` passes, by the setting `max_upload_bytes`.
unfoldable pub service_limits : ℕ → BodyLimits
service_limits max_upload_bytes = record {
  default_max_bytes = default_body_limit_bytes;
  overrides = ((codes "POST", codes "/files"), max_upload_bytes + multipart_overhead_bytes) ∷ [];
}

-- One line of the access log, before it is written as JSON.
pub record LogLine : Type 0 where
  pub method : Text
  pub path : Text
  pub query : Text
  pub status : ℕ
  pub client : Option Text

-- `capture_send`
unfoldable pub captured_status : ℕ → List Outgoing → ℕ
captured_status status [] = status
captured_status status (response_start s headers ∷ ms) = captured_status s ms
captured_status status (response_body bytes ∷ ms) = captured_status status ms

-- `AccessLogMiddleware.__call__` after the application has ended, also by an exception
unfoldable pub access_log : (Bytes → Text) → Scope → Run → Option LogLine
access_log decoding scope r =
    if scope.is_http
    then some (record {
      method = scope.method;
      path = scope.path;
      query = redact_query decoding scope.query_string;
      status = captured_status 500 r.sent;
      client = scope.client;
    })
    else none

-- `headers.setdefault(name, value)`
unfoldable pub set_default : Text → Text → List (Text × Text) → List (Text × Text)
set_default name value headers =
    if any (λ h. h.0 == name) headers then headers else headers ++ ((name, value) ∷ [])

-- What `nosniff` does to the headers of the response.
unfoldable pub nosniff : List (Text × Text) → List (Text × Text)
unfolding set_default
nosniff = set_default (codes "x-content-type-options") (codes "nosniff")

-- One request through the two layers of api_service/middleware.py, with the line that it leaves in
-- the access log.
unfoldable pub serve_request :
    (Bytes → Text) → ℕ → Scope → List Incoming → App → Run × Option LogLine
serve_request decoding max_upload_bytes scope ms app =
    let r = body_size_limit (service_limits max_upload_bytes) scope ms app in
    (r, access_log decoding scope r)

-- What may be received of the body of a request.
abbrev pub service_limit : ℕ → Scope → ℕ
service_limit max_upload_bytes scope =
    if (scope.method == codes "POST") && (scope.path == codes "/files")
    then max_upload_bytes + 65536
    else 65536

limit_for-service_limits :
    (max_upload_bytes : ℕ) (scope : Scope)
    → limit_for (service_limits max_upload_bytes) scope ≡ service_limit max_upload_bytes scope
unfolding limit_for service_limits
limit_for-service_limits max_upload_bytes scope = ground arith

-- Whatever a client sends and declares, and whatever the application does, the application is given
-- at most `max_upload_bytes` and 64 KiB of the body of an upload, and at most 64 KiB of the body of
-- any other HTTP request.
pub serve_request-total_size :
    (decoding : Bytes → Text) (max_upload_bytes : ℕ) (scope : Scope) (ms : List Incoming)
    (app : App)
    → scope.is_http ≡ true
    → total_size (serve_request decoding max_upload_bytes scope ms app).0.given
      ≤ service_limit max_upload_bytes scope
unfolding serve_request
serve_request-total_size decoding max_upload_bytes scope ms app over_http =
    let limits = service_limits max_upload_bytes in
    omega (
      arith,
      body_size_limit-total_size limits scope ms app over_http,
      limit_for-service_limits max_upload_bytes scope,
    )

-- A request within its limit, which declares no length or the length as a number within the limit,
-- runs as it does without the two layers: the application ends the same way, is given the same
-- messages, and sends the same ones; the access log has the status that the application sent, or 500
-- if it sent none. It is asked that the application does not itself raise the exception of the
-- limit.
pub serve_request-transparent :
    (decoding : Bytes → Text) (max_upload_bytes : ℕ) (scope : Scope) (ms : List Incoming)
    (app : App)
    → scope.is_http ≡ true
    → DeclaresFit (service_limit max_upload_bytes scope) (declared_length scope)
    → total_size ms ≤ service_limit max_upload_bytes scope
    → (run_app false ms app).outcome ≢ err body_too_large
    → let plain = run_app false ms app in
      let (r, line) = serve_request decoding max_upload_bytes scope ms app in
      (r.outcome ≡ plain.outcome)
      × (r.given ≡ plain.given)
      × (r.sent ≡ plain.sent)
      × (Option.map (λ (l : LogLine). l.status) line ≡ some (captured_status 500 plain.sent))
unfolding serve_request access_log
serve_request-transparent decoding max_upload_bytes scope ms app over_http declared small other =
    let limits = service_limits max_upload_bytes in
    let e = limit_for-service_limits max_upload_bytes scope in
    let same =
      body_size_limit-transparent limits scope ms app
        (subst (λ limit. DeclaresFit limit (declared_length scope)) (sym e) declared)
        (subst (λ limit. total_size ms ≤ limit) (sym e) small) other in
    rw same (rw over_http (refl, refl, refl, refl))

-- The access log has the same line for two values of a signature: requests that differ only in the
-- value of a parameter whose name decodes to `sig`, and are answered with the same status, leave
-- the same line.
pub access_log-hides :
    (decoding : Bytes → Text) (before after : List Text) (name v w : Text) (scope : Scope) (r : Run)
    → All IsPiece before
    → All IsPiece after
    → IsPiece (parameter name v)
    → IsPiece (parameter name w)
    → All (λ c. (c == 61) ≡ false) name
    → unquote decoding (plus_to_space name) ≡ codes "sig"
    → access_log decoding
        (record scope { query_string = query_with before (parameter name v) after })
        r
      ≡ access_log decoding
          (record scope { query_string = query_with before (parameter name w) after })
          r
unfolding access_log
access_log-hides decoding before after name v w scope r b a pv pw plain sig =
    rw (redact_query-hides decoding before after name v w b a pv pw plain sig) refl
