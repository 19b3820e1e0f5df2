-- ===== src/Middleware.antt =====
-- api_service/middleware.py: the limit of a request's body. The application is a tree of what it asks of the server, one request long; the
-- server's `send` is taken to succeed, and its `receive` to tell of a disconnect when the client has
-- no more messages. BodyTooLargeError is the only exception told apart from the others.
pub mod BodyLimit
pub mod Query
pub mod Redacted
pub mod Stack
use secure_file_system.Base.Dict
use secure_file_system.Base.{
  ℕ, ◌+◌, Bool, true, false, ◌&&◌, ◌||◌, Option, none, some, List, [], ◌∷◌, ◌++◌, ◌==◌, list_eq,
  nat_eq, ltb, if◌then◌else◌, Result, ok, err, Done,
}
use secure_file_system.Base.Dict.{Dict}
use secure_file_system.Base.Lists.{length, first}
use secure_file_system.Base.Text.{Text, Bytes, codes}
use secure_file_system.Python.Decimal.{is_digits, int_digits, decimal}
use secure_file_system.Python.Unicode.{ascii_only}

-- The messages of `receive`: "http.request", whose body may be left out, and any other.
pub data Incoming : Type 0 where
  request_message : Option Bytes → Incoming
  disconnect : Incoming

-- The messages of `send`: "http.response.start" and "http.response.body".
pub data Outgoing : Type 0 where
  response_start : ℕ → List (Text × Text) → Outgoing
  response_body : Bytes → Outgoing

pub data Exception : Type 0 where
  body_too_large value_error other_exception : Exception

pub data App : Type 0 where
  receiving : (Result Exception Incoming → App) → App
  sending : Outgoing → App → App
  returns : App
  raises : Exception → App

-- What became of one request: how the application ended, whether a response was begun, what was
-- sent, and the messages that the application was given.
pub record Run : Type 0 where
  pub outcome : Result Exception Done
  pub response_started : Bool
  pub sent : List Outgoing
  pub given : List Incoming

abbrev pub next_message : List Incoming → Incoming
next_message [] = disconnect
next_message (m ∷ ms) = m

abbrev pub later_messages : List Incoming → List Incoming
later_messages [] = []
later_messages (m ∷ ms) = ms

abbrev pub is_start : Outgoing → Bool
is_start (response_start status headers) = true
is_start (response_body bytes) = false

abbrev pub body_size : Incoming → ℕ
body_size (request_message none) = 0
body_size (request_message (some body)) = length body
body_size disconnect = 0

abbrev pub ended : Result Exception Done → Bool → Run
ended outcome started = record {
  outcome = outcome;
  response_started = started;
  sent = [];
  given = [];
}

abbrev pub give : Result Exception Incoming → Run → Run
give (ok m) r = record r { given = m ∷ r.given }
give (err e) r = r

-- The application on the server's own `receive` and `send`.
unfoldable pub run_app : Bool → List Incoming → App → Run
run_app started ms (receiving k) =
    give (ok (next_message ms)) (run_app started (later_messages ms) (k (ok (next_message ms))))
run_app started ms (sending m a) =
    let r = run_app (started || is_start m) ms a in record r { sent = m ∷ r.sent }
run_app started ms returns = ended (ok tt) started
run_app started ms (raises e) = ended (err e) started

-- `limited_receive`, with the bytes received up to and including the message.
abbrev pub limited_message : ℕ → ℕ → Incoming → Result Exception Incoming
limited_message limit received (request_message body) =
    if ltb limit received then err body_too_large else ok (request_message body)
limited_message limit received disconnect = ok disconnect

-- The application on `limited_receive` and `tracking_send`.
unfoldable pub run_limited : ℕ → ℕ → Bool → List Incoming → App → Run
run_limited limit received started ms (receiving k) =
    let received' = received + body_size (next_message ms) in
    let message = limited_message limit received' (next_message ms) in
    give message (run_limited limit received' started (later_messages ms) (k message))
run_limited limit received started ms (sending m a) =
    let r = run_limited limit received (started || is_start m) ms a in
    record r { sent = m ∷ r.sent }
run_limited limit received started ms returns = ended (ok tt) started
run_limited limit received started ms (raises e) = ended (err e) started

abbrev pub too_large_json : Bytes
too_large_json = codes "{\"detail\": \"request body too large\"}"

-- `_send_413`
abbrev pub send_413 : List Outgoing
send_413 =
    response_start 413 (
      (codes "content-type", codes "application/json")
      ∷ (codes "content-length", decimal (length too_large_json))
      ∷ [])
    ∷ response_body too_large_json
    ∷ []

-- `except BodyTooLargeError`
unfoldable pub caught : Run → Run
caught r = elim r.outcome [
  | ok _ ↦ r
  | err body_too_large ↦ record r {
    outcome = ok tt;
    sent = if r.response_started then r.sent else r.sent ++ send_413;
  }
  | err e ↦ r
]

pub record Scope : Type 0 where
  pub is_http : Bool
  pub method : Text
  pub path : Text
  pub query_string : Text
  pub headers : List (Text × Text)
  pub client : Option Text

pub record BodyLimits : Type 0 where
  pub default_max_bytes : ℕ
  pub overrides : List ((Text × Text) × ℕ)

unfoldable pub limit_for : BodyLimits → Scope → ℕ
limit_for limits scope =
    elim (first (λ o. (scope.method == o.0.0) && (scope.path == o.0.1)) limits.overrides) [
      | none ↦ limits.default_max_bytes
      | some o ↦ o.1
    ]

-- `dict(pairs)`: the last pair of a key gives its value.
unfoldable pub dict_of : List (Text × Text) → Dict Text Text → Dict Text Text
dict_of [] d = d
dict_of ((k, v) ∷ pairs) d = dict_of pairs (Dict.put k v d)

abbrev pub declared_length : Scope → Text
declared_length scope = elim (Dict.get (codes "content-length") (dict_of scope.headers [])) [
  | none ↦ []
  | some v ↦ v
]

-- `declared.isdigit() and int(declared) > limit`; `isdigit` and `int` of bytes know ASCII only.
unfoldable pub declared_too_large : ℕ → Text → Result Exception Bool
declared_too_large limit declared =
    if is_digits ascii_only declared
    then elim (int_digits ascii_only declared) [
      | none ↦ err value_error
      | some n ↦ ok (ltb limit n)
    ]
    else ok false

-- `BodySizeLimitMiddleware.__call__` of an "http" scope
unfoldable pub size_limited : ℕ → Text → List Incoming → App → Run
size_limited limit declared ms app = elim (declared_too_large limit declared) [
  | err e ↦ ended (err e) false
  | ok true ↦ record (ended (ok tt) false) { sent = send_413 }
  | ok false ↦ caught (run_limited limit 0 false ms app)
]

unfoldable pub body_size_limit : BodyLimits → Scope → List Incoming → App → Run
body_size_limit limits scope ms app =
    if scope.is_http
    then size_limited (limit_for limits scope) (declared_length scope) ms app
    else run_app false ms app
