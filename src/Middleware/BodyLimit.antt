-- ===== src/Middleware/BodyLimit.antt =====
-- What the body limit of api_service/middleware.py lets through.
use secure_file_system.Base.{
  ℕ, ◌+◌, ◌-◌, ◌≤◌, ◌<◌, ◌≡◌, refl, ◌≢◌, ◌⊎◌, inl, inr, Bool, true, false, ◌||◌, List, [], ◌∷◌,
  arith, ltb, Bool-cases, ok, err, Result-cases,
}
use secure_file_system.Base.Lists.{length, all, All}
use secure_file_system.Base.Text.{Text}
use secure_file_system.Middleware.{
  Incoming, request_message, disconnect, body_too_large, App, receiving, sending, returns, raises,
  Run, next_message, later_messages, is_start, body_size, give, run_app, limited_message,
  run_limited, caught, Scope, BodyLimits, limit_for, declared_length, declared_too_large,
  size_limited, body_size_limit,
}
use secure_file_system.Python.Decimal.{
  is_digits, max_str_digits, decimal, decimal-digits, int_digits-decimal, decimal-nonempty,
}
use secure_file_system.Python.Unicode.{ascii_digit, ascii_only}

-- The bytes of the bodies in a list of messages.
abbrev pub total_size : List Incoming → ℕ
total_size [] = 0
total_size (m ∷ ms) = body_size m + total_size ms

give-total_size :
    (limit received : ℕ) (m : Incoming) (r : Run)
    → total_size r.given ≤ limit - (received + body_size m)
    → total_size (give (limited_message limit (received + body_size m) m) r).given
      ≤ limit - received
give-total_size limit received (request_message body) r h =
    elim (Bool-cases (ltb limit (received + body_size (request_message body)))) [
      | inl e ↦ rw e (omega arith)
      | inr e ↦ rw e (ground arith)
    ]
give-total_size limit received disconnect r h = omega arith

run_limited-total_size :
    (limit received : ℕ) (started : Bool) (ms : List Incoming) (app : App)
    → total_size (run_limited limit received started ms app).given ≤ limit - received
unfolding run_limited
run_limited-total_size limit received started ms (receiving k) =
    let m = next_message ms in
    let received' = received + body_size m in
    give-total_size limit received m _ (
      run_limited-total_size limit received' started (later_messages ms)
        (k (limited_message limit received' m)))
run_limited-total_size limit received started ms (sending m a) =
    run_limited-total_size limit received (started || is_start m) ms a
run_limited-total_size limit received started ms returns = omega arith
run_limited-total_size limit received started ms (raises e) = omega arith

caught-given : (r : Run) → (caught r).given ≡ r.given
unfolding caught
caught-given r = ground arith

size_limited-total_size :
    (limit : ℕ) (declared : Text) (ms : List Incoming) (app : App)
    → total_size (size_limited limit declared ms app).given ≤ limit
unfolding size_limited
size_limited-total_size limit declared ms app =
    elim (Result-cases (declared_too_large limit declared)) [
      | inr (x, e) ↦ rw (e, size_limited) (omega arith)
      | inl (true, e) ↦ rw (e, size_limited) (omega arith)
      | inl (false, e) ↦
          rw (e, size_limited)
            (rw (caught-given (run_limited limit 0 false ms app))
              (omega (arith, run_limited-total_size limit 0 false ms app)))
    ]

limited_message_ok :
    (limit received : ℕ) (m : Incoming)
    → received + body_size m ≤ limit
    → limited_message limit (received + body_size m) m ≡ ok m
limited_message_ok limit received (request_message body) h = ground arith
limited_message_ok limit received disconnect h = refl

total_size-later_messages :
    (ms : List Incoming)
    → total_size ms ≡ body_size (next_message ms) + total_size (later_messages ms)
total_size-later_messages [] = refl
total_size-later_messages (m ∷ ms) = refl

-- Within the limit, the application runs as it does on its own.
run_limited-eq_run_app :
    (limit received : ℕ) (started : Bool) (ms : List Incoming) (app : App)
    → received + total_size ms ≤ limit
    → run_limited limit received started ms app ≡ run_app started ms app
unfolding run_limited run_app
run_limited-eq_run_app limit received started ms (receiving k) h =
    let m = next_message ms in
    let split = total_size-later_messages ms in
    rw (limited_message_ok limit received m (omega (arith, h, split))) (
      rw (
        run_limited-eq_run_app limit (received + body_size m) started (later_messages ms) (k (ok m))
          (omega (arith, h, split))))
run_limited-eq_run_app limit received started ms (sending m a) h =
    rw (run_limited-eq_run_app limit received (started || is_start m) ms a h)
run_limited-eq_run_app limit received started ms returns h = refl
run_limited-eq_run_app limit received started ms (raises e) h = refl

caught-of_other : (r : Run) → r.outcome ≢ err body_too_large → caught r ≡ r
unfolding caught
caught-of_other r n = ground arith

size_limited-transparent :
    (limit : ℕ) (declared : Text) (ms : List Incoming) (app : App)
    → declared_too_large limit declared ≡ ok false
    → total_size ms ≤ limit
    → (run_app false ms app).outcome ≢ err body_too_large
    → size_limited limit declared ms app ≡ run_app false ms app
unfolding size_limited
size_limited-transparent limit declared ms app fits small other =
    rw (fits, size_limited)
      (rw (run_limited-eq_run_app limit 0 false ms app (omega (arith, small)))
        (caught-of_other (run_app false ms app) other))

is_digits-of_ascii :
    (s : Text) → All (λ c. ascii_digit c ≡ true) s → 0 < length s → is_digits ascii_only s ≡ true
unfolding is_digits
is_digits-of_ascii [] h n = absurd (omega arith)
is_digits-of_ascii (c ∷ s) h n = all-digits (c ∷ s) h
  where
    all-digits : (s : Text) → All (λ c. ascii_digit c ≡ true) s → all ascii_only.is_digit s ≡ true
    all-digits [] h = refl
    all-digits (c ∷ s) h = rw (h.0, all-digits s h.1) refl

-- A client that declares no length, or its length as a number, which Python can read.
abbrev pub DeclaresFit : ℕ → Text → Type 0
DeclaresFit limit declared =
    (declared ≡ [])
    ⊎ ((n : ℕ) × (declared ≡ decimal n) × (length (decimal n) ≤ max_str_digits) × (n ≤ limit))

fits-ok :
    (limit : ℕ) (declared : Text)
    → DeclaresFit limit declared
    → declared_too_large limit declared ≡ ok false
unfolding declared_too_large is_digits
fits-ok limit declared (inl e) = rw e refl
fits-ok limit declared (inr (n, e, short, small)) = rw e (
    rw
      (
        is_digits-of_ascii (decimal n) (decimal-digits n) (decimal-nonempty n),
        int_digits-decimal ascii_only n short,
      )
      (ground arith))

-- What the middleware of the body limit does to a request of another kind, or one that is within
-- the limit and declares no more than it.
pub body_size_limit-transparent :
    (limits : BodyLimits) (scope : Scope) (ms : List Incoming) (app : App)
    → DeclaresFit (limit_for limits scope) (declared_length scope)
    → total_size ms ≤ limit_for limits scope
    → (run_app false ms app).outcome ≢ err body_too_large
    → body_size_limit limits scope ms app ≡ run_app false ms app
unfolding body_size_limit
body_size_limit-transparent limits scope ms app declared small other =
    elim (Bool-cases scope.is_http) [
      | inr e ↦ ground arith
      | inl e ↦ ground (
        arith,
        size_limited-transparent (limit_for limits scope) (declared_length scope) ms app
            (fits-ok (limit_for limits scope) (declared_length scope) declared) small other,
      )
    ]

pub body_size_limit-total_size :
    (limits : BodyLimits) (scope : Scope) (ms : List Incoming) (app : App)
    → scope.is_http ≡ true
    → total_size (body_size_limit limits scope ms app).given ≤ limit_for limits scope
unfolding body_size_limit
body_size_limit-total_size limits scope ms app e =
    ground (arith, size_limited-total_size (limit_for limits scope) (declared_length scope) ms app)
