-- ===== src/Tests/RateRuns.antt =====
-- A limiter of two calls a minute.
use secure_file_system.Base.Dict
use secure_file_system.Base.{◌≡◌, refl, false, [], ◌∷◌, arith, list_eq, nat_eq}
use secure_file_system.Base.Dict.{Dict}
use secure_file_system.Base.Text.{Text, codes}
use secure_file_system.RateLimit.{
  token, RateLimiter, new_limiter, refilled, not_refilled, refill, spend, make_room, allow,
}
use secure_file_system.RateLimit.Bounded.{IsBounded, allow-IsBounded}
use secure_file_system.RateLimit.Eviction.{spendable, allow-forgets}

abbrev alice : Text
alice = codes "alice"

abbrev bob : Text
bob = codes "bob"

abbrev two_calls : RateLimiter
two_calls = new_limiter 2

-- Two calls at once pass, the third does not.
burst : (allow 4 alice 5 (allow 4 alice 5 (allow 4 alice 5 two_calls).1).1).0 ≡ false
unfolding allow new_limiter refill spend make_room nat_eq list_eq Dict.get Dict.put
burst = refl

allow-IsBounded_example : IsBounded 4 (allow 4 alice 5 two_calls).1
unfolding new_limiter
allow-IsBounded_example =
    allow-IsBounded 4 (omega arith) alice 5 two_calls
      (record { few_keys = omega arith; not_over = tt })

-- One key may be held, and it is held by a client that has spent its call.
abbrev spent : RateLimiter
spent = record { per_minute = 1; buckets = (alice, record { tokens = 0; updated = 5 }) ∷ [] }

allow-forgets_example : spendable (allow 1 bob 6 spent).1 alice 6 ≡ token
unfolding not_refilled refilled nat_eq list_eq Dict.get
allow-forgets_example = allow-forgets 1 bob alice 6 spent (omega arith) refl refl
