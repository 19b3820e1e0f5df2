-- ===== src/RateLimit.antt =====
-- api_service/services/rate_limit.py: a token bucket for each key. The clock counts nanoseconds, and
-- a token is 60 * 10 ^ 9 parts, so that `per_minute / 60.0` tokens a second are `per_minute` parts a
-- nanosecond: what the source computes in floats is exact here. The bound on the number of keys,
-- MAX_TRACKED_KEYS, is a parameter.
pub mod Bounded
pub mod Eviction
use secure_file_system.Base.Dict
use secure_file_system.Base.{
  ℕ, ◌+◌, ◌-◌, ◌*◌, min, Bool, true, false, not, none, some, [], list_eq, nat_eq, ltb, leb,
  if◌then◌else◌,
}
use secure_file_system.Base.Dict.{Dict}
use secure_file_system.Base.Lists.{length, keep}
use secure_file_system.Base.Text.{Text}

abbrev pub minute : ℕ
minute = 60000000000

-- one token
abbrev pub token : ℕ
token = minute

pub record Bucket : Type 0 where
  pub tokens : ℕ
  pub updated : ℕ

pub record RateLimiter : Type 0 where
  pub per_minute : ℕ
  pub buckets : Dict Text Bucket

abbrev pub capacity : RateLimiter → ℕ
capacity l = l.per_minute * token

abbrev pub max_tracked_keys : ℕ
max_tracked_keys = 10000

unfoldable pub new_limiter : ℕ → RateLimiter
new_limiter per_minute = record { per_minute = per_minute; buckets = [] }

-- A bucket that had a whole minute to refill.
unfoldable pub refilled : ℕ → Text × Bucket → Bool
refilled now (key, b) = leb minute (now - b.updated)

unfoldable pub not_refilled : ℕ → Text × Bucket → Bool
unfolding refilled
not_refilled now entry = not (refilled now entry)

unfoldable pub refill : RateLimiter → ℕ → Bucket → Bucket
refill l now b =
    let elapsed = now - b.updated in
    record { tokens = min (capacity l) (b.tokens + elapsed * l.per_minute); updated = now }

-- The last lines of `allow`.
unfoldable pub spend : RateLimiter → Text → Bucket → Bool × RateLimiter
spend l key b =
    if ltb b.tokens token then (false, record l { buckets = Dict.put key b l.buckets }) else (
      true,
      record l { buckets = Dict.put key (record b { tokens = b.tokens - token }) l.buckets },
    )

module _ (max_keys : ℕ) where
  unfoldable pub evict_full : ℕ → RateLimiter → RateLimiter
  unfolding not_refilled
  evict_full now l =
      let left = keep (not_refilled now) l.buckets in
      if leb max_keys (length left) then record l { buckets = [] } else record l { buckets = left }

  unfoldable pub make_room : ℕ → RateLimiter → RateLimiter
  unfolding evict_full
  make_room now l = if leb max_keys (length l.buckets) then evict_full now l else l

  unfoldable pub allow : Text → ℕ → RateLimiter → Bool × RateLimiter
  unfolding refill spend make_room
  allow key now l = elim (Dict.get key l.buckets) [
    | none ↦ spend (make_room now l) key (record { tokens = capacity l; updated = now })
    | some b ↦ spend l key (refill l now b)
  ]
