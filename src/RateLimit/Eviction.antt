-- ===== src/RateLimit/Eviction.antt =====
-- What api_service/services/rate_limit.py forgets when it holds too many keys.
use secure_file_system.Base.Dict
use native.Mathlib.Nat.{le_refl}
use secure_file_system.Base.{
  ℕ, ◌+◌, ◌-◌, ◌*◌, ◌≤◌, min, ◌≡◌, refl, inl, inr, Bool, false, Option, none, some, List, [], ◌∷◌,
  arith, ◌==◌, list_eq, nat_eq, ltb, if◌then◌else◌, Bool-cases,
}
use secure_file_system.Base.Dict.{Dict, get-put}
use secure_file_system.Base.Lists.{length, keep}
use secure_file_system.Base.Text.{Text}
use secure_file_system.RateLimit.{
  token, Bucket, RateLimiter, capacity, not_refilled, spend, evict_full, make_room, allow,
}

-- What a bucket could spend at a time: a refilled one, or a full one where there is none.
unfoldable pub held : ℕ → ℕ → ℕ → Option Bucket → ℕ
held limit rate now none = limit
held limit rate now (some b) = min limit (b.tokens + (now - b.updated) * rate)

-- What a key could spend at a time.
unfoldable pub spendable : RateLimiter → Text → ℕ → ℕ
spendable l key now = held (capacity l) l.per_minute now (Dict.get key l.buckets)

pub spendable-put :
    (l : RateLimiter) (key j : Text) (c : Bucket) (now : ℕ)
    → spendable (record l { buckets = Dict.put key c l.buckets }) j now
      ≡ (if j == key then held (capacity l) l.per_minute now (some c) else spendable l j now)
unfolding spendable held
spendable-put l key j c now = elim (Bool-cases (j == key)) [
  | inl e ↦ rw (get-put j key c l.buckets, e) refl
  | inr e ↦ rw (get-put j key c l.buckets, e) refl
]

length-keep {ℓ} : {A : Type ℓ} (p : A → Bool) (xs : List A) → length (keep p xs) ≤ length xs
length-keep p [] = le_refl _
length-keep p (x ∷ xs) = elim (Bool-cases (p x)) [
  | inl e ↦ rw e (omega (arith, length-keep p xs))
  | inr e ↦ rw e (omega (arith, length-keep p xs))
]

module _ (max_keys : ℕ) where
  make_room-all :
      (now : ℕ) (l : RateLimiter)
      → max_keys ≤ length (keep (not_refilled now) l.buckets)
      → make_room max_keys now l ≡ record l { buckets = [] }
  unfolding make_room evict_full
  make_room-all now l full = ground (arith, length-keep (not_refilled now) l.buckets)

  spend-other :
      (l : RateLimiter) (key j : Text) (now : ℕ) (b : Bucket)
      → (j == key) ≡ false
      → spendable (spend l key b).1 j now ≡ spendable l j now
  unfolding spend
  spend-other l key j now b other =
      let c : Bucket = record b { tokens = b.tokens - token } in
      elim (Bool-cases (ltb b.tokens token)) [
        | inl e ↦ rw (e, spendable-put l key j b now, other) refl
        | inr e ↦ rw (e, spendable-put l key j c now, other) refl
      ]

  -- Where as many keys as the limiter may hold have a bucket that is not refilled, one call for a
  -- new key gives every other key a full bucket again.
  pub allow-forgets :
      (key j : Text) (now : ℕ) (l : RateLimiter)
      → max_keys ≤ length (keep (not_refilled now) l.buckets)
      → Dict.get key l.buckets ≡ none
      → (j == key) ≡ false
      → spendable (allow max_keys key now l).1 j now ≡ capacity l
  unfolding allow spendable held Dict.get
  allow-forgets key j now l full fresh other =
      let b : Bucket = record { tokens = capacity l; updated = now } in
      let emptied = record l { buckets = [] } in
      rw (fresh, make_room-all now l full, allow) (spend-other emptied key j now b other)
