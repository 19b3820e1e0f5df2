-- ===== src/RateLimit/Bounded.antt =====
-- The number of keys and the fill of the buckets of api_service/services/rate_limit.py.
use secure_file_system.Base.Dict
use secure_file_system.Base.{
  ℕ, ◌-◌, ◌≤◌, ◌<◌, ◌≡◌, inl, inr, Bool, some, [], ◌∷◌, arith, list_eq, nat_eq, ltb, leb,
  Bool-cases, Option-cases,
}
use secure_file_system.Base.Dict.{Dict, length-put, length-put_of_present}
use secure_file_system.Base.Lists.{length, keep, All}
use secure_file_system.Base.Text.{Text}
use secure_file_system.RateLimit.{
  token, Bucket, RateLimiter, capacity, refill, spend, evict_full, make_room, allow, not_refilled,
}

-- At most that many keys, and no bucket fuller than the capacity.
pub record IsBounded (max_keys : ℕ) (l : RateLimiter) : Type 0 where
  pub few_keys : length l.buckets ≤ max_keys
  pub not_over : All (λ p. p.1.tokens ≤ capacity l) l.buckets

put-not_over :
    (limit : ℕ) (key : Text) (b : Bucket) (d : Dict Text Bucket)
    → b.tokens ≤ limit
    → All (λ p. p.1.tokens ≤ limit) d
    → All (λ p. p.1.tokens ≤ limit) (Dict.put key b d)
unfolding Dict.put
put-not_over limit key b [] h k = (h, tt)
put-not_over limit key b ((j, c) ∷ d) h k = ground (arith, put-not_over limit key b d h k.1)

get-not_over :
    (limit : ℕ) (key : Text) (b : Bucket) (d : Dict Text Bucket)
    → All (λ p. p.1.tokens ≤ limit) d
    → Dict.get key d ≡ some b
    → b.tokens ≤ limit
unfolding Dict.get
get-not_over limit key b [] k e = cc
get-not_over limit key b ((j, c) ∷ d) k e = ground (arith, get-not_over limit key b d k.1)

keep-not_over :
    (limit : ℕ) (p : Text × Bucket → Bool) (d : Dict Text Bucket)
    → All (λ p. p.1.tokens ≤ limit) d
    → All (λ p. p.1.tokens ≤ limit) (keep p d)
keep-not_over limit p [] k = tt
keep-not_over limit p (e ∷ d) k = ground (arith, keep-not_over limit p d k.1)

pub refill-le : (l : RateLimiter) (now : ℕ) (b : Bucket) → (refill l now b).tokens ≤ capacity l
unfolding refill
refill-le l now b = omega arith

module _ (max_keys : ℕ) (some_key : 0 < max_keys) where
  make_room-lt : (now : ℕ) (l : RateLimiter) → length (make_room max_keys now l).buckets < max_keys
  unfolding make_room
  make_room-lt now l = ground arith

  per_minute-make_room :
      (now : ℕ) (l : RateLimiter) → (make_room max_keys now l).per_minute ≡ l.per_minute
  unfolding make_room
  per_minute-make_room now l = ground arith

  abbrev NotOver : RateLimiter → Type 0
  NotOver l = All (λ p. p.1.tokens ≤ capacity l) l.buckets

  evict_full-NotOver : (now : ℕ) (l : RateLimiter) → NotOver l → NotOver (evict_full max_keys now l)
  unfolding evict_full
  evict_full-NotOver now l h =
      elim (Bool-cases (leb max_keys (length (keep (not_refilled now) l.buckets)))) [
        | inl e ↦ rw e tt
        | inr e ↦ rw e (keep-not_over (capacity l) (not_refilled now) l.buckets h)
      ]

  make_room-NotOver : (now : ℕ) (l : RateLimiter) → NotOver l → NotOver (make_room max_keys now l)
  unfolding make_room
  make_room-NotOver now l h = elim (Bool-cases (leb max_keys (length l.buckets))) [
    | inl e ↦ rw e (evict_full-NotOver now l h)
    | inr e ↦ rw e h
  ]

  spend-IsBounded :
      (l : RateLimiter) (key : Text) (b : Bucket)
      → b.tokens ≤ capacity l
      → NotOver l
      → ((c : Bucket) → length (Dict.put key c l.buckets) ≤ max_keys)
      → IsBounded max_keys (spend l key b).1
  unfolding spend
  spend-IsBounded l key b h k few = elim (Bool-cases (ltb b.tokens token)) [
    | inl e ↦
        rw e (record { few_keys = few b; not_over = put-not_over (capacity l) key b l.buckets h k })
    | inr e ↦
        let c : Bucket = record b { tokens = b.tokens - token } in
        rw e (record {
          few_keys = few c;
          not_over = put-not_over (capacity l) key c l.buckets (omega arith) k;
        })
  ]

  -- Every call keeps at most the allowed number of keys, and no bucket above the capacity.
  pub allow-IsBounded :
      (key : Text) (now : ℕ) (l : RateLimiter)
      → IsBounded max_keys l
      → IsBounded max_keys (allow max_keys key now l).1
  unfolding allow
  allow-IsBounded key now l h = elim (Option-cases (Dict.get key l.buckets)) [
    | inl e ↦
        let r = make_room max_keys now l in
        let same = per_minute-make_room now l in
        rw (e, allow)
          (spend-IsBounded r key (record { tokens = capacity l; updated = now })
            (omega (arith, same)) (make_room-NotOver now l h.not_over)
            (λ c. omega (arith, length-put key c r.buckets, make_room-lt now l)))
    | inr (b, e) ↦
        rw (e, allow)
          (spend-IsBounded l key (refill l now b) (refill-le l now b) h.not_over
            (λ c. omega (arith, length-put_of_present key c b l.buckets e, h.few_keys)))
  ]
