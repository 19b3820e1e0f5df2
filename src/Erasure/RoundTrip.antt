-- ===== src/Erasure/RoundTrip.antt =====
-- Encoding and decoding of api_service/services/erasure.py together.
use secure_file_system.Base.Dict
use secure_file_system.Base.{
  ℕ, zero, suc, ◌+◌, ◌≤◌, ◌<◌, ◌≡◌, refl, ap, ◌∙◌, ◌≢◌, false, not, List, [], ◌∷◌, map, arith,
  list_eq, nat_eq, ltb, lt→ltb, ok, err,
}
use secure_file_system.Base.Dict.{Dict}
use secure_file_system.Base.Lists.{
  length, take, concat, any, All, length-take, length-map, IsDistinct, All-take,
}
use secure_file_system.Base.Text.{Bytes}
use secure_file_system.Erasure.{
  not_enough_shards, sorted, block_size_of, primary_blocks, encode, block_at, decode_primary,
  decode, regenerate,
}
use secure_file_system.Erasure.Codec.{Zfec, range_from, range, IsZfec}
use secure_file_system.Erasure.Padding.{
  length-range_from, primary_blocks-IsPrimary, take-concat-primary_blocks,
}
use secure_file_system.Erasure.Sorting.{
  All-sorted, length-sorted, IsIncreasing-sorted, IsIncreasing-take,
}

abbrev keys : Dict ℕ Bytes → List ℕ
keys = map (λ p. p.0)

-- Blocks under their numbers, each number once, as `encode` makes them of the file.
pub record AreBlocksOf (z : Zfec) (bytes : Bytes) (k m : ℕ) (blocks : Dict ℕ Bytes) : Type 0 where
  pub distinct : IsDistinct (keys blocks)
  pub shares :
      All (λ p. (p.0 < k + m) × (p.1 ≡ z.share k (k + m) (primary_blocks bytes k) p.0)) blocks

module _ (z : Zfec) (share : ℕ → Bytes) where
  block_at-cons :
      (i : ℕ) (b : Bytes) (d : Dict ℕ Bytes) (js : List ℕ)
      → All (λ j. j ≢ i) js
      → All (λ j. block_at z d j ≡ share j) js
      → All (λ j. block_at z ((i, b) ∷ d) j ≡ share j) js
  unfolding block_at Dict.get
  block_at-cons i b d [] n h = tt
  block_at-cons i b d (j ∷ js) n h = (ground (arith, n.0, h.0), block_at-cons i b d js n.1 h.1)

  block_at_self : (i : ℕ) (b : Bytes) (d : Dict ℕ Bytes) → block_at z ((i, b) ∷ d) i ≡ b
  unfolding block_at Dict.get
  block_at_self i b d = ground arith

  block_at-share :
      (n : ℕ) (d : Dict ℕ Bytes)
      → IsDistinct (keys d)
      → All (λ p. (p.0 < n) × (p.1 ≡ share p.0)) d
      → All (λ j. block_at z d j ≡ share j) (keys d)
  block_at-share n [] h s = tt
  block_at-share n ((i, b) ∷ d) h s =
      (block_at_self i b d ∙ s.0.1, block_at-cons i b d (keys d) h.0 (block_at-share n d h.1 s.1))

keys-lt :
    (share : ℕ → Bytes) (n : ℕ) (d : Dict ℕ Bytes)
    → All (λ p. (p.0 < n) × (p.1 ≡ share p.0)) d
    → All (λ i. i < n) (keys d)
keys-lt share n [] s = tt
keys-lt share n ((i, b) ∷ d) s = (s.0.0, keys-lt share n d s.1)

map-eq : (f g : ℕ → Bytes) (xs : List ℕ) → All (λ x. f x ≡ g x) xs → map f xs ≡ map g xs
map-eq f g [] h = refl
map-eq f g (x ∷ xs) h = rw (h.0, map-eq f g xs h.1)

none_out : (n : ℕ) (xs : List ℕ) → All (λ i. i < n) xs → any (λ i. not (ltb i n)) xs ≡ false
none_out n [] h = refl
none_out n (x ∷ xs) h = ground (arith, none_out n xs h.1)

module _ (z : Zfec) (bytes : Bytes) (k m : ℕ) (laws : IsZfec z k (k + m)) (blocks : Dict ℕ Bytes)
    (some_block : 1 ≤ k) (code : k + m ≤ 256) (b : AreBlocksOf z bytes k m blocks) where
  abbrev primary : List Bytes
  primary = primary_blocks bytes k

  abbrev indices : List ℕ
  indices = take k (sorted (keys blocks))

  length-indices : k ≤ length blocks → length indices ≡ k
  length-indices enough = omega (
    arith,
    length-take k (sorted (keys blocks)),
    length-sorted (keys blocks),
    length-map blocks (λ (p : ℕ × Bytes). p.0),
  )

  indices-lt : All (λ i. i < k + m) indices
  indices-lt =
      All-take (λ i. i < k + m) k (sorted (keys blocks))
        (All-sorted (λ i. i < k + m) (keys blocks)
          (keys-lt (z.share k (k + m) primary) (k + m) blocks b.shares))

  shares-indices : map (block_at z blocks) indices ≡ map (z.share k (k + m) primary) indices
  shares-indices =
      let share = z.share k (k + m) primary in
      map-eq (block_at z blocks) share indices (
        All-take (λ i. block_at z blocks i ≡ share i) k (sorted (keys blocks))
          (All-sorted (λ i. block_at z blocks i ≡ share i) (keys blocks)
            (block_at-share z share (k + m) blocks b.distinct b.shares)))

  -- Enough blocks give the primary blocks.
  decode_primary-blocks : k ≤ length blocks → decode_primary z blocks k m ≡ ok primary
  unfolding decode_primary
  decode_primary-blocks enough =
      let test : ltb (length blocks) k ≡ false = ground arith in
      rw (test, none_out (k + m) indices indices-lt, shares-indices)
        (ap ok (
          laws.any_k (block_size_of (length bytes) k) primary indices
            (primary_blocks-IsPrimary bytes k m some_block code) (length-indices enough)
            (IsIncreasing-take k (sorted (keys blocks))
              (IsIncreasing-sorted (keys blocks) b.distinct))
            indices-lt))

-- Any k or more of a file's blocks decode to the file.
pub decode-blocks :
    (z : Zfec) (bytes : Bytes) (k m : ℕ) (blocks : Dict ℕ Bytes)
    → IsZfec z k (k + m)
    → 1 ≤ k
    → k + m ≤ 256
    → AreBlocksOf z bytes k m blocks
    → k ≤ length blocks
    → decode z blocks k m (length bytes) ≡ ok bytes
unfolding decode
decode-blocks z bytes k m blocks laws some_block code b enough = rw (
  decode_primary-blocks z bytes k m laws blocks some_block code b enough,
  take-concat-primary_blocks bytes k m some_block,
)

-- They also give back each block that is asked for, as `encode` made it.
pub regenerate-blocks :
    (z : Zfec) (bytes : Bytes) (k m : ℕ) (blocks : Dict ℕ Bytes) (lost : List ℕ)
    → IsZfec z k (k + m)
    → 1 ≤ k
    → k + m ≤ 256
    → AreBlocksOf z bytes k m blocks
    → k ≤ length blocks
    → regenerate z blocks k m lost ≡ ok (map (z.share k (k + m) (primary_blocks bytes k)) lost)
unfolding regenerate
regenerate-blocks z bytes k m blocks lost laws some_block code b enough =
    rw (decode_primary-blocks z bytes k m laws blocks some_block code b enough)

-- Fewer than k blocks are refused, whatever they are.
pub decode-too_few :
    (z : Zfec) (k m size : ℕ) (blocks : Dict ℕ Bytes)
    → length blocks < k
    → decode z blocks k m size ≡ err not_enough_shards
unfolding decode decode_primary
decode-too_few z k m size blocks h = rw (lt→ltb (length blocks) k h)

map-range-take :
    (f : ℕ → Bytes) (start k m : ℕ)
    → take k (map f (range_from start (k + m))) ≡ map f (range_from start k)
map-range-take f start zero m = refl
map-range-take f start (suc k) m =
    let e : suc k + m ≡ suc (k + m) = omega arith in
    rw e (ap (λ t. f start ∷ t) (map-range-take f (suc start) k m))

sizes-shares :
    (f : ℕ → Bytes) (size n start k : ℕ)
    → start + k ≤ n
    → ((i : ℕ) → i < n → length (f i) ≡ size)
    → All (λ b. length b ≡ size) (map f (range_from start k))
sizes-shares f size n start zero h s = tt
sizes-shares f size n start (suc k) h s =
    (s start (omega arith), sizes-shares f size n (suc start) k (omega arith) s)

pub encode-ok :
    (z : Zfec) (bytes : Bytes) (k m : ℕ) (blocks : List Bytes)
    → encode z bytes k m ≡ ok blocks
    → (k ≢ 0) × (blocks ≡ map (z.share k (k + m) (primary_blocks bytes k)) (range (k + m)))
unfolding encode
encode-ok z [] k m blocks e = cc
encode-ok z (b ∷ bs) k m blocks e = ground arith

encode-returns :
    (z : Zfec) (bytes : Bytes) (k m : ℕ)
    → 1 ≤ length bytes
    → 1 ≤ k
    → encode z bytes k m ≡ ok (map (z.share k (k + m) (primary_blocks bytes k)) (range (k + m)))
unfolding encode
encode-returns z [] k m some_bytes some_block = ground arith
encode-returns z (b ∷ bs) k m some_bytes some_block = ground arith

-- Of a file that is not empty, `encode` returns k + m blocks of one size, the file's size divided by
-- k and rounded up, and the first k of them, put together and cut to the file's size, are the file.
-- It asks for the laws of zfec and for at least one primary block and at most 256 blocks.
pub encode-blocks :
    (z : Zfec) (bytes : Bytes) (k m : ℕ)
    → IsZfec z k (k + m)
    → 1 ≤ length bytes
    → 1 ≤ k
    → k + m ≤ 256
    → (blocks : List Bytes) × (encode z bytes k m ≡ ok blocks)
      × (length blocks ≡ k + m)
      × All (λ b. length b ≡ block_size_of (length bytes) k) blocks
      × (take (length bytes) (concat (take k blocks)) ≡ bytes)
encode-blocks z bytes k m laws some_bytes some_block code =
    let size = block_size_of (length bytes) k in
    let p = primary_blocks-IsPrimary bytes k m some_block code in
    let f = z.share k (k + m) (primary_blocks bytes k) in
    (
      map f (range (k + m)),
      encode-returns z bytes k m some_bytes some_block,
      length-map (range (k + m)) f ∙ length-range_from 0 (k + m),
      sizes-shares f size (k + m) 0 (k + m) (omega arith)
          (λ i h. laws.share_size size (primary_blocks bytes k) i p h),
      ap (λ t. take (length bytes) (concat t))
            (map-range-take f 0 k m ∙ laws.systematic size (primary_blocks bytes k) p)
          ∙ take-concat-primary_blocks bytes k m some_block,
    )
