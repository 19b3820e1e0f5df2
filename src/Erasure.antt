-- ===== src/Erasure.antt =====
-- api_service/services/erasure.py: files as k data blocks and m parity blocks.
pub mod Codec
pub mod Sorting
pub mod Padding
pub mod RoundTrip
use secure_file_system.Base.Dict
use secure_file_system.Base.{
  ℕ, ◌+◌, ◌-◌, ◌*◌, ◌/◌, not, none, some, List, [], ◌∷◌, ◌++◌, map, ◌==◌, list_eq, nat_eq, ltb,
  if◌then◌else◌, Result, ok, err, ◌>>=◌,
}
use secure_file_system.Base.Dict.{Dict}
use secure_file_system.Base.Lists.{length, take, drop, replicate, concat, any}
use secure_file_system.Base.Text.{Bytes}
use secure_file_system.Erasure.Codec.{Zfec, encode_numbers, range}
use secure_file_system.Python.Hashlib.{padded}

-- ValueError twice, NotEnoughShardsError, and the division by k
pub data ErasureError : Type 0 where
  empty_data index_out_of_range not_enough_shards zero_division : ErasureError

-- `sorted` of distinct numbers
insert_sorted : ℕ → List ℕ → List ℕ
insert_sorted x [] = x ∷ []
insert_sorted x (y ∷ ys) = if ltb x y then x ∷ y ∷ ys else y ∷ insert_sorted x ys

unfoldable pub sorted : List ℕ → List ℕ
unfolding insert_sorted
sorted [] = []
sorted (x ∷ xs) = insert_sorted x (sorted xs)

-- `-(-size // k)`
abbrev pub block_size_of : ℕ → ℕ → ℕ
block_size_of size k = (size + k - 1) / k

-- `bytes.ljust(width, b"\0")`
ljust : ℕ → Bytes → Bytes
ljust width bytes = bytes ++ replicate (width - length bytes) 0

-- `xs[from:to]`
slice : ℕ → ℕ → Bytes → Bytes
slice from to xs = take (to - from) (drop from xs)

-- The k primary blocks of a file.
unfoldable pub primary_blocks : Bytes → ℕ → List Bytes
unfolding ljust slice
primary_blocks bytes k =
    let block_size = block_size_of (length bytes) k in
    let padded = ljust (block_size * k) bytes in
    map (λ i. slice (i * block_size) ((i + 1) * block_size) padded) (range k)

module _ (z : Zfec) where
  unfoldable pub encode : Bytes → ℕ → ℕ → Result ErasureError (List Bytes)
  encode [] k m = err empty_data
  encode (b ∷ bs) k m =
      if k == 0
      then err zero_division
      else ok (encode_numbers z k (k + m) (primary_blocks (b ∷ bs) k) (range (k + m)))

  -- `blocks[i]`, for a key that is there
  unfoldable pub block_at : Dict ℕ Bytes → ℕ → Bytes
  block_at blocks i = elim (Dict.get i blocks) [ none ↦ [] | some b ↦ b ]

  unfoldable pub decode_primary : Dict ℕ Bytes → ℕ → ℕ → Result ErasureError (List Bytes)
  unfolding sorted block_at
  decode_primary blocks k m =
      let indices = take k (sorted (map (λ p. p.0) blocks)) in
      if ltb (length blocks) k
      then err not_enough_shards
      else if any (λ i. not (ltb i (k + m))) indices
      then err index_out_of_range
      else ok (z.decode k (k + m) (map (block_at blocks) indices) indices)

  unfoldable pub decode : Dict ℕ Bytes → ℕ → ℕ → ℕ → Result ErasureError Bytes
  decode blocks k m size = do primary ← decode_primary blocks k m; ok (take size (concat primary))

  unfoldable pub regenerate : Dict ℕ Bytes → ℕ → ℕ → List ℕ → Result ErasureError (List Bytes)
  regenerate blocks k m indices = do
    primary ← decode_primary blocks k m
    ok (encode_numbers z k (k + m) primary indices)
