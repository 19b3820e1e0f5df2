-- ===== src/Tests/ErasureRuns.antt =====
-- Three bytes as two blocks and their sum.

use secure_file_system.Base.{ℕ, ◌≡◌, refl, List, [], ◌∷◌, map, arith, nat_eq, ok}
use secure_file_system.Base.Dict.{Dict}
use secure_file_system.Base.Lists.{length, take, concat, All}
use secure_file_system.Base.Text.{Bytes}
use secure_file_system.Erasure.{block_size_of, primary_blocks, encode, decode, regenerate}
use secure_file_system.Erasure.Codec.{sum_code, sum_code-IsZfec}
use secure_file_system.Erasure.RoundTrip.{
  AreBlocksOf, decode-blocks, regenerate-blocks, encode-blocks,
}

abbrev file : Bytes
file = 1 ∷ 2 ∷ 3 ∷ []

encoded : encode sum_code file 2 1 ≡ ok ((1 ∷ 2 ∷ []) ∷ (3 ∷ 0 ∷ []) ∷ (4 ∷ 2 ∷ []) ∷ [])
unfolding encode primary_blocks nat_eq
encoded = refl

-- The first data block is lost.
abbrev left : Dict ℕ Bytes
left = (2, 4 ∷ 2 ∷ []) ∷ (1, 3 ∷ 0 ∷ []) ∷ []

left-AreBlocksOf : AreBlocksOf sum_code file 2 1 left
unfolding primary_blocks
left-AreBlocksOf = record {
  distinct = omega arith;
  shares = ((omega arith, refl), ((omega arith, refl), tt));
}

decode-blocks_example : decode sum_code left 2 1 3 ≡ ok file
decode-blocks_example =
    decode-blocks sum_code file 2 1 left sum_code-IsZfec (omega arith) (omega arith)
      left-AreBlocksOf (omega arith)

regenerate-blocks_example :
    regenerate sum_code left 2 1 (0 ∷ [])
    ≡ ok (map (sum_code.share 2 3 (primary_blocks file 2)) (0 ∷ []))
regenerate-blocks_example =
    regenerate-blocks sum_code file 2 1 left (0 ∷ []) sum_code-IsZfec (omega arith) (omega arith)
      left-AreBlocksOf (omega arith)

encode-blocks_example :
    (blocks : List Bytes) × (encode sum_code file 2 1 ≡ ok blocks)
    × (length blocks ≡ 3)
    × All (λ b. length b ≡ block_size_of 3 2) blocks
    × (take 3 (concat (take 2 blocks)) ≡ file)
encode-blocks_example =
    encode-blocks sum_code file 2 1 sum_code-IsZfec (omega arith) (omega arith) (omega arith)
