-- ===== src/Erasure/Padding.antt =====
-- The primary blocks of api_service/services/erasure.py: their number, size and contents.

use secure_file_system.Base.{
  ℕ, zero, suc, ◌+◌, ◌-◌, ◌*◌, ◌≤◌, ◌≡◌, refl, sym, ap, ◌∙◌, [], ◌∷◌, ◌++◌, map, arith,
}
use secure_file_system.Base.Lists.{
  length, take, drop, replicate, concat, All, length-append, length-take, length-drop,
  length-replicate, take-append_self, take-eq_self, length-map,
}
use secure_file_system.Base.Text.{Bytes}
use secure_file_system.Erasure.{block_size_of, primary_blocks, ljust, slice}
use secure_file_system.Erasure.Codec.{range_from, range, IsPrimary}

take-nil : (n : ℕ) → take {A = ℕ} n [] ≡ []
take-nil zero = refl
take-nil (suc n) = refl

take_suc-add : (m n : ℕ) (xs : Bytes) → take (m + n) xs ≡ take m xs ++ take n (drop m xs)
take_suc-add zero n xs = let e : zero + n ≡ n = omega arith in rw e
take_suc-add (suc m) n [] = rw (take-nil n) (take-nil (suc m + n))
take_suc-add (suc m) n (x ∷ xs) =
    let e : suc m + n ≡ suc (m + n) = omega arith in rw e (ap (λ t. x ∷ t) (take_suc-add m n xs))

drop-nil : (n : ℕ) → drop {A = ℕ} n [] ≡ []
drop-nil zero = refl
drop-nil (suc n) = refl

drop-add : (m n : ℕ) (xs : Bytes) → drop (m + n) xs ≡ drop n (drop m xs)
drop-add zero n xs = let e : zero + n ≡ n = omega arith in rw e
drop-add (suc m) n [] = rw (drop-nil n) (drop-nil (suc m + n))
drop-add (suc m) n (x ∷ xs) =
    let e : suc m + n ≡ suc (m + n) = omega arith in rw e (drop-add m n xs)

module _ (size : ℕ) (padded : Bytes) where
  abbrev piece : ℕ → Bytes
  piece i = slice (i * size) ((i + 1) * size) padded

  piece-eq : (i : ℕ) → piece i ≡ take size (drop (i * size) padded)
  unfolding slice
  piece-eq i = let e : (i + 1) * size - i * size ≡ size = omega arith in rw e

  concat-pieces :
      (start k : ℕ)
      → concat (map piece (range_from start k)) ≡ take (k * size) (drop (start * size) padded)
  concat-pieces start zero = let e : zero * size ≡ 0 = omega arith in rw e
  concat-pieces start (suc k) =
      let rest = drop (start * size) padded in
      let e : suc k * size ≡ size + k * size = omega arith in
      let d : suc start * size ≡ start * size + size = omega arith in
      rw (concat-pieces (suc start) k, piece-eq start, e, d, drop-add (start * size) size padded)
        (sym (take_suc-add size (k * size) rest))

  length-piece : (i : ℕ) → i * size + size ≤ length padded → length (piece i) ≡ size
  length-piece i h =
      rw (piece-eq i)
        (omega (arith, length-take size (drop (i * size) padded), length-drop (i * size) padded))

  sizes-pieces :
      (start k : ℕ)
      → start * size + k * size ≤ length padded
      → All (λ b. length b ≡ size) (map piece (range_from start k))
  sizes-pieces start zero h = tt
  sizes-pieces start (suc k) h =
      (length-piece start (omega arith), sizes-pieces (suc start) k (omega arith))

pub length-range_from : (start k : ℕ) → length (range_from start k) ≡ k
length-range_from start zero = refl
length-range_from start (suc k) = ap suc (length-range_from (suc start) k)

module _ (bytes : Bytes) (k m : ℕ) (some_block : 1 ≤ k) where
  abbrev size : ℕ
  size = block_size_of (length bytes) k

  length-le-padded : length bytes ≤ size * k
  length-le-padded = grind arith

  length-ljust : length (ljust (size * k) bytes) ≡ k * size
  unfolding ljust
  length-ljust = omega (
    arith,
    length-append bytes (replicate (size * k - length bytes) 0),
    length-replicate {A = ℕ} (size * k - length bytes) 0,
    length-le-padded,
  )

  -- The primary blocks are k blocks of one size, a code that zfec takes.
  pub primary_blocks-IsPrimary : k + m ≤ 256 → IsPrimary k (k + m) size (primary_blocks bytes k)
  unfolding primary_blocks
  primary_blocks-IsPrimary h = record {
    some_block = some_block;
    at_most_n = omega arith;
    at_most_256 = h;
    count = length-map (range k) (piece size (ljust (size * k) bytes)) ∙ length-range_from 0 k;
    sizes = sizes-pieces size (ljust (size * k) bytes) 0 k (omega (arith, length-ljust));
  }

  -- Put together and cut to the file's length, they are the file.
  pub take-concat-primary_blocks : take (length bytes) (concat (primary_blocks bytes k)) ≡ bytes
  unfolding primary_blocks
  take-concat-primary_blocks =
      let padded = ljust (size * k) bytes in
      let e : zero * size ≡ 0 = omega arith in
      rw
        (
          concat-pieces size padded 0 k,
          e,
          take-eq_self (k * size) padded (omega (arith, length-ljust)),
        )
        (unfold ljust in take-append_self (length bytes) bytes _ refl)
