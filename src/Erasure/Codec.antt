-- ===== src/Erasure/Codec.antt =====
-- The erasure codec that api_service/services/erasure.py calls, a parameter of the model: `zfec` is a
-- third-party library. The laws say what its documentation promises.

use secure_file_system.Base.{
  ℕ, zero, suc, ◌+◌, ◌-◌, ◌≤◌, ◌<◌, ◌≡◌, refl, sym, ◌∙◌, List, [], ◌∷◌, map, arith,
}
use secure_file_system.Base.Lists.{length, All}
use secure_file_system.Base.Text.{Bytes}

pub record Zfec : Type 0 where
  -- share i of the n that are made of k primary blocks
  pub share : ℕ → ℕ → List Bytes → ℕ → Bytes
  -- `Decoder(k, n).decode(shares, numbers)`
  pub decode : ℕ → ℕ → List Bytes → List ℕ → List Bytes

-- `Encoder(k, n).encode(primary, numbers)`
abbrev pub encode_numbers : Zfec → ℕ → ℕ → List Bytes → List ℕ → List Bytes
encode_numbers z k n primary = map (z.share k n primary)

-- 0 ∷ 1 ∷ … up to n
abbrev pub range_from : ℕ → ℕ → List ℕ
range_from start zero = []
range_from start (suc n) = start ∷ range_from (suc start) n

abbrev pub range : ℕ → List ℕ
range = range_from 0

-- Each number is less than all that follow.
abbrev pub IsIncreasing : List ℕ → Type 0
IsIncreasing [] = Unit
IsIncreasing (x ∷ xs) = All (λ y. x < y) xs × IsIncreasing xs

-- k blocks of one size, in a code that zfec accepts.
pub record IsPrimary (k n size : ℕ) (primary : List Bytes) : Type 0 where
  pub some_block : 1 ≤ k
  pub at_most_n : k ≤ n
  pub at_most_256 : n ≤ 256
  pub count : length primary ≡ k
  pub sizes : All (λ b. length b ≡ size) primary

-- The code that makes n shares of k blocks does its work.
pub record IsZfec (z : Zfec) (k n : ℕ) : Type 0 where
  -- the first k shares are the primary blocks
  pub systematic :
      (size : ℕ) (primary : List Bytes)
      → IsPrimary k n size primary
      → map (z.share k n primary) (range k) ≡ primary
  -- every share has the size of the blocks
  pub share_size :
      (size : ℕ) (primary : List Bytes) (i : ℕ)
      → IsPrimary k n size primary
      → i < n
      → length (z.share k n primary i) ≡ size
  -- any k shares give the primary blocks back
  pub any_k :
      (size : ℕ) (primary : List Bytes) (numbers : List ℕ)
      → IsPrimary k n size primary
      → length numbers ≡ k
      → IsIncreasing numbers
      → All (λ i. i < n) numbers
      → z.decode k n (map (z.share k n primary) numbers) numbers ≡ primary

-- A code for two blocks and one parity block, their sum: a concrete value of the parameter.
abbrev pub sums : Bytes → Bytes → Bytes
sums [] ys = []
sums (x ∷ xs) [] = []
sums (x ∷ xs) (y ∷ ys) = (x + y) ∷ sums xs ys

abbrev pub differences : Bytes → Bytes → Bytes
differences [] ys = []
differences (x ∷ xs) [] = []
differences (x ∷ xs) (y ∷ ys) = (x - y) ∷ differences xs ys

abbrev pub sum_share : List Bytes → ℕ → Bytes
sum_share (a ∷ b ∷ rest) zero = a
sum_share (a ∷ b ∷ rest) (suc zero) = b
sum_share (a ∷ b ∷ rest) (suc (suc i)) = sums a b
sum_share other i = []

abbrev pub sum_decode : List Bytes → List ℕ → List Bytes
sum_decode (a ∷ p ∷ rest) (zero ∷ suc (suc i) ∷ ns) = a ∷ differences p a ∷ []
sum_decode (b ∷ p ∷ rest) (suc zero ∷ suc (suc i) ∷ ns) = differences p b ∷ b ∷ []
sum_decode shares numbers = shares

abbrev pub sum_code : Zfec
sum_code = record { share = λ k n. sum_share; decode = λ k n. sum_decode }

differences-sums_left : (a b : Bytes) → length a ≡ length b → differences (sums a b) a ≡ b
differences-sums_left [] [] h = refl
differences-sums_left [] (y ∷ b) h = absurd (omega arith)
differences-sums_left (x ∷ a) [] h = absurd (omega arith)
differences-sums_left (x ∷ a) (y ∷ b) h = ground (arith, differences-sums_left a b)

differences-sums_right : (a b : Bytes) → length a ≡ length b → differences (sums a b) b ≡ a
differences-sums_right [] [] h = refl
differences-sums_right [] (y ∷ b) h = absurd (omega arith)
differences-sums_right (x ∷ a) [] h = absurd (omega arith)
differences-sums_right (x ∷ a) (y ∷ b) h = ground (arith, differences-sums_right a b)

length-sums : (a b : Bytes) → length a ≡ length b → length (sums a b) ≡ length a
length-sums [] b h = refl
length-sums (x ∷ a) [] h = absurd (omega arith)
length-sums (x ∷ a) (y ∷ b) h = ground (arith, length-sums a b)

sum_any_k :
    (a b : Bytes) (i j : ℕ)
    → length a ≡ length b
    → i < j
    → j < 3
    → sum_decode (sum_share (a ∷ b ∷ []) i ∷ sum_share (a ∷ b ∷ []) j ∷ []) (i ∷ j ∷ [])
      ≡ a ∷ b ∷ []
sum_any_k a b zero zero s h k = absurd (omega arith)
sum_any_k a b zero (suc zero) s h k = refl
sum_any_k a b zero (suc (suc j)) s h k = rw (differences-sums_left a b s)
sum_any_k a b (suc zero) zero s h k = absurd (omega arith)
sum_any_k a b (suc zero) (suc zero) s h k = absurd (omega arith)
sum_any_k a b (suc zero) (suc (suc j)) s h k = rw (differences-sums_right a b s)
sum_any_k a b (suc (suc i)) j s h k = absurd (omega arith)

sum_numbers :
    (a b : Bytes) (numbers : List ℕ)
    → length a ≡ length b
    → length numbers ≡ 2
    → IsIncreasing numbers
    → All (λ i. i < 3) numbers
    → sum_decode (map (sum_share (a ∷ b ∷ [])) numbers) numbers ≡ a ∷ b ∷ []
sum_numbers a b [] s l h k = absurd (omega arith)
sum_numbers a b (i ∷ []) s l h k = absurd (omega arith)
sum_numbers a b (i ∷ j ∷ []) s l h k = sum_any_k a b i j s h.0.0 k.1.0
sum_numbers a b (i ∷ j ∷ n ∷ ns) s l h k = absurd (omega arith)

sum_size :
    (a b : Bytes) (i size : ℕ)
    → length a ≡ size
    → length b ≡ size
    → length (sum_share (a ∷ b ∷ []) i) ≡ size
sum_size a b zero size h k = h
sum_size a b (suc zero) size h k = k
sum_size a b (suc (suc i)) size h k = omega (arith, length-sums a b (h ∙ sym k))

two_blocks :
    (size : ℕ) (primary : List Bytes)
    → IsPrimary 2 3 size primary
    → (a : Bytes) × (b : Bytes) × (primary ≡ a ∷ b ∷ []) × (length a ≡ size) × (length b ≡ size)
two_blocks size [] p = absurd (omega (arith, p.count))
two_blocks size (a ∷ []) p = absurd (omega (arith, p.count))
two_blocks size (a ∷ b ∷ []) p = (a, b, refl, p.sizes.0, p.sizes.1.0)
two_blocks size (a ∷ b ∷ c ∷ rest) p = absurd (omega (arith, p.count))

pub sum_code-IsZfec : IsZfec sum_code 2 3
sum_code-IsZfec = record {
  systematic = λ size primary p. let (a, b, e, _, _) = two_blocks size primary p in rw e;
  share_size = λ size primary i p h.
      let (a, b, e, la, lb) = two_blocks size primary p in rw e (sum_size a b i size la lb);
  any_k = λ size primary numbers p l inc lt.
      let (a, b, e, la, lb) = two_blocks size primary p in
      rw e (sum_numbers a b numbers (la ∙ sym lb) l inc lt);
}
