-- ===== src/Erasure/Sorting.antt =====
-- `sorted` of api_service/services/erasure.py on the distinct indices of a dictionary.

use secure_file_system.Base.{
  ℕ, zero, suc, ◌<◌, ◌≡◌, refl, ◌≢◌, inl, inr, List, [], ◌∷◌, arith, ltb, ltb→lt, Bool-cases,
}
use secure_file_system.Base.Lists.{length, take, All, IsDistinct, All-take}
use secure_file_system.Erasure.{sorted, insert_sorted}
use secure_file_system.Erasure.Codec.{IsIncreasing}

All-insert_sorted :
    (P : ℕ → Type 0) (x : ℕ) (xs : List ℕ) → P x → All P xs → All P (insert_sorted x xs)
unfolding insert_sorted
All-insert_sorted P x [] h k = (h, tt)
All-insert_sorted P x (y ∷ ys) h k = elim (Bool-cases (ltb x y)) [
  | inl e ↦ rw e (h, k)
  | inr e ↦ rw e (k.0, All-insert_sorted P x ys h k.1)
]

pub All-sorted : (P : ℕ → Type 0) (xs : List ℕ) → All P xs → All P (sorted xs)
unfolding sorted
All-sorted P [] h = tt
All-sorted P (x ∷ xs) h = All-insert_sorted P x (sorted xs) h.0 (All-sorted P xs h.1)

length-insert_sorted : (x : ℕ) (xs : List ℕ) → length (insert_sorted x xs) ≡ suc (length xs)
unfolding insert_sorted
length-insert_sorted x [] = refl
length-insert_sorted x (y ∷ ys) = ground (arith, length-insert_sorted x ys)

pub length-sorted : (xs : List ℕ) → length (sorted xs) ≡ length xs
unfolding sorted
length-sorted [] = refl
length-sorted (x ∷ xs) = omega (arith, length-insert_sorted x (sorted xs), length-sorted xs)

lt-All : (x y : ℕ) (ys : List ℕ) → x < y → All (λ w. y < w) ys → All (λ w. x < w) ys
lt-All x y [] h k = tt
lt-All x y (w ∷ ys) h k = (omega arith, lt-All x y ys h k.1)

IsIncreasing-insert_sorted :
    (x : ℕ) (xs : List ℕ)
    → All (λ y. y ≢ x) xs
    → IsIncreasing xs
    → IsIncreasing (insert_sorted x xs)
unfolding insert_sorted
IsIncreasing-insert_sorted x [] n h = (tt, tt)
IsIncreasing-insert_sorted x (y ∷ ys) n h = elim (Bool-cases (ltb x y)) [
  | inl e ↦ rw e ((ltb→lt x y e, lt-All x y ys (ltb→lt x y e) h.0), h)
  | inr e ↦ rw e (
    All-insert_sorted (λ w. y < w) x ys (ground arith) h.0,
    IsIncreasing-insert_sorted x ys n.1 h.1,
  )
]

pub IsIncreasing-sorted : (xs : List ℕ) → IsDistinct xs → IsIncreasing (sorted xs)
unfolding sorted
IsIncreasing-sorted [] h = tt
IsIncreasing-sorted (x ∷ xs) h =
    IsIncreasing-insert_sorted x (sorted xs) (All-sorted (λ y. y ≢ x) xs h.0)
      (IsIncreasing-sorted xs h.1)

pub IsIncreasing-take : (n : ℕ) (xs : List ℕ) → IsIncreasing xs → IsIncreasing (take n xs)
IsIncreasing-take zero xs h = tt
IsIncreasing-take (suc n) [] h = tt
IsIncreasing-take (suc n) (x ∷ xs) h = (All-take (λ y. x < y) n xs h.0, IsIncreasing-take n xs h.1)
