-- ===== src/Files/Reading/Candidates.antt =====
-- The candidates that `shard_candidates` of api_service/services/files.py returns, by the rows.
use secure_file_system.Base.{
  suc, ◌≡◌, refl, sym, ap, ◌∙◌, ◌≢◌, inl, inr, List, [], ◌∷◌, arith, Bool-cases,
}
use secure_file_system.Base.Lists.{length, All, IsDistinct, All-of_map, All-map}
use secure_file_system.Files.Reading.{Placed, sort_placed, before, insert_placed}
use secure_file_system.Files.Reading.Fetching.{indices}

All-insert_placed :
    (P : Placed → Type 0) (p : Placed) (ps : List Placed)
    → P p
    → All P ps
    → All P (insert_placed p ps)
unfolding insert_placed
All-insert_placed P p [] a h = (a, tt)
All-insert_placed P p (q ∷ qs) a h = elim (Bool-cases (before q p)) [
  | inl e ↦ rw e (h.0, All-insert_placed P p qs a h.1)
  | inr e ↦ rw e (a, h)
]

-- Sorting keeps what holds of every candidate.
pub All-sort_placed : (P : Placed → Type 0) (ps : List Placed) → All P ps → All P (sort_placed ps)
unfolding sort_placed
All-sort_placed P [] h = tt
All-sort_placed P (p ∷ ps) h = All-insert_placed P p (sort_placed ps) h.0 (All-sort_placed P ps h.1)

length-insert_placed :
    (p : Placed) (ps : List Placed) → length (insert_placed p ps) ≡ suc (length ps)
unfolding insert_placed
length-insert_placed p [] = refl
length-insert_placed p (q ∷ qs) = ground (arith, length-insert_placed p qs)

pub length-sort_placed : (ps : List Placed) → length (sort_placed ps) ≡ length ps
unfolding sort_placed
length-sort_placed [] = refl
length-sort_placed (p ∷ ps) =
    length-insert_placed p (sort_placed ps) ∙ ap suc (length-sort_placed ps)

IsApart-insert_placed :
    (p : Placed) (ps : List Placed)
    → All (λ j. j ≢ p.0.shard_index) (indices ps)
    → IsDistinct (indices ps)
    → IsDistinct (indices (insert_placed p ps))
unfolding insert_placed
IsApart-insert_placed p [] a h = (tt, tt)
IsApart-insert_placed p (q ∷ qs) a h = elim (Bool-cases (before q p)) [
  | inl e ↦ rw e (
    All-map (λ y. y ≢ q.0.shard_index) (λ (x : Placed). x.0.shard_index) (insert_placed p qs)
        (All-insert_placed (λ x. x.0.shard_index ≢ q.0.shard_index) p qs (λ f. a.0 (sym f))
          (All-of_map _ _ qs h.0)),
    IsApart-insert_placed p qs a.1 h.1,
  )
  | inr e ↦ rw e (a, h)
]

pub IsDistinct-sort_placed :
    (ps : List Placed) → IsDistinct (indices ps) → IsDistinct (indices (sort_placed ps))
unfolding sort_placed
IsDistinct-sort_placed [] h = tt
IsDistinct-sort_placed (p ∷ ps) h =
    IsApart-insert_placed p (sort_placed ps)
      (All-map (λ y. y ≢ p.0.shard_index) (λ (x : Placed). x.0.shard_index) (sort_placed ps)
        (All-sort_placed (λ x. x.0.shard_index ≢ p.0.shard_index) ps (All-of_map _ _ ps h.0)))
      (IsDistinct-sort_placed ps h.1)
