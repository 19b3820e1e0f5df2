-- ===== src/Files/Reading/Serving.antt =====
-- A file of api_service/services/files.py that enough nodes serve is read back.

use secure_file_system.Base.{
  ℕ, zero, suc, ◌+◌, ◌-◌, ◌≤◌, ◌≡◌, refl, ap, inl, inr, Bool, List, [], ◌∷◌, ◌++◌, arith, leb,
  Bool-cases,
}
use secure_file_system.Base.Dict.{Dict}
use secure_file_system.Base.Lists.{
  length, take, drop, All, length-drop, take-append-drop, IsDistinct, All-take,
}
use secure_file_system.Base.Text.{Text, Bytes}
use secure_file_system.Files.Reading.{Placed, add_blocks, get_placed, fetch_more}
use secure_file_system.Files.Reading.Fetching.{indices, IsCollected, count_good, IsCandidate}
use secure_file_system.Files.Reading.Growing.{gather-AllFit, gather-holds, Grown, add_blocks-Grown}
use secure_file_system.Network.{Network, World, gather}
use secure_file_system.Python.Hashlib.{Hashlib}

module _ (net : Network) (h : Hashlib) (token : Text) (holds : net.State → Type 0)
    (share : ℕ → Bytes) (n : ℕ) (good : Placed → Bool) where
  -- What holds of the candidates that are left.
  pub record IsPending (remaining : List Placed) : Type 0 where
    pub candidates : All (IsCandidate net h token holds share n good) remaining
    pub apart : IsDistinct (indices remaining)

  IsPending-drop : (i : ℕ) (ps : List Placed) → IsPending ps → IsPending (drop i ps)
  IsPending-drop zero ps c = c
  IsPending-drop (suc i) [] c = c
  IsPending-drop (suc i) (p ∷ ps) c =
      IsPending-drop i ps (record { candidates = c.candidates.1; apart = c.apart.1 })

  count_good-append :
      (xs ys : List Placed) → count_good good (xs ++ ys) ≡ count_good good xs + count_good good ys
  count_good-append [] ys = omega arith
  count_good-append (x ∷ xs) ys = omega (arith, count_good-append xs ys)

  -- One round of the loop.
  round-Grown :
      (wanted : ℕ) (ps : List Placed) (d : Dict ℕ Bytes) (w : World net)
      → holds w.network
      → IsPending ps
      → IsCollected share n ps d
      → Grown net h token holds share n good
          (drop wanted ps)
          (length d + count_good good (take wanted ps))
          (add_blocks net h token
            (take wanted ps)
            (gather (get_placed net h token) (take wanted ps) w).0
            d)
  round-Grown wanted ps d w s c k =
      let batch = take wanted ps in
      let taken = All-take (IsCandidate net h token holds share n good) wanted ps c.candidates in
      let whole = take-append-drop wanted ps in
      add_blocks-Grown net h token holds share n good batch (drop wanted ps)
        (gather (get_placed net h token) batch w).0 d taken
        (gather-AllFit net h token holds share n good batch w taken s) (rw whole c.apart)
        (rw whole k)

  -- With as much fuel as there are candidates, the loop ends with k blocks if it had k good ones.
  pub fetch_more-Grown :
      (fuel k : ℕ) (ps : List Placed) (d : Dict ℕ Bytes) (w : World net)
      → length ps ≤ fuel
      → k ≤ length d + count_good good ps
      → holds w.network
      → IsPending ps
      → IsCollected share n ps d
      → Grown net h token holds share n good [] k (fetch_more net h token fuel k ps d w).0
  unfolding fetch_more
  fetch_more-Grown zero k [] d w short good_left s c collected = record {
    blocks = d;
    returned = refl;
    collected = collected;
    enough = omega (arith, good_left);
  }
  fetch_more-Grown zero k (p ∷ ps) d w short good_left s c collected = absurd (omega (arith, short))
  fetch_more-Grown (suc fuel) k [] d w short good_left s c collected = record {
    blocks = d;
    returned = refl;
    collected = collected;
    enough = omega (arith, good_left);
  }
  fetch_more-Grown (suc fuel) k (p ∷ ps) d w short good_left s c collected =
      let wanted = k - length d in
      let one = round-Grown wanted (p ∷ ps) d w s c collected in
      let taken =
        All-take (IsCandidate net h token holds share n good) wanted (p ∷ ps) c.candidates in
      let kept = gather-holds net h token holds share n good (take wanted (p ∷ ps)) w taken s in
      let w' = (gather (get_placed net h token) (take wanted (p ∷ ps)) w).1 in
      let parts = ap (count_good good) (take-append-drop wanted (p ∷ ps)) in
      elim (Bool-cases (leb k (length d))) [
        | inl e ↦ rw e (record {
          blocks = d;
          returned = refl;
          collected = record {
            distinct = collected.distinct;
            shares = collected.shares;
            absent = tt;
          };
          enough = ground (arith, e);
        })
        | inr e ↦
            rw (e, one.returned)
              (fetch_more-Grown fuel k (drop wanted (p ∷ ps)) one.blocks w'
                (ground (arith, length-drop wanted (p ∷ ps), short, e))
                (omega (
                  arith,
                  parts,
                  count_good-append (take wanted (p ∷ ps)) (drop wanted (p ∷ ps)),
                  one.enough,
                  good_left,
                ))
                kept (IsPending-drop wanted (p ∷ ps) c) one.collected)
      ]
