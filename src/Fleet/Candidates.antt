-- ===== src/Fleet/Candidates.antt =====
-- The shards of an upload on a fleet, as candidates of `fetch_blocks` of
-- api_service/services/files.py.
use mathlib.Core.Path.{subst}
use secure_file_system.Base.{
  ℕ, suc, ◌≡◌, refl, sym, ap, ◌∙◌, Bool, true, List, [], ◌∷◌, map, arith, ok, ok-eq,
}
use secure_file_system.Base.Lists.{
  length, All, All-implies, All-both, IsDistinct, All-map, All-each,
}
use secure_file_system.Base.Text.{Text, Bytes}
use secure_file_system.Database.{StorageNode}
use secure_file_system.Files.{sha256_hex}
use secure_file_system.Files.Reading.{Placed, sort_placed, get_placed}
use secure_file_system.Files.Reading.Candidates.{All-sort_placed, IsDistinct-sort_placed}
use secure_file_system.Files.Reading.Fetching.{indices, count_good, Fits, IsCandidate}
use secure_file_system.Files.Reading.Serving.{IsPending}
use secure_file_system.Files.Uploading.{Draws, Placement}
use secure_file_system.Files.Uploading.Candidates.{row_of}
use secure_file_system.Files.Uploading.Placing.{IsPlacement, ArePlacements}
use secure_file_system.Fleet.{FleetState, NoReadFails, node_network}
use secure_file_system.Fleet.Puts.{HasPlaced, AllPlaced, get_placed-keeps}
use secure_file_system.Fleet.Stored.{get_shard-of_Has}
use secure_file_system.Network.{Network, World}
use secure_file_system.Python.Hashlib.{Hashlib, IsHashlib}
use secure_file_system.Python.Unicode.{Unicode}
use secure_file_system.RateLimit.Eviction.{held}
use secure_file_system.StorageNode.Router.{NodeSettings}
use secure_file_system.StorageNode.Storage.{Faults}

abbrev pub always : Placed → Bool
always p = true

pub count_good-always : (ps : List Placed) → count_good always ps ≡ length ps
count_good-always [] = refl
count_good-always (p ∷ ps) = omega (arith, count_good-always ps)

indices-row_of :
    (placed : List Placement) → indices (map row_of placed) ≡ map (λ p. p.shard.shard_index) placed
indices-row_of [] = refl
indices-row_of (p ∷ placed) = ap (λ l. p.shard.shard_index ∷ l) (indices-row_of placed)

pub length-rows : (placed : List Placement) → length (map row_of placed) ≡ length placed
length-rows [] = refl
length-rows (p ∷ placed) = ap suc (length-rows placed)

module _ (h : Hashlib) (u : Unicode) (settings : NodeSettings) (faults : ℕ → Faults)
    (suffix : ℕ → Text) (token : Text) where
  abbrev Fleet : Network
  Fleet = node_network h u settings faults suffix

  abbrev Holds : List Placement → FleetState → Type 0
  Holds placed = AllPlaced h u settings faults suffix token placed

  fits :
      (block_of : ℕ → Bytes) (d : Draws) (high : ℕ) (p : Placement) (w : World Fleet)
      → IsHashlib h
      → NoReadFails faults
      → IsPlacement h d block_of 0 high p
      → HasPlaced h u settings faults suffix token p w.network
      → Fits Fleet h token block_of always (row_of p) (get_placed Fleet h token (row_of p) w).0
  unfolding get_placed
  fits block_of d high p w laws works i has =
      let got =
        get_shard-of_Has h u settings faults suffix token p.node.address p.shard.id p.block w laws
          works has in
      record {
        no_exception = λ e. cc;
        honest = λ b e m. ok-eq _ e got ∙ i.block;
        served = λ e. got ∙ ap ok i.block;
      }

  candidate :
      (block_of : ℕ → Bytes) (d : Draws) (high : ℕ) (placed : List Placement) (p : Placement)
      → IsHashlib h
      → NoReadFails faults
      → IsPlacement h d block_of 0 high p
      → ((s : FleetState) → Holds placed s → HasPlaced h u settings faults suffix token p s)
      → IsCandidate Fleet h token (Holds placed) block_of high always (row_of p)
  candidate block_of d high placed p laws works i held = record {
    low = i.below;
    matches = ap (sha256_hex h) (sym i.block) ∙ sym i.checksum;
    replies = λ w all. fits block_of d high p w laws works i (held w.network all);
    keeps = λ w all.
        All-implies placed
          (λ q has. get_placed-keeps h u settings faults suffix token q (row_of p) w has) all;
  }

  pub rows-IsPending :
      (block_of : ℕ → Bytes) (d : Draws) (P : StorageNode → Type 0) (high : ℕ)
      (placed : List Placement)
      → IsHashlib h
      → NoReadFails faults
      → ArePlacements h d block_of P 0 high placed
      → IsPending Fleet h token
          (Holds placed)
          block_of
          high
          always
          (sort_placed (map row_of placed))
  rows-IsPending block_of d P high placed laws works a = record {
    candidates = All-sort_placed _ (map row_of placed) (
        All-map _ row_of placed (
          All-both placed (λ p i f. candidate block_of d high placed p laws works i f)
            (subst (λ n. All (IsPlacement h d block_of 0 n) placed) (omega arith) a.each)
            (All-each (λ p s. HasPlaced h u settings faults suffix token p s) placed)));
    apart =
        IsDistinct-sort_placed (map row_of placed)
          (subst IsDistinct (sym (indices-row_of placed)) a.apart);
  }
