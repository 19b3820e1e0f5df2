-- ===== src/Maintenance/Moving.antt =====
-- The move of one bad shard to a new node, and the loop of moves, in `repair_file` of
-- api_service/services/maintenance.py. `new_id` is the UUID drawn for a shard that is moved.
use secure_file_system.NodeClient
use secure_file_system.Base.{
  ℕ, ◌+◌, Bool, true, false, List, ◌∷◌, map, ◌==◌, ◌!=◌, list_eq, nat_eq, if◌then◌else◌, Result, ok,
  err, Done, ◌>>=◌,
}
use secure_file_system.Base.Text.{Text, Bytes}
use secure_file_system.Database.{StorageNode, Database}
use secure_file_system.Files.{FilesError, other_raised, sha256_hex}
use secure_file_system.Files.Reading.{Placed}
use secure_file_system.Network.{Network, World, commit, stage}
use secure_file_system.NodeClient.{NodeFailure, other_exception}
use secure_file_system.Python.Hashlib.{Hashlib}

-- `update(Shard).where(Shard.id == old_id)`
unfoldable pub move_shard : ℕ → ℕ → ℕ → ℕ → Database → Database
move_shard old_id new_id node_id now db = record db {
  shards =
      map
        (λ s.
          if s.id == old_id
          then record s { id = new_id; node_id = node_id; created_at = now }
          else s)
        db.shards;
}

pub is_other_exception : NodeFailure → Bool
is_other_exception other_exception = true
is_other_exception _ = false

-- What `delete_shard` returns is not looked at, but an exception that is no NodeError is raised.
unfoldable pub after_delete : Result NodeFailure Done → Result FilesError ℕ
unfolding is_other_exception
after_delete (ok _) = ok 1
after_delete (err e) = if is_other_exception e then err other_raised else ok 1

module _ (net : Network) (h : Hashlib) (token : Text) (new_id : ℕ → ℕ) (now : ℕ) where
  -- One shard onto its target: 1 if it was moved.
  unfoldable pub move_one :
      Placed → Bytes → StorageNode → World net → Result FilesError ℕ × World net
  move_one (s, old_node) block target w =
      let (put, w') = NodeClient.put_shard net h token target.address (new_id s.id) block w in
      let moved = commit (stage (move_shard s.id (new_id s.id) target.id now) w') in
      let (gone, w'') = NodeClient.delete_shard net h token old_node.address s.id moved in
      elim put [
        | err e ↦ (if is_other_exception e then err other_raised else ok 0, w')
        | ok _ ↦ (after_delete gone, w'')
      ]

  unfoldable pub repair_one :
      Placed → Bytes → StorageNode → World net → Result FilesError ℕ × World net
  unfolding move_one is_other_exception
  repair_one (s, old_node) block target w =
      if sha256_hex h block != s.checksum_sha256
      then (ok 0, w)
      else move_one (s, old_node) block target w

  -- The loop over `zip(bad, rebuilt, targets, strict=False)`.
  unfoldable pub repair_each :
      List Placed → List Bytes → List StorageNode → World net → Result FilesError ℕ × World net
  unfolding repair_one
  repair_each (p ∷ bad) (block ∷ rebuilt) (target ∷ targets) w =
      let (one, w') = repair_one p block target w in
      let (rest, w'') = repair_each bad rebuilt targets w' in
      elim one [ err e ↦ (err e, w') | ok n ↦ (do m ← rest; ok (n + m), w'') ]
  repair_each _ _ _ w = (ok 0, w)
