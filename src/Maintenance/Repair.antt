-- ===== src/Maintenance/Repair.antt =====
-- `repair_file` and `repair_lost_shards` of api_service/services/maintenance.py. `shuffle` is what
-- `random.shuffle` does to the targets.

use secure_file_system.Base.Dict
use secure_file_system.Base.{
  ℕ, ◌+◌, ◌-◌, Bool, true, false, not, none, some, List, [], ◌∷◌, map, contains, list_eq, nat_eq,
  ltb, if◌then◌else◌, Result, ok, err, ◌>>=◌,
}
use secure_file_system.Base.Dict.{Dict}
use secure_file_system.Base.Lists.{length, keep}
use secure_file_system.Base.Text.{Text, Bytes}
use secure_file_system.Database.{
  healthy, unreachable, decommissioned, File, StorageNode, Database, is_available, find_file,
  join_nodes, placed_shards,
}
use secure_file_system.Erasure.{regenerate}
use secure_file_system.Erasure.Codec.{Zfec}
use secure_file_system.Files.{FilesError, coded, healthy_nodes}
use secure_file_system.Files.Reading.{Placed, shard_candidates, fetch_blocks}
use secure_file_system.Maintenance.{MaintenanceSettings, open_session}
use secure_file_system.Maintenance.Moving.{repair_each}
use secure_file_system.Network.{Network, World}
use secure_file_system.Python.Hashlib.{Hashlib}

-- On a node that is decommissioned, or that was last seen before the cutoff.
unfoldable pub is_lost : ℕ → StorageNode → Bool
is_lost cutoff n =
    let seen : ℕ = elim n.last_seen_at [ none ↦ n.created_at | some t ↦ t ] in
    elim n.status [ decommissioned ↦ true | unreachable ↦ ltb seen cutoff | healthy ↦ false ]

-- `lost[file_id].add(shard_id)` of a defaultdict of sets
unfoldable pub add_to_set : ℕ → ℕ → Dict ℕ (List ℕ) → Dict ℕ (List ℕ)
add_to_set file_id shard_id sets =
    let old : List ℕ = elim (Dict.get file_id sets) [ none ↦ [] | some ids ↦ ids ] in
    if contains old shard_id then sets else Dict.put file_id (shard_id ∷ old) sets

is_available_file : ℕ → Database → Bool
is_available_file id db = elim (find_file id db) [ none ↦ false | some f ↦ is_available f.status ]

unfoldable pub lost_shards : ℕ → List Placed → Dict ℕ (List ℕ) → Dict ℕ (List ℕ)
lost_shards cutoff [] lost = lost
lost_shards cutoff ((s, n) ∷ placed) lost =
    lost_shards cutoff placed (if is_lost cutoff n then add_to_set s.file_id s.id lost else lost)

-- The shards of available files, each with its node.
unfoldable pub live_shards : Database → List Placed
unfolding is_available_file
live_shards db = join_nodes db.nodes (keep (λ s. is_available_file s.file_id db) db.shards)

module _ (net : Network) (h : Hashlib) (token : Text) (z : Zfec) (new_id : ℕ → ℕ) (now : ℕ)
    (shuffle : List StorageNode → List StorageNode) where
  -- The healthy nodes that hold no shard of the file.
  unfoldable pub targets_of : Database → List Placed → List StorageNode
  targets_of db placed =
      shuffle (keep (λ n. not (contains (map (λ p. p.1.id) placed) n.id)) (healthy_nodes db))

  -- From the blocks that were read on.
  unfoldable pub rebuild :
      File → List ℕ → Dict ℕ Bytes → World net → Result FilesError ℕ × World net
  unfolding repair_each targets_of
  rebuild file bad_ids blocks w =
      let placed = placed_shards file.id w.session in
      let bad = keep (λ p. contains bad_ids p.0.id) placed in
      let indices = map (λ p. p.0.shard_index) bad in
      if ltb (length blocks) file.data_shards
      then (ok 0, w)
      else elim (coded (regenerate z blocks file.data_shards file.parity_shards indices)) [
        | err e ↦ (err e, w)
        | ok rebuilt ↦
            repair_each net h token new_id now bad rebuilt (targets_of w.session placed) w
      ]

  -- A file that is there.
  unfoldable pub repair_found : File → List ℕ → World net → Result FilesError ℕ × World net
  unfolding rebuild
  repair_found file bad_ids w =
      let good = shard_candidates file.id bad_ids w.session in
      let (blocks, w') = fetch_blocks net h token good file.data_shards w in
      elim blocks [ err e ↦ (err e, w') | ok blocks ↦ rebuild file bad_ids blocks w' ]

  unfoldable pub repair_file : ℕ → List ℕ → World net → Result FilesError ℕ × World net
  unfolding repair_found open_session
  repair_file file_id bad_ids w =
      let w0 = open_session w in
      elim (find_file file_id w0.session) [
        | none ↦ (ok 0, w0)
        | some file ↦ if is_available file.status then repair_found file bad_ids w0 else (ok 0, w0)
      ]

  unfoldable pub repair_files : Dict ℕ (List ℕ) → World net → Result FilesError ℕ × World net
  unfolding repair_file
  repair_files [] w = (ok 0, w)
  repair_files ((file_id, ids) ∷ bad) w =
      let (one, w') = repair_file file_id ids w in
      let (rest, w'') = repair_files bad w' in
      elim one [ err e ↦ (err e, w') | ok n ↦ (do m ← rest; ok (n + m), w'') ]

  unfoldable pub repair_lost_shards :
      MaintenanceSettings → World net → Result FilesError ℕ × World net
  unfolding repair_files open_session
  repair_lost_shards settings w =
      let w0 = open_session w in
      let cutoff = now - settings.repair_grace_seconds in
      repair_files (lost_shards cutoff (live_shards w0.session) []) w0
