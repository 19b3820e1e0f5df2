-- ===== src/Maintenance/RepairedRows.antt =====
-- The rows of the shards through repair and scrub of api_service/services/maintenance.py.
use secure_file_system.Base.{
  ℕ, ◌-◌, ◌≡◌, refl, ap, inl, inr, List, [], ◌∷◌, map, ◌==◌, list_eq, nat_eq, if◌then◌else◌,
  Bool-cases,
}
use secure_file_system.Base.Text.{Text}
use secure_file_system.Database.{StorageNode, Shard, Database}
use secure_file_system.Erasure.Codec.{Zfec}
use secure_file_system.Files.Reading.{Placed}
use secure_file_system.Maintenance.{MaintenanceSettings, open_session}
use secure_file_system.Maintenance.Keeping.{ViewIs}
use secure_file_system.Maintenance.KeepingRepair.{
  open_session-ViewIs, repair_files-keeps, scrub-keeps,
}
use secure_file_system.Maintenance.Moving.{move_shard}
use secure_file_system.Maintenance.Repair.{lost_shards, live_shards, repair_lost_shards}
use secure_file_system.Maintenance.Scrub.{scrub}
use secure_file_system.Network.{Network, World}
use secure_file_system.Python.Hashlib.{Hashlib}

-- What a row says of its block: the file, the number, the digest and the size.
abbrev pub block_facts : Shard → ℕ × (ℕ × (Text × ℕ))
block_facts s = (s.file_id, (s.shard_index, (s.checksum_sha256, s.size_bytes)))

abbrev pub rows_of : Database → List (ℕ × (ℕ × (Text × ℕ)))
rows_of db = map block_facts db.shards

facts-move :
    (old new at t : ℕ) (shards : List Shard)
    → map block_facts (
        map
          (λ s. if s.id == old then record s { id = new; node_id = at; created_at = t } else s)
          shards)
      ≡ map block_facts shards
facts-move old new at t [] = refl
facts-move old new at t (s ∷ shards) = elim (Bool-cases (s.id == old)) [
  | inl e ↦ rw e (ap (λ l. block_facts s ∷ l) (facts-move old new at t shards))
  | inr e ↦ rw e (ap (λ l. block_facts s ∷ l) (facts-move old new at t shards))
]

rows_of-move_shard :
    (old new at t : ℕ) (db : Database) → rows_of (move_shard old new at t db) ≡ rows_of db
unfolding move_shard
rows_of-move_shard old new at t db = facts-move old new at t db.shards

module _ (net : Network) (h : Hashlib) (token : Text) (z : Zfec) (new_id : ℕ → ℕ) (now : ℕ)
    (shuffle : List StorageNode → List StorageNode) where
  -- Repair and scrub change at most where the blocks of a file are: no row is lost or added, and
  -- each keeps its file, its number, its digest and its size, whatever the nodes answer.
  pub repair-rows_of :
      (order : List Placed → List Placed) (settings : MaintenanceSettings) (w : World net)
      → w.session ≡ w.committed
      → (rows_of (repair_lost_shards net h token z new_id now shuffle settings w).1.committed
          ≡ rows_of w.committed)
        × (rows_of (scrub net h token z new_id now shuffle order settings w).1.committed
            ≡ rows_of w.committed)
  unfolding repair_lost_shards
  repair-rows_of order settings w fresh =
      let rows = rows_of w.committed in
      let w0 = open_session w in
      let cutoff = now - settings.repair_grace_seconds in
      let lost = lost_shards cutoff (live_shards w0.session) [] in
      let start : ViewIs rows_of rows w = record { committed = refl; session = ap rows_of fresh } in
      (
        (repair_files-keeps rows_of rows net h token rows_of-move_shard z new_id now shuffle lost w0
            (open_session-ViewIs rows_of rows net h token w refl)).committed,
        (scrub-keeps rows_of rows net h token rows_of-move_shard z new_id now shuffle order settings
            w start).committed,
      )
