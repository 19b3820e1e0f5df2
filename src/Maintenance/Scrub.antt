-- ===== src/Maintenance/Scrub.antt =====
-- `scrub` of api_service/services/maintenance.py.
use secure_file_system.NodeClient
use secure_file_system.Base.{
  ℕ, List, [], ◌∷◌, ◌==◌, ◌!=◌, list_eq, nat_eq, if◌then◌else◌, Result, ok, err,
}
use secure_file_system.Base.Dict.{Dict}
use secure_file_system.Base.Lists.{take, keep}
use secure_file_system.Base.Text.{Text, Bytes}
use secure_file_system.Database.{StorageNode, Shard, is_healthy_status}
use secure_file_system.Erasure.Codec.{Zfec}
use secure_file_system.Files.{FilesError, other_raised, sha256_hex}
use secure_file_system.Files.Reading.{Placed}
use secure_file_system.Maintenance.{MaintenanceSettings, open_session}
use secure_file_system.Maintenance.Repair.{add_to_set, live_shards, repair_files}
use secure_file_system.Network.{Network, World}
use secure_file_system.NodeClient.{
  NodeFailure, node_error, shard_missing, shard_corrupt, other_exception,
}
use secure_file_system.Python.Hashlib.{Hashlib}

module _ (net : Network) (h : Hashlib) (token : Text) (z : Zfec) (new_id : ℕ → ℕ) (now : ℕ)
    (shuffle : List StorageNode → List StorageNode) where
  -- What one read of a scrub finds.
  unfoldable pub scrubbed :
      Shard → Result NodeFailure Bytes → Dict ℕ (List ℕ) → Result FilesError (Dict ℕ (List ℕ))
  scrubbed s (ok bytes) bad =
      if sha256_hex h bytes != s.checksum_sha256 then ok (add_to_set s.file_id s.id bad) else ok bad
  scrubbed s (err shard_missing) bad = ok (add_to_set s.file_id s.id bad)
  scrubbed s (err shard_corrupt) bad = ok (add_to_set s.file_id s.id bad)
  scrubbed s (err node_error) bad = ok bad
  scrubbed s (err other_exception) bad = err other_raised

  unfoldable pub scrub_each :
      List Placed → Dict ℕ (List ℕ) → World net → Result FilesError (Dict ℕ (List ℕ)) × World net
  unfolding scrubbed
  scrub_each [] bad w = (ok bad, w)
  scrub_each ((s, n) ∷ sample) bad w =
      let (result, w') = NodeClient.get_shard net h token n.address s.id w in
      elim (scrubbed s result bad) [ err e ↦ (err e, w') | ok bad' ↦ scrub_each sample bad' w' ]

  -- `order` is `ORDER BY random()`.
  unfoldable pub scrub :
      (List Placed → List Placed)
      → MaintenanceSettings
      → World net
      → Result FilesError ℕ × World net
  unfolding scrub_each repair_files open_session
  scrub order settings w =
      let w0 = open_session w in
      let up = keep (λ p. is_healthy_status p.1.status) (live_shards w0.session) in
      let (bad, w1) = scrub_each (take settings.scrub_batch_size (order up)) [] w0 in
      if settings.scrub_batch_size == 0 then (ok 0, w) else elim bad [
        | err e ↦ (err e, w1)
        | ok bad ↦ repair_files net h token z new_id now shuffle bad w1
      ]
