-- ===== src/Maintenance/Cycle.antt =====
-- `run_cycle` of api_service/services/maintenance.py.

use secure_file_system.Base.{ℕ, List}
use secure_file_system.Base.Dict.{Dict}
use secure_file_system.Base.Text.{Text}
use secure_file_system.Database.{StorageNode}
use secure_file_system.Erasure.Codec.{Zfec}
use secure_file_system.Files.Reading.{Placed}
use secure_file_system.Maintenance.{MaintenanceSettings}
use secure_file_system.Maintenance.Collection.{gc_stale_uploads, gc_deleted_files}
use secure_file_system.Maintenance.Health.{check_node_health}
use secure_file_system.Maintenance.Repair.{repair_lost_shards}
use secure_file_system.Maintenance.Scrub.{scrub}
use secure_file_system.Network.{Network, World}
use secure_file_system.Python.Hashlib.{Hashlib}

-- What the jobs of one cycle draw.
pub record CycleDraws : Type 0 where
  pub health_now : ℕ
  pub stale_now : ℕ
  pub repair_now : ℕ
  pub scrub_now : ℕ
  pub repair_id : ℕ → ℕ
  pub scrub_id : ℕ → ℕ
  pub shuffle : List StorageNode → List StorageNode
  pub order : List Placed → List Placed

module _ (net : Network) (h : Hashlib) (token : Text) (z : Zfec) where
  -- The jobs in order; what one raises does not stop the next.
  unfoldable pub run_cycle :
      MaintenanceSettings → CycleDraws → Dict ℕ ℕ → World net → Dict ℕ ℕ × World net
  run_cycle settings d failures w =
      let checked = check_node_health net h token settings d.health_now failures w in
      let w1 = checked.1.1 in
      let w2 = gc_stale_uploads net h token settings d.stale_now w1 in
      let w3 = gc_deleted_files net h token w2 in
      let repaired =
        repair_lost_shards net h token z d.repair_id d.repair_now d.shuffle settings w3 in
      let scrubbed =
        scrub net h token z d.scrub_id d.scrub_now d.shuffle d.order settings repaired.1 in
      (checked.1.0, scrubbed.1)
