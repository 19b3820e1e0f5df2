-- ===== src/Tests/MaintenanceRuns.antt =====
-- Upkeep of a fleet whose nodes do not answer: one file can be seen, one upload is stale.

use secure_file_system.Base.{ℕ, ◌+◌, ◌≡◌, refl, Bool, true, false, none, List, [], ◌∷◌, arith, ltb}
use secure_file_system.Base.Text.{codes}
use secure_file_system.Database.{
  FileStatus, uploading, available, healthy, decommissioned, data_kind, File, StorageNode, Shard,
  Database, is_healthy_status,
}
use secure_file_system.Erasure.Codec.{sum_code}
use secure_file_system.Files.Uploading.Outcomes.{visible}
use secure_file_system.Maintenance.{MaintenanceSettings}
use secure_file_system.Maintenance.Cycle.{CycleDraws, run_cycle}
use secure_file_system.Maintenance.Health.Streaks.{after_probes, streak, after_probes-streak}
use secure_file_system.Maintenance.KeepingCycle.{run_cycle-visible}
use secure_file_system.Maintenance.Repair.{repair_lost_shards}
use secure_file_system.Maintenance.RepairedRows.{rows_of, repair-rows_of}
use secure_file_system.Maintenance.Scrub.{scrub}
use secure_file_system.Network.{http_error, Network, World}
use secure_file_system.Python.Hashlib.{sample_hashlib}

abbrev row : ℕ → FileStatus → File
row id status = record {
  id = id;
  owner_user_id = 7;
  original_name = codes "n";
  content_type = codes "t";
  size_bytes = 3;
  checksum_sha256 = codes "00";
  data_shards = 2;
  parity_shards = 1;
  link_version = 1;
  status = status;
  uploaded_at = 10;
  deleted_at = none;
}

abbrev silent : Network
silent = record { State = Unit {0}; send = λ address r s. (http_error, s) }

abbrev node : StorageNode
node = record { id = 1; address = codes "a"; status = healthy; last_seen_at = none; created_at = 0 }

-- A block on a node that is gone, and one on a node that is there.
abbrev shard : ℕ → ℕ → Shard
shard i node_id = record {
  id = 50 + i;
  file_id = 5;
  shard_index = i;
  kind = data_kind;
  node_id = node_id;
  checksum_sha256 = codes "00";
  size_bytes = 2;
  created_at = 10;
}

abbrev start : Database
start = record {
  users = [];
  files = row 5 available ∷ row 6 uploading ∷ [];
  nodes = record node { status = decommissioned } ∷ record node { id = 2 } ∷ [];
  shards = shard 0 1 ∷ shard 1 2 ∷ [];
  audit_events = [];
}

abbrev begun : World silent
begun = record { network = tt; committed = start; session = start; sent = [] }

abbrev settings : MaintenanceSettings
settings = record {
  node_failure_threshold = 3;
  stale_upload_seconds = 900;
  repair_grace_seconds = 1800;
  scrub_batch_size = 50;
}

abbrev draws : CycleDraws
draws = record {
  health_now = 2000;
  stale_now = 2000;
  repair_now = 2000;
  scrub_now = 2000;
  repair_id = λ i. 100 + i;
  scrub_id = λ i. 200 + i;
  shuffle = λ nodes. nodes;
  order = λ placed. placed;
}

run_cycle-visible_example :
    visible
      (run_cycle silent sample_hashlib (codes "t") sum_code settings draws [] begun).1.committed
    ≡ visible start
run_cycle-visible_example =
    run_cycle-visible silent sample_hashlib (codes "t") sum_code settings draws [] begun
      ((λ e. omega (arith, e), tt), (tt, tt))

-- Up, then down three times; the latest probe is in front.
abbrev probes : List (ℕ × Bool)
probes = (45, false) ∷ (30, false) ∷ (15, false) ∷ (0, true) ∷ []

after_probes-streak_example :
    is_healthy_status (after_probes 3 node probes).1.status ≡ ltb (streak probes) 3
unfolding is_healthy_status
after_probes-streak_example = after_probes-streak 3 node probes (omega arith) refl

repair-rows_of_example :
    (rows_of
        (repair_lost_shards silent sample_hashlib
          (codes "t")
          sum_code
          (λ i. 100 + i)
          2000
          (λ nodes. nodes)
          settings
          begun).1.committed
      ≡ rows_of start)
    × (rows_of
          (scrub silent sample_hashlib
            (codes "t")
            sum_code
            (λ i. 100 + i)
            2000
            (λ nodes. nodes)
            (λ placed. placed)
            settings
            begun).1.committed
        ≡ rows_of start)
repair-rows_of_example =
    repair-rows_of silent sample_hashlib (codes "t") sum_code (λ i. 100 + i) 2000 (λ nodes. nodes)
      (λ placed. placed) settings begun refl
