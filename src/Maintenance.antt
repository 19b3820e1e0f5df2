-- ===== src/Maintenance.antt =====
-- api_service/services/maintenance.py: the upkeep of the fleet. Each job opens a session of its own;
-- times are in seconds, and what a job draws is an argument.
pub mod Health
pub mod Collection
pub mod Moving
pub mod Repair
pub mod Scrub
pub mod Cycle
pub mod Keeping
pub mod KeepingRepair
pub mod StaleFiles
pub mod KeepingCycle
pub mod RepairedRows
use secure_file_system.Base.{ℕ}
use secure_file_system.Network.{Network, World}

-- The settings that the jobs read.
pub record MaintenanceSettings : Type 0 where
  pub node_failure_threshold : ℕ
  pub stale_upload_seconds : ℕ
  pub repair_grace_seconds : ℕ
  pub scrub_batch_size : ℕ

-- `async with self._sessionmaker() as db`
unfoldable pub open_session : {net : Network} → World net → World net
open_session w = record w { session = w.committed }
