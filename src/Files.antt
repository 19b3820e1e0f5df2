-- ===== src/Files.antt =====
-- api_service/services/files.py: the life of a file over the fleet of storage nodes, and the audit
-- row of api_service/services/audit.py.
pub mod Reading
pub mod Uploading
pub mod Deleting
use secure_file_system.Base.{ℕ, Bool, true, false, Option, List, [], ◌∷◌, ◌++◌, Result, ok, err}
use secure_file_system.Base.Lists.{keep}
use secure_file_system.Base.Text.{Text, Bytes}
use secure_file_system.Database.{EventType, StorageNode, AuditEvent, Database, is_healthy_status}
use secure_file_system.Erasure.{ErasureError}
use secure_file_system.NodeClient.{NodeFailure}
use secure_file_system.Python.Hashlib.{Hashlib}
use secure_file_system.Python.Hex.{hex}

-- InsufficientNodesError, UploadFailedError, FileUnavailableError, FileCorruptedError, what the
-- erasure coding raises, and an exception that the network raised
pub data FilesError : Type 0 where
  insufficient_nodes upload_failed file_unavailable file_corrupted unequal_lengths : FilesError
  erasure_failed : ErasureError → FilesError
  other_raised : FilesError

unfoldable pub coded {ℓ} : {A : Type ℓ} → Result ErasureError A → Result FilesError A
coded (ok a) = ok a
coded (err e) = err (erasure_failed e)

unfoldable pub sha256_hex : Hashlib → Bytes → Text
sha256_hex h bytes = hex (h.sha256 bytes)

unfoldable pub healthy_nodes : Database → List StorageNode
healthy_nodes db = keep (λ n. is_healthy_status n.status) db.nodes

-- `audit.record`
unfoldable pub record_event :
    EventType → Option ℕ → Option ℕ → Option ℕ → Option Text → Database → Database
record_event event_type file_id actor_user_id ttl_seconds ip_address db =
    let event : AuditEvent = record {
      file_id = file_id;
      actor_user_id = actor_user_id;
      event_type = event_type;
      ttl_seconds = ttl_seconds;
      ip_address = ip_address;
    } in
    record db { audit_events = db.audit_events ++ (event ∷ []) }

-- Whether `gather` returned an exception.
unfoldable pub failed {ℓ} : {A : Type ℓ} → Result NodeFailure A → Bool
failed (ok a) = false
failed (err e) = true
