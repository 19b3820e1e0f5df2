-- ===== src/Database.antt =====
-- The rows of api_service/db/models.py, and the state that a request or a job of the API service
-- works on. A table is a list of rows in the order in which a query returns them.
use secure_file_system.Base.{
  ℕ, Bool, true, false, Option, none, some, List, [], ◌∷◌, map, ◌==◌, ◌!=◌, list_eq, nat_eq,
  if◌then◌else◌,
}
use secure_file_system.Base.Lists.{keep, first}
use secure_file_system.Base.Text.{Text}

pub data FileStatus : Type 0 where
  uploading available deleted : FileStatus

pub data NodeStatus : Type 0 where
  healthy unreachable decommissioned : NodeStatus

-- "data" and "parity"
pub data ShardKind : Type 0 where
  data_kind parity_kind : ShardKind

pub data EventType : Type 0 where
  file_uploaded link_generated download_success download_denied file_deleted : EventType

pub record User : Type 0 where
  pub id : ℕ
  pub email : Text
  pub api_key_hash : Text

pub record File : Type 0 where
  pub id : ℕ
  pub owner_user_id : ℕ
  pub original_name : Text
  pub content_type : Text
  pub size_bytes : ℕ
  pub checksum_sha256 : Text
  pub data_shards : ℕ
  pub parity_shards : ℕ
  pub link_version : ℕ
  pub status : FileStatus
  pub uploaded_at : ℕ
  pub deleted_at : Option ℕ

pub record StorageNode : Type 0 where
  pub id : ℕ
  pub address : Text
  pub status : NodeStatus
  pub last_seen_at : Option ℕ
  pub created_at : ℕ

pub record Shard : Type 0 where
  pub id : ℕ
  pub file_id : ℕ
  pub shard_index : ℕ
  pub kind : ShardKind
  pub node_id : ℕ
  pub checksum_sha256 : Text
  pub size_bytes : ℕ
  pub created_at : ℕ

-- The identifier and the time of an event are not read by anything and not kept.
pub record AuditEvent : Type 0 where
  pub file_id : Option ℕ
  pub actor_user_id : Option ℕ
  pub event_type : EventType
  pub ttl_seconds : Option ℕ
  pub ip_address : Option Text

pub record Database : Type 0 where
  pub users : List User
  pub files : List File
  pub nodes : List StorageNode
  pub shards : List Shard
  pub audit_events : List AuditEvent

unfoldable pub is_available : FileStatus → Bool
is_available available = true
is_available _ = false

unfoldable pub is_healthy_status : NodeStatus → Bool
is_healthy_status healthy = true
is_healthy_status _ = false

unfoldable pub is_decommissioned : NodeStatus → Bool
is_decommissioned decommissioned = true
is_decommissioned _ = false

-- `db.get(File, id)`
unfoldable pub find_file : ℕ → Database → Option File
find_file id db = first (λ f. f.id == id) db.files

unfoldable pub find_node : ℕ → List StorageNode → Option StorageNode
find_node id nodes = first (λ n. n.id == id) nodes

-- Writes a changed row back.
unfoldable pub update_file : File → Database → Database
update_file file db = record db { files = map (λ f. if f.id == file.id then file else f) db.files }

-- `delete(File)`, with the shards by ON DELETE CASCADE and the events' file set to NULL.
unfoldable pub forget_file : ℕ → AuditEvent → AuditEvent
forget_file id event = elim event.file_id [
  | none ↦ event
  | some f ↦ if f == id then record event { file_id = none } else event
]

unfoldable pub delete_file_row : ℕ → Database → Database
unfolding forget_file
delete_file_row id db = record db {
  files = keep (λ f. f.id != id) db.files;
  shards = keep (λ s. s.file_id != id) db.shards;
  audit_events = map (forget_file id) db.audit_events;
}

unfoldable pub delete_shard_row : ℕ → Database → Database
delete_shard_row id db = record db { shards = keep (λ s. s.id != id) db.shards }

unfoldable pub join_nodes : List StorageNode → List Shard → List (Shard × StorageNode)
join_nodes nodes [] = []
join_nodes nodes (s ∷ shards) =
    let rest = join_nodes nodes shards in
    elim (find_node s.node_id nodes) [ none ↦ rest | some n ↦ (s, n) ∷ rest ]

-- The shards of a file, each with its node.
unfoldable pub placed_shards : ℕ → Database → List (Shard × StorageNode)
unfolding join_nodes
placed_shards file_id db = join_nodes db.nodes (keep (λ s. s.file_id == file_id) db.shards)
