-- ===== src/Schema.antt =====
-- The constraints of migrations/versions/7d5619c519c1_initial_schema.py, and of the models in
-- api_service/db/models.py: what the database checks of the rows. That a status, a kind or an event
-- type is one of those listed holds by the type of the column.
pub mod Tables
pub mod Rows
pub mod Added
pub mod Requests
pub mod Uploading
pub mod Deleting
pub mod Removing
use secure_file_system.Base.{
  ℕ, ◌≡◌, Bool, true, ◌&&◌, Option, none, some, List, map, contains, list_eq, nat_eq, ltb, leb,
}
use secure_file_system.Base.Lists.{length, All, IsDistinct}
use secure_file_system.Database.{User, File, StorageNode, Shard, AuditEvent, Database}
use secure_file_system.Network.{Network, World}

unfoldable pub refers : List ℕ → Option ℕ → Bool
refers ids none = true
refers ids (some id) = contains ids id

-- Primary key, email and api_key_hash.
pub record UsersTable (users : List User) : Type 0 where
  pub keys : IsDistinct (map (λ u. u.id) users)
  pub emails : IsDistinct (map (λ u. u.email) users)
  pub api_key_hashes : IsDistinct (map (λ u. u.api_key_hash) users)

pub record NodesTable (nodes : List StorageNode) : Type 0 where
  pub keys : IsDistinct (map (λ n. n.id) nodes)
  pub addresses : IsDistinct (map (λ n. n.address) nodes)

-- ck_files_shard_counts, ck_files_size_positive
unfoldable pub file_checks : File → Bool
file_checks f = leb 1 f.data_shards && (leb 1 f.parity_shards && ltb 0 f.size_bytes)

-- SMALLINT, INTEGER and BIGINT hold what is less than these, and VARCHAR(64) a text up to its length.
abbrev pub small_integer : ℕ
small_integer = 32768

abbrev pub integer : ℕ
integer = 2147483648

abbrev pub big_integer : ℕ
big_integer = 9223372036854775808

abbrev pub checksum_length : ℕ
checksum_length = 64

unfoldable pub file_fits : File → Bool
file_fits f =
    (ltb f.size_bytes big_integer && leb (length f.checksum_sha256) checksum_length)
    && ((ltb f.data_shards small_integer && ltb f.parity_shards small_integer)
        && ltb f.link_version integer)

unfoldable pub shard_fits : Shard → Bool
shard_fits s =
    (ltb s.shard_index small_integer && leb (length s.checksum_sha256) checksum_length)
    && ltb s.size_bytes big_integer

pub record FilesTable (users : List User) (files : List File) : Type 0 where
  pub keys : IsDistinct (map (λ f. f.id) files)
  pub checks : All (λ f. file_checks f ≡ true) files
  pub fits : All (λ f. file_fits f ≡ true) files
  pub owners : All (λ f. contains (map (λ u. u.id) users) f.owner_user_id ≡ true) files

-- The primary key, uq_shards_file_index and the foreign keys.
pub record ShardsTable (nodes : List StorageNode) (files : List File) (shards : List Shard)
    : Type 0 where
  pub keys : IsDistinct (map (λ s. s.id) shards)
  pub file_index : IsDistinct {A = ℕ × ℕ} (map (λ s. (s.file_id, s.shard_index)) shards)
  pub fits : All (λ s. shard_fits s ≡ true) shards
  pub of_file : All (λ s. contains (map (λ f. f.id) files) s.file_id ≡ true) shards
  pub on_node : All (λ s. contains (map (λ n. n.id) nodes) s.node_id ≡ true) shards

pub record AuditTable (users : List User) (files : List File) (events : List AuditEvent)
    : Type 0 where
  pub of_file : All (λ e. refers (map (λ f. f.id) files) e.file_id ≡ true) events
  pub by_user : All (λ e. refers (map (λ u. u.id) users) e.actor_user_id ≡ true) events

pub record IsConsistent (db : Database) : Type 0 where
  pub users : UsersTable db.users
  pub nodes : NodesTable db.nodes
  pub files : FilesTable db.users db.files
  pub shards : ShardsTable db.nodes db.files db.shards
  pub audit_events : AuditTable db.users db.files db.audit_events

-- The rows meet the constraints in the open session, in what is committed, and in what was committed
-- whenever a request was sent to a node.
pub record AreConsistent {net : Network} (w : World net) : Type 0 where
  pub committed : IsConsistent w.committed
  pub session : IsConsistent w.session
  pub sent : All (λ r. IsConsistent r.committed) w.sent
