-- ===== src/Schema/Removing.antt =====
-- What api_service/routers/files.py and api_service/services/maintenance.py remove, and the
-- constraints of the tables.

use secure_file_system.Api.Files.{delete_endpoint}
use secure_file_system.Base.{
  ℕ, ◌+◌, ◌-◌, ◌<◌, ◌≡◌, true, Option, List, [], ◌∷◌, map, contains, list_eq, nat_eq,
}
use secure_file_system.Base.Lists.{any, All, All-always}
use secure_file_system.Base.Text.{Text}
use secure_file_system.Database.{User, File, placed_shards}
use secure_file_system.Erasure.Codec.{Zfec}
use secure_file_system.Files.{failed}
use secure_file_system.Files.Deleting.{delete_node_shard, remove_deleted_shards}
use secure_file_system.Maintenance.{MaintenanceSettings, open_session}
use secure_file_system.Maintenance.Collection.{
  stale_uploads, pending_deletions, collect_stale, collect_each, gc_stale_uploads, remove_each,
  gc_deleted_files,
}
use secure_file_system.Network.{Network, World, gather, gather-preserves}
use secure_file_system.Python.Hashlib.{Hashlib}
use secure_file_system.Schema.{integer, AreConsistent}
use secure_file_system.Schema.Deleting.{
  delete_node_shard-AreConsistent, remove_deleted_shards-AreConsistent,
  delete_endpoint-AreConsistent,
}
use secure_file_system.Schema.Requests.{removed_if-AreConsistent}

module _ (net : Network) (h : Hashlib) (token : Text) where
  open_session-AreConsistent : (w : World net) → AreConsistent w → AreConsistent (open_session w)
  unfolding open_session
  open_session-AreConsistent w i = record {
    committed = i.committed;
    session = i.committed;
    sent = i.sent;
  }

  collect_stale-AreConsistent :
      (file : File) (w : World net)
      → AreConsistent w
      → AreConsistent (collect_stale net h token file w)
  unfolding collect_stale
  collect_stale-AreConsistent file w i =
      let placed = placed_shards file.id w.session in
      let after = gather (delete_node_shard net h token) placed w in
      let j =
        gather-preserves AreConsistent (delete_node_shard net h token) placed
          (All-always placed (delete_node_shard-AreConsistent net h token)) w i in
      removed_if-AreConsistent net h token (any failed after.0) file.id after.1 j

  collect_each-AreConsistent :
      (stale : List File) (w : World net)
      → AreConsistent w
      → AreConsistent (collect_each net h token stale w)
  unfolding collect_each
  collect_each-AreConsistent [] w i = i
  collect_each-AreConsistent (file ∷ stale) w i =
      collect_each-AreConsistent stale (collect_stale net h token file w)
        (collect_stale-AreConsistent file w i)

  remove_each-AreConsistent :
      (pending : List File) (w : World net)
      → AreConsistent w
      → AreConsistent (remove_each net h token pending w)
  unfolding remove_each
  remove_each-AreConsistent [] w i = i
  remove_each-AreConsistent (file ∷ pending) w i =
      remove_each-AreConsistent pending (remove_deleted_shards net h token file w).1
        (remove_deleted_shards-AreConsistent net h token file w i)

  -- What removes rows violates no constraint, however the nodes answer: if the rows meet the
  -- constraints of the schema before the endpoint that deletes a file, for a user who has a row
  -- and while no link version is at the end of its column, or
  -- before one of the two garbage collections, they do so in each state that it commits and in its
  -- session.
  pub removals-AreConsistent :
      (z : Zfec) (ip : Option Text) (user : User) (now file_id : ℕ) (settings : MaintenanceSettings)
      (w : World net)
      → AreConsistent w
      → contains (map (λ u. u.id) w.session.users) user.id ≡ true
      → All (λ f. f.link_version + 1 < integer) w.session.files
      → AreConsistent (delete_endpoint net h token z ip user now file_id w).1
        × AreConsistent (gc_stale_uploads net h token settings now w)
        × AreConsistent (gc_deleted_files net h token w)
  unfolding gc_stale_uploads gc_deleted_files
  removals-AreConsistent z ip user now file_id settings w i by versions =
      let start = open_session-AreConsistent w i in
      (
        delete_endpoint-AreConsistent net h token z ip user now file_id w i by versions,
        collect_each-AreConsistent
            (stale_uploads (now - settings.stale_upload_seconds) (open_session w).session)
            (open_session w) start,
        remove_each-AreConsistent (pending_deletions (open_session w).session) (open_session w)
            start,
      )
