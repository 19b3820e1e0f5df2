-- ===== src/Maintenance/Collection.antt =====
-- The two garbage collections of api_service/services/maintenance.py.

use secure_file_system.Base.{
  ℕ, ◌-◌, Bool, true, false, ◌&&◌, List, [], ◌∷◌, ◌==◌, list_eq, nat_eq, ltb, if◌then◌else◌,
}
use secure_file_system.Base.Lists.{any, keep}
use secure_file_system.Base.Text.{Text}
use secure_file_system.Database.{
  FileStatus, uploading, deleted, File, Database, delete_file_row, placed_shards,
}
use secure_file_system.Files.{failed}
use secure_file_system.Files.Deleting.{delete_node_shard, remove_deleted_shards}
use secure_file_system.Maintenance.{MaintenanceSettings, open_session}
use secure_file_system.Network.{Network, World, commit, stage, gather}
use secure_file_system.Python.Hashlib.{Hashlib}

unfoldable pub is_uploading : FileStatus → Bool
is_uploading uploading = true
is_uploading _ = false

is_deleted : FileStatus → Bool
is_deleted deleted = true
is_deleted _ = false

-- Uploads that were begun before the cutoff and have not ended.
unfoldable pub stale_uploads : ℕ → Database → List File
unfolding is_uploading
stale_uploads cutoff db = keep (λ f. is_uploading f.status && ltb f.uploaded_at cutoff) db.files

-- Deleted files that have shards left.
unfoldable pub pending_deletions : Database → List File
unfolding is_deleted
pending_deletions db =
    keep (λ f. is_deleted f.status && any (λ s. s.file_id == f.id) db.shards) db.files

module _ (net : Network) (h : Hashlib) (token : Text) where
  -- One stale upload: its row goes only if every shard could be deleted.
  unfoldable pub collect_stale : File → World net → World net
  collect_stale file w =
      let placed = placed_shards file.id w.session in
      let (results, w') = gather (delete_node_shard net h token) placed w in
      if any failed results then w' else commit (stage (delete_file_row file.id) w')

  unfoldable pub collect_each : List File → World net → World net
  unfolding collect_stale
  collect_each [] w = w
  collect_each (file ∷ stale) w = collect_each stale (collect_stale file w)

  unfoldable pub gc_stale_uploads : MaintenanceSettings → ℕ → World net → World net
  unfolding collect_each open_session
  gc_stale_uploads settings now w =
      let w0 = open_session w in
      collect_each (stale_uploads (now - settings.stale_upload_seconds) w0.session) w0

  unfoldable pub remove_each : List File → World net → World net
  remove_each [] w = w
  remove_each (file ∷ pending) w = remove_each pending (remove_deleted_shards net h token file w).1

  unfoldable pub gc_deleted_files : World net → World net
  unfolding remove_each open_session
  gc_deleted_files w = let w0 = open_session w in remove_each (pending_deletions w0.session) w0
