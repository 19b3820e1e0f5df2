-- ===== src/StorageNode/Storage/Deleting.antt =====
-- What `delete_shard` of storage_node/storage.py removes.
use secure_file_system.Base.Dict
use secure_file_system.Base.{
  ◌≡◌, ◌↔◌, ◌⊎◌, true, false, not, ◌&&◌, none, arith, ◌==◌, list_eq, nat_eq, if◌then◌else◌, ok, err,
}
use secure_file_system.Base.Dict.{Dict, get-remove}
use secure_file_system.Base.Text.{Text}
use secure_file_system.StorageNode.Storage.{delete_shard, os_error, Faults, Disk}

-- A delete says whether the id was there, removes it, and leaves every other name alone; with a
-- failing `unlink` it raises and removes nothing, and with a failing `fsync` it raises although the
-- file is gone.
pub delete_shard-removes :
    (f : Faults) (shard_id : Text) (d : Disk) (j : Text)
    → let (r, d') = delete_shard f shard_id d in
      (Dict.get j d'.files
        ≡ (if not f.at_unlink && (j == shard_id) then none else Dict.get j d.files))
      × ((r ≡ ok false) ↔ ((f.at_unlink ≡ false) × (Dict.get shard_id d.files ≡ none)))
      × ((r ≡ err os_error) → (f.at_unlink ≡ true) ⊎ (f.at_sync ≡ true))
unfolding delete_shard
delete_shard-removes f shard_id d j = ground (arith, get-remove j shard_id d.files)
