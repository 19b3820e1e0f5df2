-- ===== src/Files/Deleting/Revoking.antt =====
-- What a deletion of api_service/services/files.py commits, however the nodes answer.
use secure_file_system.NodeClient
use secure_file_system.Base.{
  ℕ, ◌+◌, ◌≡◌, refl, ap, ◌∙◌, Bool, true, false, not, Option, none, some, List, [], ◌∷◌, map, arith,
  ◌==◌, list_eq, nat_eq, if◌then◌else◌,
}
use secure_file_system.Base.Lists.{first}
use secure_file_system.Base.Text.{Text}
use secure_file_system.Database.{
  deleted, file_deleted, User, File, Shard, Database, find_file, update_file, delete_shard_row,
  placed_shards,
}
use secure_file_system.Files.{record_event, failed}
use secure_file_system.Files.Deleting.{
  delete_rows, deleted_row, delete_node_shard, remove_deleted_shards, delete_file,
}
use secure_file_system.Files.Reading.{Placed}
use secure_file_system.Network.{Network, World, commit, stage, gather}
use secure_file_system.NodeClient.{send}
use secure_file_system.Python.Hashlib.{Hashlib}

first-map :
    (file : File) (files : List File) (found : File)
    → first (λ f. f.id == file.id) files ≡ some found
    → first (λ f. f.id == file.id) (map (λ f. if f.id == file.id then file else f) files)
      ≡ some file
first-map file [] found e = cc
first-map file (f ∷ files) found e = ground (arith, first-map file files found)

find_file-update_file :
    (file : File) (db : Database) (found : File)
    → find_file file.id db ≡ some found
    → find_file file.id (update_file file db) ≡ some file
unfolding find_file update_file
find_file-update_file file db found e = first-map file db.files found e

files-delete_rows :
    (shards : List Shard) (removed : List Bool) (db : Database)
    → (delete_rows shards removed db).files ≡ db.files
unfolding delete_rows delete_shard_row
files-delete_rows [] removed db = refl
files-delete_rows (s ∷ shards) [] db = refl
files-delete_rows (s ∷ shards) (true ∷ removed) db =
    files-delete_rows shards removed (delete_shard_row s.id db)
files-delete_rows (s ∷ shards) (false ∷ removed) db = files-delete_rows shards removed db

module _ (net : Network) (h : Hashlib) (token : Text) where
  session-gather :
      (placed : List Placed) (w : World net)
      → (gather (delete_node_shard net h token) placed w).1.session ≡ w.session
  unfolding gather delete_node_shard NodeClient.delete_shard NodeClient.send
  session-gather [] w = refl
  session-gather (p ∷ placed) w = session-gather placed (delete_node_shard net h token p w).1

  pub files-remove_deleted_shards :
      (file : File) (w : World net)
      → (remove_deleted_shards net h token file w).1.committed.files ≡ w.session.files
  unfolding remove_deleted_shards
  files-remove_deleted_shards file w =
      let placed = placed_shards file.id w.session in
      let (results, w') = gather (delete_node_shard net h token) placed w in
      files-delete_rows (map (λ p. p.0) placed) (map (λ r. not (failed r)) results) w'.session
      ∙ ap (λ db. db.files) (session-gather placed w)

  -- However the nodes answer, the row with the id of the file is committed as the file, deleted, and
  -- with the next link version.
  pub delete_file-revokes :
      (now : ℕ) (file found : File) (actor : User) (ip : Option Text) (w : World net)
      → find_file file.id w.session ≡ some found
      → find_file file.id (delete_file net h token now file actor ip w).committed
        ≡ some (record file {
          status = deleted;
          deleted_at = some now;
          link_version = file.link_version + 1;
        })
  unfolding delete_file deleted_row remove_deleted_shards record_event find_file
  delete_file-revokes now file found actor ip w e =
      let gone = deleted_row now file in
      let event = record_event file_deleted (some file.id) (some actor.id) none ip in
      let w' : World net = commit (stage (λ db. event (update_file gone db)) w) in
      rw (files-remove_deleted_shards gone w') (find_file-update_file gone w.session found e)
