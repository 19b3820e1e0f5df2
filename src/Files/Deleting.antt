-- ===== src/Files/Deleting.antt =====
-- The deletion of a file in api_service/services/files.py.
pub mod Revoking
use secure_file_system.NodeClient
use secure_file_system.Base.{
  ℕ, ◌+◌, Bool, true, false, not, Option, none, some, List, ◌∷◌, map, Result, Done,
}
use secure_file_system.Base.Lists.{length, keep}
use secure_file_system.Base.Text.{Text}
use secure_file_system.Database.{
  deleted, file_deleted, User, File, Shard, Database, update_file, delete_shard_row, placed_shards,
}
use secure_file_system.Files.{record_event, failed}
use secure_file_system.Files.Reading.{Placed}
use secure_file_system.Network.{Network, World, commit, stage, gather}
use secure_file_system.NodeClient.{NodeFailure}
use secure_file_system.Python.Hashlib.{Hashlib}
use secure_file_system.RateLimit.{token}

unfoldable pub delete_rows : List Shard → List Bool → Database → Database
delete_rows (s ∷ shards) (true ∷ removed) db = delete_rows shards removed (delete_shard_row s.id db)
delete_rows (s ∷ shards) (false ∷ removed) db = delete_rows shards removed db
delete_rows _ _ db = db

unfoldable pub deleted_row : ℕ → File → File
deleted_row now file = record file {
  status = deleted;
  deleted_at = some now;
  link_version = file.link_version + 1;
}

module _ (net : Network) (h : Hashlib) (token : Text) where
  unfoldable pub delete_node_shard : Placed → World net → Result NodeFailure Done × World net
  delete_node_shard (s, n) w = NodeClient.delete_shard net h token n.address s.id w

  -- Returns how many shards were removed.
  unfoldable pub remove_deleted_shards : File → World net → ℕ × World net
  unfolding delete_node_shard delete_rows
  remove_deleted_shards file w =
      let placed = placed_shards file.id w.session in
      let (results, w') = gather delete_node_shard placed w in
      let removed = map (λ r. not (failed r)) results in
      let w'' = commit (stage (delete_rows (map (λ p. p.0) placed) removed) w') in
      (length (keep (λ b. b) removed), w'')

  unfoldable pub delete_file : ℕ → File → User → Option Text → World net → World net
  unfolding deleted_row remove_deleted_shards
  delete_file now file actor ip_address w =
      let file' = deleted_row now file in
      let event = record_event file_deleted (some file.id) (some actor.id) none ip_address in
      let w' = commit (stage (λ db. event (update_file file' db)) w) in
      (remove_deleted_shards file' w').1
