-- ===== src/Files/Uploading.antt =====
-- The uploading half of api_service/services/files.py. What the code draws is an argument: the
-- UUIDs, the sample of the nodes and the time.
pub mod Rows
pub mod Requests
pub mod Outcomes
pub mod Placing
pub mod Candidates
use secure_file_system.NodeClient
use secure_file_system.Base.{
  ℕ, suc, ◌+◌, Option, none, some, List, [], ◌∷◌, ◌++◌, map, ltb, if◌then◌else◌, Result, ok, err,
  Done, ◌>>=◌,
}
use secure_file_system.Base.Lists.{length, any}
use secure_file_system.Base.Text.{Text, Bytes}
use secure_file_system.Database.{
  uploading, available, data_kind, parity_kind, file_uploaded, User, File, StorageNode, Shard,
  Database, update_file, delete_file_row,
}
use secure_file_system.Erasure.{encode}
use secure_file_system.Erasure.Codec.{Zfec}
use secure_file_system.Files.{
  FilesError, insufficient_nodes, upload_failed, unequal_lengths, coded, sha256_hex, healthy_nodes,
  record_event, failed,
}
use secure_file_system.Http.{stored}
use secure_file_system.Network.{Network, World, commit, stage, gather}
use secure_file_system.NodeClient.{NodeFailure}
use secure_file_system.Python.Hashlib.{Hashlib}
use secure_file_system.RateLimit.{token}

pub record Draws : Type 0 where
  -- the file's identifier, and each shard's by its index
  pub file_id : ℕ
  pub shard_id : ℕ → ℕ
  -- `random.sample`
  pub sample : List StorageNode → ℕ → List StorageNode
  pub now : ℕ

pub record Upload : Type 0 where
  pub owner : User
  pub filename : Text
  pub content_type : Text
  pub bytes : Bytes
  pub k : ℕ
  pub m : ℕ
  pub ip_address : Option Text

-- What is sent for one shard.
pub record Placement : Type 0 where
  pub node : StorageNode
  pub shard : Shard
  pub block : Bytes

unfoldable pub new_file : Hashlib → Draws → Upload → File
new_file h d u = record {
  id = d.file_id;
  owner_user_id = u.owner.id;
  original_name = u.filename;
  content_type = u.content_type;
  size_bytes = length u.bytes;
  checksum_sha256 = sha256_hex h u.bytes;
  data_shards = u.k;
  parity_shards = u.m;
  link_version = 1;
  status = uploading;
  uploaded_at = d.now;
  deleted_at = none;
}

new_shard : Hashlib → Draws → ℕ → ℕ → StorageNode → Bytes → Shard
new_shard h d k index node block = record {
  id = d.shard_id index;
  file_id = d.file_id;
  shard_index = index;
  kind = if ltb index k then data_kind else parity_kind;
  node_id = node.id;
  checksum_sha256 = sha256_hex h block;
  size_bytes = length block;
  created_at = d.now;
}

-- `enumerate(zip(placement, blocks, strict=True))`, from an index on
place : Hashlib → Draws → ℕ → ℕ → List StorageNode → List Bytes → Result FilesError (List Placement)
unfolding new_shard
place h d k index [] [] = ok []
place h d k index (node ∷ nodes) (block ∷ blocks) = do
  rest ← place h d k (suc index) nodes blocks
  ok (record { node = node; shard = new_shard h d k index node block; block = block } ∷ rest)
place h d k index _ _ = err unequal_lengths

-- What stands before the first write: the file's row and the placed shards, or an error.
unfoldable pub prepared :
    Hashlib → Zfec → Draws → Upload → Database → Result FilesError (List Placement)
unfolding place
prepared h z d u db = do
  blocks ← coded (encode z u.bytes u.k u.m)
  let candidates = healthy_nodes db
  if ltb (length candidates) (u.k + u.m)
      then err insufficient_nodes
      else place h d u.k 0 (d.sample candidates (u.k + u.m)) blocks

-- `db.add(file); db.add_all(shards)`
unfoldable pub add_rows : File → List Placement → Database → Database
add_rows file placed db = record db {
  files = db.files ++ (file ∷ []);
  shards = db.shards ++ map (λ p. p.shard) placed;
}

module _ (net : Network) (h : Hashlib) (token : Text) where
  unfoldable pub put_placed : Placement → World net → Result NodeFailure Done × World net
  put_placed p w = NodeClient.put_shard net h token p.node.address p.shard.id p.block w

  unfoldable pub delete_placed : Placement → World net → Result NodeFailure Done × World net
  delete_placed p w = NodeClient.delete_shard net h token p.node.address p.shard.id w

  unfoldable pub roll_back_upload : File → List Placement → World net → World net
  unfolding delete_placed
  roll_back_upload file placed w =
      let (results, w') = gather delete_placed placed w in
      if any failed results then w' else commit (stage (delete_file_row file.id) w')

  -- From the first commit on.
  unfoldable pub store :
      File → List Placement → User → Option Text → World net → Result FilesError File × World net
  unfolding put_placed roll_back_upload
  store file placed owner ip_address w =
      let (results, w') = gather put_placed placed (commit (stage (add_rows file placed) w)) in
      let stored = record file { status = available } in
      let event = record_event file_uploaded (some file.id) (some owner.id) none ip_address in
      if any failed results
      then (err upload_failed, roll_back_upload file placed w')
      else (ok stored, commit (stage (λ db. event (update_file stored db)) w'))

  unfoldable pub upload_file :
      Zfec → Draws → Upload → World net → Result FilesError File × World net
  unfolding new_file prepared store
  upload_file z d u w = elim (prepared h z d u w.session) [
    | err e ↦ (err e, w)
    | ok placed ↦ store (new_file h d u) placed u.owner u.ip_address w
  ]
