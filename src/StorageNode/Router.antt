-- ===== src/StorageNode/Router.antt =====
-- storage_node/router.py and the `/healthz` of storage_node/main.py, over the store of
-- storage_node/storage.py.
pub mod Guards
pub mod Steps
pub mod Endpoints
-- storage_node/config.py; `shard_dir` is the disk
use secure_file_system.Base.{
  ℕ, ◌+◌, Bool, true, false, Option, none, some, List, [], ◌∷◌, ◌++◌, ltb, if◌then◌else◌, Result,
  ok, err, Done, ◌>>=◌,
}
use secure_file_system.Base.Lists.{length}
use secure_file_system.Base.Text.{Text, Bytes, codes}
use secure_file_system.Http.{
  Method, put_method, get_method, delete_method, shard_target, healthz_target, other_target,
  Request, octets, stored, Response, status_only,
}
use secure_file_system.Python.Decimal.{is_digits, int_digits}
use secure_file_system.Python.Hashlib.{Hashlib}
use secure_file_system.Python.Hex.{hex}
use secure_file_system.Python.Hmac.{compare_digest}
use secure_file_system.Python.Unicode.{Unicode}
use secure_file_system.StorageNode.Storage.{
  delete_shard, StorageError, shard_not_found, shard_exists, shard_corrupted, storage_full, Faults,
  Disk, validate_shard_id, write_shard, read_shard,
}

pub record NodeSettings : Type 0 where
  pub token : Text
  pub max_shard_bytes : ℕ

-- An `HTTPException`, or another exception, which the framework answers with 500.
pub data Failure : Type 0 where
  http : Response → Failure
  uncaught : Failure

-- `None` of an `Annotated[str, Header()]`, whose absence is a validation error
unprocessable : Failure
unprocessable = http (status_only 422)

unfoldable pub require_node_token : NodeSettings → Option Text → Result Failure Done
require_node_token settings none = err (http (status_only 401))
require_node_token settings (some x_node_token) =
    elim (compare_digest x_node_token settings.token) [
      | none ↦ err uncaught
      | some true ↦ ok tt
      | some false ↦ err (http (status_only 401))
    ]

unfoldable pub valid_shard_id : Unicode → Text → Result Failure Text
valid_shard_id u shard_id = elim (validate_shard_id u shard_id) [
  | none ↦ err (http (status_only 400))
  | some id ↦ ok id
]

-- The test of Content-Length.
declared_size : Unicode → ℕ → Option Text → Result Failure Done
declared_size u limit none = ok tt
declared_size u limit (some declared) =
    if is_digits u declared
    then elim (int_digits u declared) [
      | none ↦ err uncaught
      | some n ↦ if ltb limit n then err (http (status_only 413)) else ok tt
    ]
    else ok tt

-- The loop over `request.stream()`, with the bytes received so far.
unfoldable pub read_chunks : ℕ → ℕ → List Bytes → Result Failure Bytes
read_chunks limit received [] = ok []
read_chunks limit received (chunk ∷ chunks) =
    let received' = received + length chunk in
    let rest = read_chunks limit received' chunks in
    if ltb limit received'
    then err (http (status_only 413))
    else (do bytes ← rest; ok (chunk ++ bytes))

unfoldable pub read_body_capped : Unicode → ℕ → Option Text → List Bytes → Result Failure Bytes
unfolding declared_size read_chunks
read_body_capped u limit declared chunks = do
  _ ← declared_size u limit declared
  read_chunks limit 0 chunks

checksum_header : Option Text → Result Failure Text
unfolding unprocessable
checksum_header none = err unprocessable
checksum_header (some x_checksum_sha256) = ok x_checksum_sha256

non_empty : Bytes → Result Failure Done
non_empty [] = err (http (status_only 400))
non_empty (b ∷ bs) = ok tt

same_checksum : Option Bool → Result Failure Done
same_checksum none = err uncaught
same_checksum (some false) = err (http (status_only 400))
same_checksum (some true) = ok tt

-- What `put_shard` does before it writes.
unfoldable pub accepted : Hashlib → Unicode → NodeSettings → Request → Result Failure Bytes
unfolding checksum_header non_empty same_checksum
accepted h u settings r = do
  x_checksum_sha256 ← checksum_header r.checksum
  bytes ← read_body_capped u settings.max_shard_bytes r.content_length r.chunks
  _ ← non_empty bytes
  _ ← same_checksum (compare_digest (hex (h.sha256 bytes)) (u.lower x_checksum_sha256))
  ok bytes

put_failure : StorageError → Failure
put_failure shard_exists = http (status_only 409)
put_failure storage_full = http (status_only 507)
put_failure _ = uncaught

get_failure : StorageError → Failure
get_failure shard_not_found = http (status_only 404)
get_failure shard_corrupted =
    http (record (status_only 500) { shard_status = some (codes "corrupt") })
get_failure _ = uncaught

stored_response : Text → Bytes → Text → Response
stored_response shard_id bytes checksum = record (status_only 201) {
  body = stored shard_id checksum (length bytes);
}

unfoldable pub shard_response : Hashlib → Bytes → Response
shard_response h bytes = record (status_only 200) {
  checksum = some (hex (h.sha256 bytes));
  body = octets bytes;
}

unfoldable pub answer : Result Failure Response → Response
answer (ok r) = r
answer (err (http r)) = r
answer (err uncaught) = status_only 500

unfoldable pub put_result :
    Text → Bytes → Result StorageError Text × Disk → Result Failure Response × Disk
unfolding put_failure stored_response
put_result shard_id bytes (ok checksum, d) = (ok (stored_response shard_id bytes checksum), d)
put_result shard_id bytes (err e, d) = (err (put_failure e), d)

unfoldable pub get_result : Hashlib → Result StorageError Bytes → Result Failure Response
unfolding get_failure shard_response
get_result h (ok bytes) = ok (shard_response h bytes)
get_result h (err e) = err (get_failure e)

unfoldable pub delete_result : Result StorageError Bool × Disk → Result Failure Response × Disk
delete_result (ok true, d) = (ok (status_only 204), d)
delete_result (ok false, d) = (err (http (status_only 404)), d)
delete_result (err e, d) = (err uncaught, d)

-- The dependencies of every endpoint: the token first, then the identifier.
unfoldable pub guarded : Unicode → NodeSettings → Option Text → Text → Result Failure Text
guarded u settings node_token shard_id = do
  _ ← require_node_token settings node_token
  valid_shard_id u shard_id

module _ (h : Hashlib) (u : Unicode) (settings : NodeSettings) (f : Faults) (suffix : Text) where
  unfoldable pub put_shard : Request → Text → Disk → Result Failure Response × Disk
  unfolding put_result
  put_shard r shard_id d = elim (accepted h u settings r) [
    | err e ↦ (err e, d)
    | ok bytes ↦ put_result shard_id bytes (write_shard h f suffix shard_id bytes d)
  ]

  unfoldable pub get_shard : Text → Disk → Result Failure Response
  unfolding get_result
  get_shard shard_id d = get_result h (read_shard h f shard_id d)

  unfoldable pub delete_shard_endpoint : Text → Disk → Result Failure Response × Disk
  unfolding delete_result
  delete_shard_endpoint shard_id d = delete_result (delete_shard f shard_id d)

  -- The endpoint that the method chooses.
  unfoldable pub route : Method → Request → Text → Disk → Result Failure Response × Disk
  route put_method r shard_id d = put_shard r shard_id d
  route get_method r shard_id d = (get_shard shard_id d, d)
  route delete_method r shard_id d = delete_shard_endpoint shard_id d

  shards : Request → Text → Disk → Result Failure Response × Disk
  shards r raw_id d = elim (guarded u settings r.node_token raw_id) [
    | err e ↦ (err e, d)
    | ok shard_id ↦ route r.method r shard_id d
  ]

  healthz : Method → Response
  healthz get_method = status_only 200
  healthz _ = status_only 405

  -- One request to the node.
  unfoldable pub serve : Request → Disk → Response × Disk
  unfolding answer shards healthz
  serve r d = elim r.target [
    | shard_target raw_id ↦ let (result, d') = shards r raw_id d in (answer result, d')
    | healthz_target ↦ (healthz r.method, d)
    | other_target ↦ (status_only 404, d)
  ]
