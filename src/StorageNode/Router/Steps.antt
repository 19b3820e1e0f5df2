-- ===== src/StorageNode/Router/Steps.antt =====
-- How a request to storage_node/router.py goes through the guards to an endpoint, by equations.

use secure_file_system.Base.{◌≡◌, ◌∙◌, arith, Result, ok, err}
use secure_file_system.Base.Text.{Text, Bytes}
use secure_file_system.Http.{put_method, get_method, shard_target, Request, Response}
use secure_file_system.Python.Hashlib.{Hashlib}
use secure_file_system.Python.Unicode.{Unicode}
use secure_file_system.StorageNode.Router.{
  NodeSettings, Failure, accepted, answer, put_result, guarded, put_shard, get_shard, route, serve,
}
use secure_file_system.StorageNode.Storage.{Faults, Disk, write_shard}

module _ (h : Hashlib) (u : Unicode) (settings : NodeSettings) (f : Faults) (suffix : Text) where
  abbrev pub answered : Result Failure Response × Disk → Response × Disk
  answered (x, d) = (answer x, d)

  pub serve-of_refused :
      (r : Request) (raw : Text) (d : Disk) (e : Failure)
      → r.target ≡ shard_target raw
      → guarded u settings r.node_token raw ≡ err e
      → serve h u settings f suffix r d ≡ (answer (err e), d)
  unfolding serve
  serve-of_refused r raw d e to x = ground arith

  pub serve-of_passed :
      (r : Request) (raw id : Text) (d : Disk)
      → r.target ≡ shard_target raw
      → guarded u settings r.node_token raw ≡ ok id
      → serve h u settings f suffix r d ≡ answered (route h u settings f suffix r.method r id d)
  unfolding serve
  serve-of_passed r raw id d to x = ground arith

  pub put_shard-of_refused :
      (r : Request) (id : Text) (d : Disk) (e : Failure)
      → accepted h u settings r ≡ err e
      → put_shard h u settings f suffix r id d ≡ (err e, d)
  unfolding put_shard
  put_shard-of_refused r id d e x = rw (x, put_shard)

  pub put_shard-of_taken :
      (r : Request) (id : Text) (d : Disk) (bytes : Bytes)
      → accepted h u settings r ≡ ok bytes
      → put_shard h u settings f suffix r id d
        ≡ put_result id bytes (write_shard h f suffix id bytes d)
  unfolding put_shard
  put_shard-of_taken r id d bytes x = rw (x, put_shard)

  -- A PUT, once the guards are passed.
  pub serve-put :
      (r : Request) (raw id : Text) (d : Disk)
      → r.method ≡ put_method
      → r.target ≡ shard_target raw
      → guarded u settings r.node_token raw ≡ ok id
      → serve h u settings f suffix r d ≡ answered (put_shard h u settings f suffix r id d)
  unfolding route
  serve-put r raw id d m to x = serve-of_passed r raw id d to x ∙ ground arith

  pub serve-get :
      (r : Request) (raw id : Text) (d : Disk)
      → r.method ≡ get_method
      → r.target ≡ shard_target raw
      → guarded u settings r.node_token raw ≡ ok id
      → serve h u settings f suffix r d ≡ (answer (get_shard h u settings f suffix id d), d)
  unfolding route
  serve-get r raw id d m to x = serve-of_passed r raw id d to x ∙ ground arith
