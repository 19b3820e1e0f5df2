-- ===== src/Fleet/Keeping.antt =====
-- The requests of api_service/services/node_client.py that keep the shards of the storage node they
-- are handed to.
use secure_file_system.Base.Dict
use secure_file_system.Base.{◌≡◌, ap, ◌∙◌, inl, inr, some, list_eq, nat_eq, Result-cases}
use secure_file_system.Base.Dict.{Dict}
use secure_file_system.Base.Text.{Text, Bytes}
use secure_file_system.Http.{put_method, get_method, shard_target, Request, Response}
use secure_file_system.Python.Hashlib.{Hashlib}
use secure_file_system.Python.Unicode.{Unicode}
use secure_file_system.StorageNode.Router.{NodeSettings, accepted, guarded, serve}
use secure_file_system.StorageNode.Router.Endpoints.{put_result-disk}
use secure_file_system.StorageNode.Router.Steps.{
  answered, serve-of_refused, put_shard-of_refused, put_shard-of_taken, serve-put, serve-get,
}
use secure_file_system.StorageNode.Storage.{Faults, Disk, write_shard}
use secure_file_system.StorageNode.Storage.Atomic.{write_shard-keeps}
use secure_file_system.StorageNode.Storage.Contract.{IsName}

module _ (h : Hashlib) (u : Unicode) (settings : NodeSettings) where
  -- What holds for every name under which a request finds a shard.
  abbrev pub KeepsShards : Request → Type 0
  KeepsShards r =
      (f : Faults) (suffix : Text) (d : Disk) (j : Text) (old : Bytes)
      → IsName j
      → Dict.get j d.files ≡ some old
      → Dict.get j (serve h u settings f suffix r d).1.files ≡ some old

  pub put-KeepsShards :
      (r : Request) (raw : Text)
      → r.method ≡ put_method
      → r.target ≡ shard_target raw
      → KeepsShards r
  put-KeepsShards r raw method target f suffix d j old name there =
      let files = λ (p : Response × Disk). Dict.get j p.1.files in
      elim (Result-cases (guarded u settings r.node_token raw)) [
        | inr (e, x) ↦ ap files (serve-of_refused h u settings f suffix r raw d e target x) ∙ there
        | inl (id, x) ↦
            let step = ap files (serve-put h u settings f suffix r raw id d method target x) in
            elim (Result-cases (accepted h u settings r)) [
              | inr (e, y) ↦
                  step
                  ∙ ap (λ q. files (answered h u settings f suffix q))
                      (put_shard-of_refused h u settings f suffix r id d e y)
                  ∙ there
              | inl (bytes, y) ↦
                  step
                  ∙ ap (λ q. files (answered h u settings f suffix q))
                      (put_shard-of_taken h u settings f suffix r id d bytes y)
                  ∙ ap (λ (w : Disk). Dict.get j w.files)
                      (put_result-disk h u settings id bytes (write_shard h f suffix id bytes d))
                  ∙ write_shard-keeps h f suffix id bytes d j old (name suffix) there
            ]
      ]

  pub get-KeepsShards :
      (r : Request) (raw : Text)
      → r.method ≡ get_method
      → r.target ≡ shard_target raw
      → KeepsShards r
  get-KeepsShards r raw method target f suffix d j old name there =
      let files = λ (p : Response × Disk). Dict.get j p.1.files in
      elim (Result-cases (guarded u settings r.node_token raw)) [
        | inr (e, x) ↦ ap files (serve-of_refused h u settings f suffix r raw d e target x) ∙ there
        | inl (id, x) ↦
            ap files (serve-get h u settings f suffix r raw id d method target x) ∙ there
      ]
