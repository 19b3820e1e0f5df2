-- ===== src/StorageNode/Router/Guards.antt =====
-- What storage_node/router.py refuses before it touches the disk.

use secure_file_system.Base.{
  ℕ, ◌≡◌, refl, ap, ◌∙◌, ◌≢◌, inl, inr, ◌&&◌, Option, none, some, arith, if◌then◌else◌, Bool-cases,
  ok, err,
}
use secure_file_system.Base.Text.{Text}
use secure_file_system.Http.{shard_target, Request, status_only}
use secure_file_system.Python.Hashlib.{Hashlib}
use secure_file_system.Python.Hmac.{is_ascii, compare_digest}
use secure_file_system.Python.Unicode.{Unicode}
use secure_file_system.StorageNode.Router.{
  NodeSettings, Failure, http, uncaught, require_node_token, valid_shard_id, answer, guarded, serve,
}
use secure_file_system.StorageNode.Router.Steps.{serve-of_refused}
use secure_file_system.StorageNode.Storage.{Faults, Disk, validate_shard_id}

-- A shard request that passes the guards carries exactly the node's token.
pub token-of_guarded :
    (u : Unicode) (settings : NodeSettings) (t : Option Text) (raw id : Text)
    → guarded u settings t raw ≡ ok id
    → (t ≡ some settings.token) × (validate_shard_id u raw ≡ some id)
unfolding guarded require_node_token compare_digest valid_shard_id
token-of_guarded u settings none raw id e = cc
token-of_guarded u settings (some t) raw id e = ground arith

-- The status of the answer to a token that is not the node's, which the code compares by
-- `hmac.compare_digest`.
abbrev pub refusal : Text → Option Text → ℕ
refusal own none = 401
refusal own (some sent) = if is_ascii sent && is_ascii own then 401 else 500

wrong_token-refusal :
    (u : Unicode) (settings : NodeSettings) (t : Option Text) (raw : Text)
    → t ≢ some settings.token
    → (e : Failure) × (guarded u settings t raw ≡ err e)
      × (answer (err e) ≡ status_only (refusal settings.token t))
unfolding guarded require_node_token compare_digest answer
wrong_token-refusal u settings none raw wrong = (http (status_only 401), refl, refl)
wrong_token-refusal u settings (some sent) raw wrong =
    elim (Bool-cases (is_ascii sent && is_ascii settings.token)) [
      | inl e ↦ (http (status_only 401), ground (arith, e, wrong), rw e refl)
      | inr e ↦ (uncaught, ground (arith, e), rw e refl)
    ]

module _ (h : Hashlib) (u : Unicode) (settings : NodeSettings) (f : Faults) (suffix : Text) where
  -- A request to a shard that comes without the node's token changes nothing on disk and is never
  -- answered with a shard: it gets 401, except that it gets 500 where a token was sent and that
  -- token or the node's own has a character beyond ASCII.
  pub serve-unauthorized :
      (r : Request) (raw : Text) (d : Disk)
      → r.target ≡ shard_target raw
      → r.node_token ≢ some settings.token
      → let (a, d') = serve h u settings f suffix r d in
        (d' ≡ d) × (a ≡ status_only (refusal settings.token r.node_token))
  serve-unauthorized r raw d to wrong =
      let (e, refused, a) = wrong_token-refusal u settings r.node_token raw wrong in
      let same = serve-of_refused h u settings f suffix r raw d e to refused in
      (ap (λ p. p.1) same, ap (λ p. p.0) same ∙ a)
