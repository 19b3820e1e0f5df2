-- ===== src/StorageNode/Router/Endpoints.antt =====
-- What the endpoints of storage_node/router.py do with a shard.

-- The loop stops with 413 exactly if the bytes, whatever their chunks, pass the limit; else it
-- returns all of them in order.
use secure_file_system.Base.Dict
use secure_file_system.Base.{
  ℕ, ◌+◌, ◌≤◌, ◌<◌, ◌≡◌, refl, sym, ap, ◌∙◌, ◌≢◌, inl, inr, Bool, true, false, Option, none, some,
  List, [], ◌∷◌, ◌++◌, arith, list_eq, nat_eq, leb, if◌then◌else◌, Result, ok, err, Result-cases,
}
use secure_file_system.Base.Dict.{Dict}
use secure_file_system.Base.Lists.{length, concat, length-append}
use secure_file_system.Base.Text.{Text, Bytes}
use secure_file_system.Http.{put_method, get_method, shard_target, Request, octets, status_only}
use secure_file_system.Python.Hashlib.{Hashlib, IsHashlib}
use secure_file_system.Python.Hex.{hex}
use secure_file_system.Python.Hmac.{compare_digest}
use secure_file_system.Python.Unicode.{Unicode}
use secure_file_system.RateLimit.{token}
use secure_file_system.StorageNode.Router.{
  get_shard, NodeSettings, Failure, http, require_node_token, valid_shard_id, read_chunks,
  read_body_capped, accepted, shard_response, answer, put_result, guarded, serve,
}
use secure_file_system.StorageNode.Router.Guards.{token-of_guarded}
use secure_file_system.StorageNode.Router.Steps.{
  answered, serve-of_refused, put_shard-of_refused, put_shard-of_taken, serve-put, serve-get,
}
use secure_file_system.StorageNode.Storage.{StorageError, Faults, Disk, write_shard, read_shard}
use secure_file_system.StorageNode.Storage.Ids.{validate_shard_id-IsSafeName}
use secure_file_system.StorageNode.Storage.Reading.{read-of_failed, read_shard_iff, write_shard-ok}

pub read_chunks_lem :
    (limit received : ℕ) (chunks : List Bytes)
    → received ≤ limit
    → read_chunks limit received chunks ≡ (
        if leb (received + length (concat chunks)) limit
        then ok (concat chunks)
        else err (http (status_only 413)))
unfolding read_chunks
read_chunks_lem limit received [] h = ground arith
read_chunks_lem limit received (chunk ∷ chunks) h = ground (
  arith,
  length-append chunk (concat chunks),
  read_chunks_lem limit (received + length chunk) chunks,
)

read_body_capped-ok :
    (u : Unicode) (limit : ℕ) (declared : Option Text) (chunks : List Bytes) (bytes : Bytes)
    → read_body_capped u limit declared chunks ≡ ok bytes
    → (bytes ≡ concat chunks) × (length bytes ≤ limit)
unfolding read_body_capped
read_body_capped-ok u limit declared chunks bytes e = ground (arith, read_chunks_lem limit 0 chunks)

-- An accepted body is all of the bytes that were sent, is no longer than the limit whatever
-- Content-Length said, is not empty, and has the checksum that came with it.
pub accepted-bounds :
    (h : Hashlib) (u : Unicode) (settings : NodeSettings) (r : Request) (bytes : Bytes)
    → accepted h u settings r ≡ ok bytes
    → (bytes ≡ concat r.chunks)
      × (length bytes ≤ settings.max_shard_bytes)
      × (0 < length bytes)
      × ((c : Text) × (r.checksum ≡ some c) × (u.lower c ≡ hex (h.sha256 bytes)))
unfolding accepted compare_digest
accepted-bounds h u settings r bytes e =
    let body = read_body_capped-ok u settings.max_shard_bytes r.content_length r.chunks bytes in
    ground (arith, body)

module _ (h : Hashlib) (u : Unicode) (settings : NodeSettings) where
  pub guarded-ne_201 :
      (t : Option Text) (raw : Text) (e : Failure)
      → guarded u settings t raw ≡ err e
      → (answer (err e)).status ≢ 201
  unfolding guarded require_node_token valid_shard_id answer
  guarded-ne_201 t raw e x = ground arith

  accepted-ne_201 :
      (r : Request) (e : Failure) → accepted h u settings r ≡ err e → (answer (err e)).status ≢ 201
  unfolding accepted read_body_capped answer
  accepted-ne_201 r e x = ground (arith, read_chunks_lem settings.max_shard_bytes 0 r.chunks)

  put_result-ne_201 :
      (id : Text) (bytes : Bytes) (w : Result StorageError Text × Disk)
      → (answer (put_result id bytes w).0).status ≡ 201
      → (c : Text) × (w.0 ≡ ok c)
  unfolding put_result answer
  put_result-ne_201 id bytes (ok c, d) x = (c, refl)
  put_result-ne_201 id bytes (err e, d) x = ground arith

  pub put_result-disk :
      (id : Text) (bytes : Bytes) (w : Result StorageError Text × Disk)
      → (put_result id bytes w).1 ≡ w.1
  unfolding put_result
  put_result-disk id bytes (ok c, d) = refl
  put_result-disk id bytes (err e, d) = refl

  -- What a PUT that was answered with 201 has passed.
  pub record Created (f : Faults) (suffix : Text) (r : Request) (raw : Text) (d : Disk)
      : Type 0 where
    pub shard_id : Text
    pub bytes : Bytes
    pub checksum : Text
    pub passed : guarded u settings r.node_token raw ≡ ok shard_id
    pub taken : accepted h u settings r ≡ ok bytes
    pub wrote : (write_shard h f suffix shard_id bytes d).0 ≡ ok checksum
    pub after : (serve h u settings f suffix r d).1 ≡ (write_shard h f suffix shard_id bytes d).1

  pub Created-of_201 :
      (f : Faults) (suffix : Text) (r : Request) (raw : Text) (d : Disk)
      → r.method ≡ put_method
      → r.target ≡ shard_target raw
      → (serve h u settings f suffix r d).0.status ≡ 201
      → Created f suffix r raw d
  Created-of_201 f suffix r raw d method target created =
      let passing = guarded u settings r.node_token raw in
      elim (Result-cases passing) [
        | inr (e, x) ↦ absurd (
            guarded-ne_201 r.node_token raw e x (
              ap (λ p. p.0.status) (sym (serve-of_refused h u settings f suffix r raw d e target x))
              ∙ created))
        | inl (id, x) ↦
            let step = serve-put h u settings f suffix r raw id d method target x in
            elim (Result-cases (accepted h u settings r)) [
              | inr (e, y) ↦ absurd (
                  accepted-ne_201 r e y (
                    sym (
                      ap (λ p. p.0.status)
                        (step
                          ∙ ap (answered h u settings f suffix)
                              (put_shard-of_refused h u settings f suffix r id d e y)))
                    ∙ created))
              | inl (bytes, y) ↦
                  let full =
                    step
                    ∙ ap (answered h u settings f suffix)
                        (put_shard-of_taken h u settings f suffix r id d bytes y) in
                  let w = write_shard h f suffix id bytes d in
                  let (c, z) =
                    put_result-ne_201 id bytes w (sym (ap (λ p. p.0.status) full) ∙ created) in
                  record {
                    shard_id = id;
                    bytes = bytes;
                    checksum = c;
                    passed = x;
                    taken = y;
                    wrote = z;
                    after = ap (λ p. p.1) full ∙ put_result-disk id bytes w;
                  }
            ]
      ]

  pub answer-of_read :
      (g : Faults) (other id : Text) (bytes : Bytes) (d : Disk)
      → read_shard h g id d ≡ ok bytes
      → answer (get_shard h u settings g other id d) ≡ shard_response h bytes
  unfolding get_shard answer
  answer-of_read g other id bytes d e = rw (e, get_shard)

  answer-of_failed :
      (g : Faults) (other id : Text) (d : Disk)
      → g.at_read ≡ true
      → answer (get_shard h u settings g other id d) ≡ status_only 500
  unfolding get_shard answer
  answer-of_failed g other id d e = rw (read-of_failed h g id d e, get_shard) refl

  answer-of_whole :
      (g : Faults) (failing : Bool) (other id : Text) (bytes : Bytes) (d : Disk)
      → IsHashlib h
      → g.at_read ≡ failing
      → Dict.get id d.files ≡ some (h.sha256 bytes ++ bytes)
      → answer (get_shard h u settings g other id d)
        ≡ (if failing then status_only 500 else shard_response h bytes)
  answer-of_whole g true other id bytes d laws e there = answer-of_failed g other id d e
  answer-of_whole g false other id bytes d laws e there =
      answer-of_read g other id bytes d ((read_shard_iff h g id bytes d laws).1 (e, there))

  -- The request that reads a shard, with the node's token.
  abbrev pub get_request : Text → Request
  get_request raw = record {
    method = get_method;
    target = shard_target raw;
    node_token = some settings.token;
    checksum = none;
    content_length = none;
    chunks = [];
  }

  -- After a PUT that was answered with 201, whatever faults came with it, a GET with the node's token
  -- is answered with 200, all of the bytes that were sent, and their checksum; only if the operating
  -- system fails to read the file is it answered with 500.
  pub serve-get_after_put :
      (f g : Faults) (suffix other : Text) (r : Request) (raw : Text) (d : Disk)
      → IsHashlib h
      → r.method ≡ put_method
      → r.target ≡ shard_target raw
      → (serve h u settings f suffix r d).0.status ≡ 201
      → (serve h u settings g other (get_request raw) (serve h u settings f suffix r d).1).0 ≡ (
          if g.at_read then status_only 500 else record (status_only 200) {
            checksum = some (hex (h.sha256 (concat r.chunks)));
            body = octets (concat r.chunks);
          })
  unfolding shard_response
  serve-get_after_put f g suffix other r raw d laws method target created =
      let c = Created-of_201 f suffix r raw d method target created in
      let (token, valid) = token-of_guarded u settings r.node_token raw c.shard_id c.passed in
      let safe = (validate_shard_id-IsSafeName u raw c.shard_id valid).2 in
      let wrote =
        write_shard-ok h f suffix c.shard_id c.bytes d c.checksum (safe.not_temporary suffix)
          c.wrote in
      let same = (accepted-bounds h u settings r c.bytes c.taken).0 in
      let d' = (write_shard h f suffix c.shard_id c.bytes d).1 in
      ap (λ s. (serve h u settings g other (get_request raw) s).0) c.after
      ∙ ap (λ p. p.0)
          (serve-get h u settings g other (get_request raw) raw c.shard_id d' refl refl
            (ap (λ t. guarded u settings t raw) (sym token) ∙ c.passed))
      ∙ answer-of_whole g g.at_read other c.shard_id c.bytes d' laws refl wrote.2
      ∙ ap (λ b. if g.at_read then status_only 500 else shard_response h b) same
