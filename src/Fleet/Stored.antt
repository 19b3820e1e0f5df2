-- ===== src/Fleet/Stored.antt =====
-- A shard on a node, as api_service/services/node_client.py sees it.
use mathlib.Core.Path.{subst}
use secure_file_system.NodeClient
use secure_file_system.Base.Dict
use secure_file_system.Base.{
  ℕ, ◌+◌, ◌<◌, ◌≡◌, refl, sym, ap, ◌∙◌, inl, inr, false, none, some, ◌++◌, arith, ◌==◌, list_eq,
  nat_eq, Bool-cases, Option-cases, ok, not_ok, some-eq, ◌>>=◌,
}
use secure_file_system.Base.Dict.{Dict, get-put}
use secure_file_system.Base.Lists.{append_nil}
use secure_file_system.Base.Text.{Text, Bytes}
use secure_file_system.Fleet.{FleetState, answer_of, NoReadFails, deliver, node_network}
use secure_file_system.Fleet.Keeping.{KeepsShards}
use secure_file_system.Http.{Request}
use secure_file_system.Network.{Answer, Reply, response, http_error, World}
use secure_file_system.NodeClient.{replied, put_outcome, get_outcome, put_request, send}
use secure_file_system.Python.Hashlib.{Hashlib, IsHashlib}
use secure_file_system.Python.Hex.{pow16}
use secure_file_system.Python.Unicode.{Unicode, IsUnicode}
use secure_file_system.Python.Uuid.{uuid_text}
use secure_file_system.StorageNode.Router.{NodeSettings, shard_response, guarded, serve}
use secure_file_system.StorageNode.Router.Endpoints.{
  accepted-bounds, Created-of_201, answer-of_read,
}
use secure_file_system.StorageNode.Router.Guards.{token-of_guarded}
use secure_file_system.StorageNode.Router.Steps.{serve-get}
use secure_file_system.StorageNode.Storage.{Faults, Disk, write_shard}
use secure_file_system.StorageNode.Storage.Contract.{IsName}
use secure_file_system.StorageNode.Storage.Ids.{
  validate_shard_id-IsSafeName, validate_shard_id-uuid_text,
}
use secure_file_system.StorageNode.Storage.Reading.{read_shard_iff, write_shard-ok}

module _ (h : Hashlib) (u : Unicode) (settings : NodeSettings) where
  -- The node at an address holds a block under an identifier, and lets a client with the token read
  -- it.
  pub record HasShard (token address : Text) (id : ℕ) (block : Bytes) (s : FleetState)
      : Type 0 where
    pub disk : Disk
    pub reached : Dict.get address s.disks ≡ some disk
    pub whole : Dict.get (uuid_text id) disk.files ≡ some (h.sha256 block ++ block)
    pub passed : guarded u settings (some token) (uuid_text id) ≡ ok (uuid_text id)

  module _ (faults : ℕ → Faults) (suffix : ℕ → Text) (token address : Text) (id : ℕ)
      (block : Bytes) where
    abbrev pub Has : FleetState → Type 0
    Has = HasShard token address id block

    -- A request that keeps shards keeps this one, wherever it goes.
    pub deliver-keeps :
        (to : Text) (r : Request) (s : FleetState)
        → KeepsShards h u settings r
        → IsName (uuid_text id)
        → Has s
        → Has (deliver h u settings faults suffix to r s).1
    unfolding deliver
    deliver-keeps to r s keeps name has = elim (Option-cases (Dict.get to s.disks)) [
      | inl e ↦
          rw (e, deliver)
            (record {
              disk = has.disk;
              reached = has.reached;
              whole = has.whole;
              passed = has.passed;
            })
      | inr (d, e) ↦
          let d' = (serve h u settings (faults s.requests) (suffix s.requests) r d).1 in
          elim (Bool-cases (address == to)) [
            | inl same ↦
                let at : Dict.get address s.disks ≡ some d = ground (arith, same, e) in
                let it : has.disk ≡ d = some-eq _ has.reached at in
                rw (e, deliver)
                  (record {
                    disk = d';
                    reached = ground (arith, get-put address to d' s.disks, same);
                    whole =
                        keeps (faults s.requests) (suffix s.requests) d (uuid_text id)
                          (h.sha256 block ++ block) name
                          (ap (λ (k : Disk). Dict.get (uuid_text id) k.files) (sym it) ∙ has.whole);
                    passed = has.passed;
                  })
            | inr other ↦
                rw (e, deliver)
                  (record {
                    disk = has.disk;
                    reached = ground (arith, get-put address to d' s.disks, other, has.reached);
                    whole = has.whole;
                    passed = has.passed;
                  })
          ]
    ]

    -- What the client of a PUT reads as done.
    abbrev put_of : Request
    put_of = put_request (node_network h u settings faults suffix) h token id block

    stored-of_201 :
        (f : Faults) (tmp : Text) (d : Disk)
        → IsHashlib h
        → IsUnicode u
        → id < pow16 32
        → (serve h u settings f tmp put_of d).0.status ≡ 201
        → (Dict.get (uuid_text id) (serve h u settings f tmp put_of d).1.files
            ≡ some (h.sha256 block ++ block))
          × (guarded u settings (some token) (uuid_text id) ≡ ok (uuid_text id))
    unfolding put_request
    stored-of_201 f tmp d laws tables small created =
        let name = uuid_text id in
        let c = Created-of_201 h u settings f tmp put_of name d refl refl created in
        let (known, valid) = token-of_guarded u settings (some token) name c.shard_id c.passed in
        let same : c.shard_id ≡ name =
          some-eq _ valid (validate_shard_id-uuid_text u id tables small) in
        let safe = (validate_shard_id-IsSafeName u name c.shard_id valid).2 in
        let wrote =
          write_shard-ok h f tmp c.shard_id c.bytes d c.checksum (safe.not_temporary tmp) c.wrote in
        let all : c.bytes ≡ block =
          (accepted-bounds h u settings put_of c.bytes c.taken).0 ∙ append_nil block in
        let there = wrote.2 in
        (
          ap (λ (k : Disk). Dict.get name k.files) c.after
              ∙ subst
                  (λ n.
                    Dict.get n (write_shard h f tmp c.shard_id c.bytes d).1.files
                    ≡ some (h.sha256 c.bytes ++ c.bytes))
                  same there
              ∙ ap (λ b. some (h.sha256 b ++ b)) all,
          c.passed ∙ ap ok same,
        )

    deliver-of_some :
        (r : Request) (s : FleetState) (d : Disk)
        → Dict.get address s.disks ≡ some d
        → let (a, d') = serve h u settings (faults s.requests) (suffix s.requests) r d in
          deliver h u settings faults suffix address r s ≡ (
            response (answer_of a),
            record { disks = Dict.put address d' s.disks; requests = s.requests + 1 },
          )
    unfolding deliver
    deliver-of_some r s d e = rw (e, deliver) refl

    deliver-of_none :
        (r : Request) (s : FleetState)
        → Dict.get address s.disks ≡ none
        → (deliver h u settings faults suffix address r s).0 ≡ http_error
    unfolding deliver
    deliver-of_none r s e = rw (e, deliver) refl

    put-status :
        (reply : Reply) (a : Answer)
        → reply ≡ response a
        → (replied reply >>= put_outcome) ≡ ok tt
        → a.status ≡ 201
    unfolding replied put_outcome
    put-status reply a e f = ground arith

    put-not_error :
        (reply : Reply) → reply ≡ http_error → (replied reply >>= put_outcome) ≡ ok tt → ⊥
    unfolding replied
    put-not_error reply e f = not_ok (rw e at f)

    -- A PUT that the client takes as done has left the shard on the node.
    pub put_shard-Has :
        (w : World (node_network h u settings faults suffix))
        → IsHashlib h
        → IsUnicode u
        → id < pow16 32
        → let (r, w') = NodeClient.put_shard _ h token address id block w in
          r ≡ ok tt → Has w'.network
    unfolding NodeClient.put_shard NodeClient.send answer_of
    put_shard-Has w laws tables small e = elim (Option-cases (Dict.get address w.network.disks)) [
      | inl n ↦ absurd (put-not_error _ (deliver-of_none put_of w.network n) e)
      | inr (d, n) ↦
          let f = faults w.network.requests in
          let tmp = suffix w.network.requests in
          let sent = deliver-of_some put_of w.network d n in
          let (there, passed) =
            stored-of_201 f tmp d laws tables small (put-status _ _ (ap (λ p. p.0) sent) e) in
          rw sent (record {
            disk = (serve h u settings f tmp put_of d).1;
            reached = ground (
              arith,
              get-put address address (serve h u settings f tmp put_of d).1 w.network.disks,
            );
            whole = there;
            passed = passed;
          })
    ]

    abbrev get_of : Request
    get_of = NodeClient.get_request (node_network h u settings faults suffix) h token id

    read-reply :
        (f : Faults) (tmp : Text) (d : Disk)
        → IsHashlib h
        → f.at_read ≡ false
        → Dict.get (uuid_text id) d.files ≡ some (h.sha256 block ++ block)
        → guarded u settings (some token) (uuid_text id) ≡ ok (uuid_text id)
        → (serve h u settings f tmp get_of d).0 ≡ shard_response h block
    unfolding NodeClient.get_request
    read-reply f tmp d laws works there passed =
        ap (λ p. p.0)
          (serve-get h u settings f tmp get_of (uuid_text id) (uuid_text id) d refl refl passed)
        ∙ answer-of_read h u settings f tmp (uuid_text id) block d
            ((read_shard_iff h f (uuid_text id) block d laws).1 (works, there))

    get-content :
        (reply : Reply)
        → reply ≡ response (answer_of (shard_response h block))
        → (replied reply >>= get_outcome) ≡ ok block
    unfolding replied get_outcome answer_of shard_response nat_eq
    get-content reply e = rw e refl

    -- What the client reads of a shard that is on the node.
    pub get_shard-of_Has :
        (w : World (node_network h u settings faults suffix))
        → IsHashlib h
        → NoReadFails faults
        → Has w.network
        → (NodeClient.get_shard _ h token address id w).0 ≡ ok block
    unfolding NodeClient.get_shard NodeClient.send
    get_shard-of_Has w laws works has = get-content _ (
        ap (λ p. p.0) (deliver-of_some get_of w.network has.disk has.reached)
        ∙ ap (λ a. response (answer_of a))
            (read-reply (faults w.network.requests) (suffix w.network.requests) has.disk laws
              (works w.network.requests) has.whole has.passed))
