-- ===== src/Fleet/Download.antt =====
-- `upload_file` of api_service/services/files.py, `create_link` of api_service/routers/files.py and
-- `download_file` of api_service/routers/download.py, one after the other, on a fleet of nodes that
-- run storage_node.

use secure_file_system.Base.Dict
use mathlib.Core.Path.{subst}
use secure_file_system.Api.{Service, HttpStatus}
use secure_file_system.Api.Download.{limiter_key, download_file}
use secure_file_system.Api.Download.Sending.{download_file-sends}
use secure_file_system.Api.Files.{ApiSettings, create_link}
use secure_file_system.Api.Files.Links.{create_link-verify, create_link-keeps}
use secure_file_system.Base.{
  ℕ, ◌+◌, ◌≤◌, ◌<◌, ◌≡◌, refl, sym, ap, ◌∙◌, true, false, Option, some, List, [], ◌∷◌, ◌++◌, map,
  arith, ◌==◌, list_eq, nat_eq, leb, Result, ok, ok-eq,
}
use secure_file_system.Base.Dict.{Dict}
use secure_file_system.Base.Lists.{All, All-append, IsDistinct}
use secure_file_system.Base.Text.{Text}
use secure_file_system.Database.{available, File, Database, is_available, find_file}
use secure_file_system.Erasure.Codec.{Zfec, IsZfec}
use secure_file_system.Files.{FilesError}
use secure_file_system.Files.Reading.{read_file}
use secure_file_system.Files.Uploading.{Draws, Upload, Placement, new_file, upload_file}
use secure_file_system.Files.Uploading.Outcomes.{IsFresh, Outcome, upload_file-Outcome}
use secure_file_system.Fleet.{NoReadFails, node_network}
use secure_file_system.Fleet.LastRow.{owned_file-last, find_file-last}
use secure_file_system.Fleet.Puts.{AllPlaced}
use secure_file_system.Fleet.RoundTrip.{
  IsStored, placed-read, IsUploaded, IsFair, upload_file-IsUploaded,
}
use secure_file_system.Maintenance.{open_session}
use secure_file_system.Network.{Network, World}
use secure_file_system.Python.Decimal.{pow10}
use secure_file_system.Python.Hashlib.{Hashlib, IsHashlib}
use secure_file_system.Python.Hex.{pow16}
use secure_file_system.Python.Unicode.{Unicode, IsUnicode}
use secure_file_system.RateLimit.{allow}
use secure_file_system.Signing.{Link, verify}
use secure_file_system.StorageNode.Router.{NodeSettings, answer}
use secure_file_system.StorageNode.Storage.{Faults}

-- Before an upload: its identifier fits in 128 bits and is new, the nodes have distinct identifiers,
-- and the versions of the links have at most twelve digits.
pub record IsReady (d : Draws) (db : Database) : Type 0 where
  pub small : d.file_id < pow16 32
  pub new : IsFresh d.file_id db.files
  pub unnamed : All (λ s. (s.file_id == d.file_id) ≡ false) db.shards
  pub nodes : IsDistinct (map (λ n. n.id) db.nodes)
  pub versions : All (λ f. f.link_version < pow10 12) db.files

module _ (h : Hashlib) (u : Unicode) (settings : NodeSettings) (faults : ℕ → Faults)
    (suffix : ℕ → Text) (token : Text) where
  abbrev Fleet : Network
  Fleet = node_network h u settings faults suffix

  -- The same rows and the same nodes, later on.
  IsStored-later :
      (file kept : File) (placed : List Placement) (db : Database) (w w2 : World Fleet)
      → IsStored h u settings faults suffix token file placed db kept w
      → w2.network ≡ w.network
      → w2.committed.shards ≡ w.session.shards
      → w2.committed.nodes ≡ w.session.nodes
      → IsStored h u settings faults suffix token file placed db kept (open_session w2)
  unfolding open_session
  IsStored-later file kept placed db w w2 i network shards nodes = record {
    row = i.row;
    blocks = subst (AllPlaced h u settings faults suffix token placed) (sym network) i.blocks;
    shards = shards ∙ i.shards;
    nodes = nodes ∙ i.nodes;
    committed = refl;
  }

  module _ (z : Zfec) (d : Draws) (v : Upload) (w : World Fleet) (file : File) (api : ApiSettings)
      (ttl now expires : ℕ) (link : Link) where
    -- The upload, and a link that the owner asks for in a later request.
    abbrev uploaded : Result FilesError File × World Fleet
    uploaded = upload_file Fleet h token z d v w

    abbrev linked : Result HttpStatus (Link × ℕ) × World Fleet
    linked =
        create_link Fleet h token z v.ip_address v.owner api file.id ttl now
          (open_session uploaded.1)

    abbrev Uploaded : Type 0
    Uploaded = IsUploaded h u settings faults suffix token z d v w.session file uploaded.1

    files-of_uploaded :
        w.committed ≡ w.session
        → IsFresh d.file_id w.session.files
        → uploaded.0 ≡ ok file
        → (file.status ≡ available) × (uploaded.1.committed.files ≡ w.session.files ++ (file ∷ []))
    unfolding Outcome
    files-of_uploaded same fresh e =
        let o : Outcome d v w.session (ok file, uploaded.1) =
          subst (λ r. Outcome d v w.session (r, uploaded.1)) e
            (upload_file-Outcome Fleet h token z d v w same fresh) in
        (o.0, o.1.0)

    IsFresh-uploaded : Uploaded → IsReady d w.session → IsFresh file.id w.session.files
    unfolding new_file
    IsFresh-uploaded i ready =
        subst (λ n. IsFresh n w.session.files) (sym (ap (λ (g : File). g.id) i.kept.row)) ready.new

    -- The row is found, and read, in the session of the request after.
    found_and_read :
        Uploaded
        → IsHashlib h
        → NoReadFails faults
        → IsZfec z v.k (v.k + v.m)
        → v.k + v.m ≤ 256
        → IsReady d w.session
        → uploaded.1.committed.files ≡ w.session.files ++ (file ∷ [])
        → linked.0 ≡ ok (link, expires)
        → (find_file file.id linked.1.committed ≡ some file)
          × ((read_file Fleet h token z file (open_session linked.1)).0 ≡ ok v.bytes)
    unfolding open_session
    found_and_read i laws works code bound ready files f =
        let (network, rows, shards, nodes) =
          create_link-keeps Fleet h token z v.ip_address v.owner api file.id ttl now
            (open_session uploaded.1) link expires f in
        (
          find_file-last file w.session.files linked.1.committed (rows ∙ files)
              (IsFresh-uploaded i ready),
          placed-read h u settings faults suffix token z d v w.session i.placed file
              (open_session linked.1) laws works code i.some_block bound ready.unnamed i.placements
              (IsStored-later (new_file h d v) file i.placed w.session uploaded.1 linked.1 i.kept
                network (shards ∙ ap (λ (db : Database). db.shards) i.kept.committed)
                (nodes ∙ ap (λ (db : Database). db.nodes) i.kept.committed)),
        )

    -- What `verify` makes of the link before it expires.
    verify-linked :
        (keys : Dict Text Text) (later : ℕ)
        → Uploaded
        → IsUnicode u
        → IsReady d w.session
        → Dict.get api.secret_key_id keys ≡ some api.secret_key
        → now + api.max_ttl_seconds < pow10 12
        → later < expires
        → file.status ≡ available
        → uploaded.1.committed.files ≡ w.session.files ++ (file ∷ [])
        → linked.0 ≡ ok (link, expires)
        → verify h u keys link later
          ≡ ok (record {
            file_id = file.id;
            expires = expires;
            link_version = file.link_version;
            kid = api.secret_key_id;
          })
    unfolding new_file is_available open_session
    verify-linked keys later i tables ready known is_time early status files f =
        let id : file.id ≡ d.file_id = ap (λ (g : File). g.id) i.kept.row in
        let version : file.link_version ≡ 1 = ap (λ (g : File). g.link_version) i.kept.row in
        let versions : All (λ f. f.link_version < pow10 12) uploaded.1.committed.files =
          subst (All (λ f. f.link_version < pow10 12)) (sym files) (
            All-append (λ f. f.link_version < pow10 12) w.session.files (file ∷ []) ready.versions
              (omega (arith, version), tt)) in
        let (g, owned, short, verified) =
          create_link-verify Fleet h token z v.ip_address v.owner u keys api file.id ttl now
            (open_session uploaded.1) link expires later tables known
            (omega (arith, id, ready.small)) is_time versions f in
        let mine : g ≡ file = ok-eq _ owned (
          owned_file-last v.owner file w.session.files uploaded.1.committed files
            (IsFresh-uploaded i ready) (ap (λ (g : File). g.owner_user_id) i.kept.row)
            (rw status refl)) in
        let on_time : leb expires later ≡ false = ground (arith, early) in
        rw on_time at verified
        ∙ ap
            (λ (g : File). ok (record {
              file_id = file.id;
              expires = expires;
              link_version = g.link_version;
              kid = api.secret_key_id;
            }))
            mine

    -- On a fleet of nodes that run storage_node with the same settings, whatever faults their writes
    -- meet and with no fault of their reads: when the upload of a file has returned, and then a link to the file was issued to its
    -- owner, a download with that link before it expires, with a free slot and a token of the
    -- limiter, is answered with the bytes and the name that were uploaded. It asks for the laws of
    -- the libraries, for at most 256 blocks, for fair draws and a database that is ready for them
    -- (IsFair, IsReady), for a session that is as committed, for a key ring that has the signing
    -- key, and for times of at most twelve digits.
    pub download_file-of_uploaded :
        (keys : Dict Text Text) (ip : Option Text) (max_keys clock later : ℕ) (s : Service Fleet)
        → IsHashlib h
        → NoReadFails faults
        → IsUnicode u
        → IsFair h u settings faults suffix token d
        → IsZfec z v.k (v.k + v.m)
        → v.k + v.m ≤ 256
        → IsReady d w.session
        → w.committed ≡ w.session
        → Dict.get api.secret_key_id keys ≡ some api.secret_key
        → now + api.max_ttl_seconds < pow10 12
        → 0 < s.free_slots
        → (allow max_keys (limiter_key ip) clock s.download_limiter).0 ≡ true
        → later < expires
        → (upload_file Fleet h token z d v w).0 ≡ ok file
        → let w1 = (upload_file Fleet h token z d v w).1 in
          let (answer, w2) =
            create_link Fleet h token z v.ip_address v.owner api file.id ttl now
              (open_session w1) in
          answer ≡ ok (link, expires)
          → (download_file Fleet h token z u ip max_keys keys link clock later
              (record s { world = w2 })).0
            ≡ ok (record { content = v.bytes; original_name = v.filename })
    unfolding new_file is_available
    download_file-of_uploaded keys ip max_keys clock later s laws works tables fair code bound ready
          same known is_time free under early e f =
        let i =
          upload_file-IsUploaded h u settings faults suffix token z d v w file laws tables fair
            ready.nodes e in
        let (status, files) = files-of_uploaded same ready.new e in
        let (found, read) = found_and_read i laws works code bound ready files f in
        download_file-sends Fleet h token z u ip max_keys keys link clock later
          (record s { world = linked.1 }) _ file v.bytes free under
          (verify-linked keys later i tables ready known is_time early status files f) found
          (rw status refl) refl read
        ∙ ap (λ name. ok (record { content = v.bytes; original_name = name }))
            (ap (λ (g : File). g.original_name) i.kept.row)
