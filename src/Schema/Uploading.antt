-- ===== src/Schema/Uploading.antt =====
-- `upload_file` of api_service/services/files.py and the constraints of the tables.
use native.Mathlib.Nat.{div-le_self}
use secure_file_system.NodeClient
use secure_file_system.NodeClient
use secure_file_system.Base.{
  ℕ, ◌+◌, ◌-◌, ◌≤◌, ◌<◌, ◌≡◌, refl, ap, ◌∙◌, ◌≢◌, inl, inr, true, false, none, some, List, [], ◌∷◌,
  map, arith, contains, list_eq, nat_eq, Bool-cases, ok, Result-cases, not_ok,
}
use secure_file_system.Base.Lists.{length, any, All, All-implies, All-always}
use secure_file_system.Base.Text.{Text, Bytes}
use secure_file_system.Database.{
  available, file_uploaded, File, StorageNode, Database, is_healthy_status, update_file,
}
use secure_file_system.Erasure.{block_size_of, primary_blocks, encode}
use secure_file_system.Erasure.Codec.{Zfec, IsZfec}
use secure_file_system.Erasure.Padding.{primary_blocks-IsPrimary}
use secure_file_system.Filenames.{fitting}
use secure_file_system.Files.{coded, sha256_hex, healthy_nodes, failed}
use secure_file_system.Files.Uploading.{
  Draws, Upload, Placement, new_file, prepared, add_rows, put_placed, delete_placed,
  roll_back_upload, store, upload_file,
}
use secure_file_system.Files.Uploading.Outcomes.{gather-put}
use secure_file_system.Files.Uploading.Placing.{IsPlacement, shares_of, prepared-ArePlacements}
use secure_file_system.Network.{Network, World, commit, stage, gather, gather-preserves}
use secure_file_system.NodeClient.{put_request, delete_request}
use secure_file_system.Python.Hashlib.{Hashlib, IsHashlib}
use secure_file_system.Python.Hex.{length-hex}
use secure_file_system.Schema.{
  refers, file_checks, small_integer, big_integer, file_fits, shard_fits, IsConsistent,
  AreConsistent,
}
use secure_file_system.Schema.Added.{
  ShardsTable-added, FilesTable-added, AuditTable-added, ids-added,
}
use secure_file_system.Schema.Requests.{send-AreConsistent, removed_if-AreConsistent}
use secure_file_system.Schema.Rows.{record_event-IsConsistent, update_file-IsConsistent}
use secure_file_system.Schema.Tables.{All-keep, ids-update, ids-contained}
use secure_file_system.Signing.{checked}

-- Before an upload: its owner has a row, there is a parity shard, and what is drawn is not in use.
pub record IsNewUpload (d : Draws) (v : Upload) (db : Database) : Type 0 where
  pub owner : contains (map (λ u. u.id) db.users) v.owner.id ≡ true
  pub parity : 1 ≤ v.m
  pub small : length v.bytes + 256 ≤ big_integer
  pub new : contains (map (λ f. f.id) db.files) d.file_id ≡ false
  pub unused : All (λ s. (i : ℕ) → s.id ≢ d.shard_id i) db.shards
  pub apart : (i j : ℕ) → d.shard_id i ≡ d.shard_id j → i ≡ j

encoded-nonempty :
    (z : Zfec) (bytes : Bytes) (k m : ℕ) (blocks : List Bytes)
    → encode z bytes k m ≡ ok blocks
    → 1 ≤ length bytes
unfolding encode
encoded-nonempty z [] k m blocks e = absurd (not_ok e)
encoded-nonempty z (b ∷ bytes) k m blocks e = omega arith

prepared-nonempty :
    (h : Hashlib) (z : Zfec) (d : Draws) (v : Upload) (db : Database) (placed : List Placement)
    → prepared h z d v db ≡ ok placed
    → 1 ≤ length v.bytes
unfolding prepared coded
prepared-nonempty h z d v db placed e = elim (Result-cases (encode z v.bytes v.k v.m)) [
  | inr (x, f) ↦ absurd (not_ok (rw (f, coded) at e))
  | inl (blocks, f) ↦ encoded-nonempty z v.bytes v.k v.m blocks f
]

healthy_nodes-contained :
    (db : Database) → All (λ n. contains (map (λ n. n.id) db.nodes) n.id ≡ true) (healthy_nodes db)
unfolding healthy_nodes
healthy_nodes-contained db =
    All-keep _ (λ n. is_healthy_status n.status) db.nodes (ids-contained (λ n. n.id) db.nodes)

length-sha256_hex : (h : Hashlib) (bytes : Bytes) → IsHashlib h → length (sha256_hex h bytes) ≡ 64
unfolding sha256_hex
length-sha256_hex h bytes laws = omega (arith, length-hex (h.sha256 bytes), laws.digest_size bytes)

-- The columns of a new row hold what is written to them.
new_file-fits :
    (h : Hashlib) (d : Draws) (v : Upload)
    → IsHashlib h
    → v.k + v.m ≤ 256
    → length v.bytes + 256 ≤ big_integer
    → file_fits (new_file h d v) ≡ true
unfolding file_fits new_file
new_file-fits h d v laws few small = ground (arith, length-sha256_hex h v.bytes laws, few, small)

placed-fits :
    (h : Hashlib) (z : Zfec) (d : Draws) (v : Upload) (p : Placement)
    → IsHashlib h
    → IsZfec z v.k (v.k + v.m)
    → v.k + v.m ≤ 256
    → 1 ≤ v.k
    → length v.bytes + 256 ≤ big_integer
    → IsPlacement h d (shares_of z v) 0 (0 + (v.k + v.m)) p
    → shard_fits p.shard ≡ true
unfolding shard_fits
placed-fits h z d v p laws code few some_block small i =
    let block_size = block_size_of (length v.bytes) v.k in
    let size : length p.block ≡ block_size =
      ap length i.block
      ∙ code.share_size block_size (primary_blocks v.bytes v.k) p.shard.shard_index
          (primary_blocks-IsPrimary v.bytes v.k v.m some_block few) (omega (arith, i.below)) in
    let short : block_size ≤ length v.bytes + v.k - 1 =
      div-le_self (length v.bytes + v.k - 1) v.k in
    let low : p.shard.shard_index < small_integer = omega (arith, i.below, few) in
    let bytes : p.shard.size_bytes < big_integer = omega (arith, i.size, size, short, few, small) in
    let hexed : length p.shard.checksum_sha256 ≡ 64 =
      ap length i.checksum ∙ length-sha256_hex h p.block laws in
    ground (arith, low, bytes, hexed)

-- The rows that are committed before the shards are sent.
add_rows-IsConsistent :
    (h : Hashlib) (z : Zfec) (d : Draws) (v : Upload) (db : Database) (placed : List Placement)
    → IsHashlib h
    → IsZfec z v.k (v.k + v.m)
    → v.k + v.m ≤ 256
    → IsConsistent db
    → IsNewUpload d v db
    → ((P : StorageNode → Type 0) (nodes : List StorageNode) (n : ℕ)
        → All P nodes
        → All P (d.sample nodes n))
    → prepared h z d v db ≡ ok placed
    → (file_checks (new_file h d v) ≡ true)
      × (file_fits (new_file h d v) ≡ true)
      × IsConsistent (add_rows (new_file h d v) placed db)
unfolding add_rows new_file file_checks
add_rows-IsConsistent h z d v db placed laws code few c new honest e =
    let file = new_file h d v in
    let full = prepared-nonempty h z d v db placed e in
    let (some_block, a) =
      prepared-ArePlacements h z d v db (λ n. contains (map (λ n. n.id) db.nodes) n.id ≡ true)
        placed (honest _) (healthy_nodes-contained db) e in
    let checked : file_checks file ≡ true = ground (arith, full, some_block, new.parity) in
    let fitting = new_file-fits h d v laws few new.small in
    let fit =
      All-implies placed (λ p i. placed-fits h z d v p laws code few some_block new.small i)
        a.each in
    (
      checked,
      fitting,
      record {
        users = c.users;
        nodes = c.nodes;
        files = FilesTable-added db.users db.files file new.new checked fitting new.owner c.files;
        shards =
            ShardsTable-added h d (shares_of z v) (0 + (v.k + v.m)) db.nodes db.files file db.shards
              placed refl new.apart new.new new.unused a.each a.apart a.on_nodes fit c.shards;
        audit_events = AuditTable-added db.users db.files file db.audit_events c.audit_events;
      },
    )

module _ (net : Network) (h : Hashlib) (token : Text) where
  put_placed-AreConsistent :
      (p : Placement) (w : World net)
      → AreConsistent w
      → AreConsistent (put_placed net h token p w).1
  unfolding put_placed NodeClient.put_shard
  put_placed-AreConsistent p w i =
      send-AreConsistent net h token p.node.address
        (NodeClient.put_request net h token p.shard.id p.block) w i

  delete_placed-AreConsistent :
      (p : Placement) (w : World net)
      → AreConsistent w
      → AreConsistent (delete_placed net h token p w).1
  unfolding delete_placed NodeClient.delete_shard
  delete_placed-AreConsistent p w i =
      send-AreConsistent net h token p.node.address
        (NodeClient.delete_request net h token p.shard.id) w i

  roll_back-AreConsistent :
      (file : File) (placed : List Placement) (w : World net)
      → AreConsistent w
      → AreConsistent (roll_back_upload net h token file placed w)
  unfolding roll_back_upload
  roll_back-AreConsistent file placed w i =
      let after = gather (delete_placed net h token) placed w in
      let j =
        gather-preserves AreConsistent (delete_placed net h token) placed
          (All-always placed delete_placed-AreConsistent) w i in
      removed_if-AreConsistent net h token (any failed after.0) file.id after.1 j

  store-AreConsistent :
      (z : Zfec) (d : Draws) (v : Upload) (placed : List Placement) (w : World net)
      → AreConsistent w
      → IsNewUpload d v w.session
      → (file_checks (new_file h d v) ≡ true)
        × (file_fits (new_file h d v) ≡ true)
        × IsConsistent (add_rows (new_file h d v) placed w.session)
      → AreConsistent (store net h token (new_file h d v) placed v.owner v.ip_address w).1
  unfolding store add_rows new_file file_checks file_fits update_file refers
  store-AreConsistent z d v placed w i new (checked, fitting, added) =
      let file = new_file h d v in
      let w1 : World net = commit (stage (add_rows file placed) w) in
      let after = gather (put_placed net h token) placed w1 in
      let j =
        gather-preserves AreConsistent (put_placed net h token) placed
          (All-always placed put_placed-AreConsistent) w1
          (record { committed = added; session = added; sent = i.sent }) in
      let steady =
        gather-put net h token (add_rows file placed w.session) placed w1
          (record { committed = refl; session = refl }) in
      let now : File = record file { status = available } in
      let row : contains (map (λ f. f.id) (add_rows file placed w.session).files) d.file_id ≡ true =
        ids-added w.session.files file in
      let updated =
        update_file-IsConsistent now (add_rows file placed w.session) checked fitting new.owner
          added in
      let done =
        record_event-IsConsistent file_uploaded (some d.file_id) (some v.owner.id) none v.ip_address
          (update_file now (add_rows file placed w.session))
          (ap (λ ids. contains ids d.file_id)
              (ids-update now (add_rows file placed w.session).files)
            ∙ row)
          (new.owner) updated in
      elim (Bool-cases (any failed after.0)) [
        | inl e ↦ rw e (roll_back-AreConsistent file placed after.1 j)
        | inr e ↦
            rw (e, steady.session) (record { committed = done; session = done; sent = j.sent })
      ]

  -- An upload violates no constraint and overflows no column, however the nodes answer: if the rows
  -- meet the constraints of the schema before it, they do so in each state that it commits and in its
  -- session. It asks for the laws of the libraries, for at most 256 blocks and for at most
  -- 2^63 - 256 bytes; the owner has a row, there is a parity shard, what is drawn is not in use and no
  -- identifier is drawn twice, and the sample only draws from the nodes it is given.
  pub upload_file-AreConsistent :
      (z : Zfec) (d : Draws) (v : Upload) (w : World net)
      → IsHashlib h
      → IsZfec z v.k (v.k + v.m)
      → v.k + v.m ≤ 256
      → AreConsistent w
      → IsNewUpload d v w.session
      → ((P : StorageNode → Type 0) (nodes : List StorageNode) (n : ℕ)
          → All P nodes
          → All P (d.sample nodes n))
      → AreConsistent (upload_file net h token z d v w).1
  unfolding upload_file
  upload_file-AreConsistent z d v w laws code few i new honest =
      elim (Result-cases (prepared h z d v w.session)) [
        | inr (error, e) ↦ rw (e, upload_file) i
        | inl (placed, e) ↦
            rw (e, upload_file)
              (store-AreConsistent z d v placed w i new (
                add_rows-IsConsistent h z d v w.session placed laws code few i.session new honest
                  e))
      ]
