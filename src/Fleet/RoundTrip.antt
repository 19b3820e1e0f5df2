-- ===== src/Fleet/RoundTrip.antt =====
-- `upload_file` and then `read_file` of api_service/services/files.py on a fleet of nodes that run
-- storage_node.
use mathlib.Core.Path.{subst}
use secure_file_system.Base.{
  ℕ, ◌+◌, ◌≤◌, ◌<◌, ◌≡◌, refl, sym, ap, ◌∙◌, inl, inr, false, Option, List, [], ◌++◌, map, arith,
  ◌==◌, list_eq, nat_eq, Bool-cases, ok, Result-cases, ok-eq, not_ok,
}
use secure_file_system.Base.Lists.{any, All, All-implies, IsDistinct}
use secure_file_system.Base.Text.{Text, Bytes}
use secure_file_system.Database.{available, User, File, StorageNode, Database, update_file}
use secure_file_system.Erasure.Codec.{Zfec, IsZfec}
use secure_file_system.Files.{record_event, failed}
use secure_file_system.Files.Reading.{sort_placed, shard_candidates, read_file}
use secure_file_system.Files.Reading.Candidates.{length-sort_placed}
use secure_file_system.Files.Reading.Fetching.{count_good}
use secure_file_system.Files.Reading.Returning.{Describes, read_file-ok}
use secure_file_system.Files.Reading.Serving.{IsPending}
use secure_file_system.Files.Uploading.{
  Draws, Upload, Placement, new_file, prepared, add_rows, put_placed, store, upload_file,
}
use secure_file_system.Files.Uploading.Candidates.{
  IsUsable, row_of, healthy_nodes-IsUsable, shard_candidates-placed,
}
use secure_file_system.Files.Uploading.Outcomes.{gather-put}
use secure_file_system.Files.Uploading.Placing.{
  IsPlacement, ArePlacements, shares_of, prepared-ArePlacements,
}
use secure_file_system.Fleet.{FleetState, NoReadFails, node_network}
use secure_file_system.Fleet.Candidates.{always, count_good-always, length-rows, rows-IsPending}
use secure_file_system.Fleet.Puts.{AllPlaced, gather-AllPlaced}
use secure_file_system.Network.{Network, World, commit, stage, gather}
use secure_file_system.Python.Hashlib.{Hashlib, IsHashlib}
use secure_file_system.Python.Hex.{pow16}
use secure_file_system.Python.Unicode.{Unicode, IsUnicode}
use secure_file_system.StorageNode.Router.{NodeSettings}
use secure_file_system.StorageNode.Storage.{Faults}

module _ (h : Hashlib) (u : Unicode) (settings : NodeSettings) (faults : ℕ → Faults)
    (suffix : ℕ → Text) (token : Text) where
  abbrev Fleet : Network
  Fleet = node_network h u settings faults suffix

  abbrev Holds : List Placement → FleetState → Type 0
  Holds placed = AllPlaced h u settings faults suffix token placed

  -- What an upload that returns has left.
  pub record IsStored (file : File) (placed : List Placement) (db : Database) (kept : File)
      (w : World Fleet) : Type 0 where
    pub row : kept ≡ record file { status = available }
    pub blocks : Holds placed w.network
    pub shards : w.session.shards ≡ db.shards ++ map (λ p. p.shard) placed
    pub nodes : w.session.nodes ≡ db.nodes
    pub committed : w.committed ≡ w.session

  store-IsStored :
      (file kept : File) (placed : List Placement) (owner : User) (ip : Option Text)
      (w : World Fleet)
      → IsHashlib h
      → IsUnicode u
      → All (λ p. p.shard.id < pow16 32) placed
      → let (r, w') = store Fleet h token file placed owner ip w in
        r ≡ ok kept → IsStored file placed w.session kept w'
  unfolding store record_event update_file add_rows
  store-IsStored file kept placed owner ip w laws tables small e =
      let w1 : World Fleet = commit (stage (add_rows file placed) w) in
      let after = gather (put_placed Fleet h token) placed w1 in
      let steady =
        gather-put Fleet h token (add_rows file placed w.session) placed w1
          (record { committed = refl; session = refl }) in
      elim (Bool-cases (any failed after.0)) [
        | inl f ↦ absurd (not_ok (rw f at e))
        | inr f ↦ rw f (record {
          row = ok-eq _ (rw f at e) refl;
          blocks = gather-AllPlaced h u settings faults suffix token placed w1 laws tables small f;
          shards = ap (λ (db : Database). db.shards) steady.session;
          nodes = ap (λ (db : Database). db.nodes) steady.session;
          committed = refl;
        })
      ]

  shard_ids-small :
      (block_of : ℕ → Bytes) (d : Draws) (high : ℕ) (placed : List Placement)
      → ((i : ℕ) → d.shard_id i < pow16 32)
      → All (IsPlacement h d block_of 0 high) placed
      → All (λ p. p.shard.id < pow16 32) placed
  shard_ids-small block_of d high placed small each =
      All-implies placed (λ p i. subst (λ n. n < pow16 32) (sym i.id) (small p.shard.shard_index))
        each

  row-Describes :
      (z : Zfec) (d : Draws) (v : Upload)
      → IsZfec z v.k (v.k + v.m)
      → 1 ≤ v.k
      → v.k + v.m ≤ 256
      → Describes Fleet h token z v.bytes (record (new_file h d v) { status = available })
  unfolding new_file
  row-Describes z d v code nonzero bound = record {
    size = refl;
    checksum = refl;
    code = code;
    some_block = nonzero;
    at_most_256 = bound;
  }

  -- The row of a file, with its shards placed.
  pub placed-read :
      (z : Zfec) (d : Draws) (v : Upload) (db : Database) (placed : List Placement) (file : File)
      (w : World Fleet)
      → IsHashlib h
      → NoReadFails faults
      → IsZfec z v.k (v.k + v.m)
      → 1 ≤ v.k
      → v.k + v.m ≤ 256
      → All (λ s. (s.file_id == d.file_id) ≡ false) db.shards
      → ArePlacements h d (shares_of z v) (IsUsable db.nodes) 0 (v.k + v.m) placed
      → IsStored (new_file h d v) placed db file w
      → (read_file Fleet h token z file w).0 ≡ ok v.bytes
  unfolding new_file
  placed-read z d v db placed file w laws works code nonzero bound fresh a s =
      let row = record (new_file h d v) { status = available } in
      let listed : shard_candidates d.file_id [] w.session ≡ sort_placed (map row_of placed) =
        shard_candidates-placed h d (shares_of z v) 0 (v.k + v.m) placed d.file_id db w.session
          fresh s.shards s.nodes refl a in
      let count : count_good always (sort_placed (map row_of placed)) ≡ v.k + v.m =
        count_good-always (sort_placed (map row_of placed))
        ∙ length-sort_placed (map row_of placed)
        ∙ length-rows placed
        ∙ a.size in
      subst (λ f. (read_file Fleet h token z f w).0 ≡ ok v.bytes) (sym s.row)
        (read_file-ok Fleet h token z v.bytes row w always (Holds placed)
          (row-Describes z d v code nonzero bound) s.blocks
          (subst (IsPending Fleet h token (Holds placed) (shares_of z v) (v.k + v.m) always)
            (sym listed)
            (rows-IsPending h u settings faults suffix token (shares_of z v) d (IsUsable db.nodes)
              (v.k + v.m) placed laws works a))
          (subst (λ ps. v.k ≤ count_good always ps) (sym listed) (omega (arith, count))))

  -- An upload that has returned, with what it drew.
  pub record IsUploaded (z : Zfec) (d : Draws) (v : Upload) (db : Database) (file : File)
      (w : World Fleet) : Type 0 where
    pub placed : List Placement
    pub some_block : 1 ≤ v.k
    pub placements : ArePlacements h d (shares_of z v) (IsUsable db.nodes) 0 (v.k + v.m) placed
    pub kept : IsStored (new_file h d v) placed db file w

  -- Each shard gets an identifier of 128 bits, and the sample draws from the nodes it is given.
  pub record IsFair (d : Draws) : Type 1 where
    pub small : (i : ℕ) → d.shard_id i < pow16 32
    pub honest :
        (P : StorageNode → Type 0) (nodes : List StorageNode) (n : ℕ)
        → All P nodes
        → All P (d.sample nodes n)

  pub upload_file-IsUploaded :
      (z : Zfec) (d : Draws) (v : Upload) (w : World Fleet) (file : File)
      → IsHashlib h
      → IsUnicode u
      → IsFair d
      → IsDistinct (map (λ n. n.id) w.session.nodes)
      → let (r, w') = upload_file Fleet h token z d v w in
        r ≡ ok file → IsUploaded z d v w.session file w'
  unfolding upload_file
  upload_file-IsUploaded z d v w file laws tables fair own e =
      elim (Result-cases (prepared h z d v w.session)) [
        | inr (x, f) ↦ absurd (not_ok (rw (f, upload_file) at e))
        | inl (placed, f) ↦
            let (nonzero, a) =
              prepared-ArePlacements h z d v w.session (IsUsable w.session.nodes) placed
                (fair.honest _) (healthy_nodes-IsUsable w.session own) f in
            let ids =
              shard_ids-small (shares_of z v) d (0 + (v.k + v.m)) placed fair.small a.each in
            rw (f, upload_file)
              (record {
                placed = placed;
                some_block = nonzero;
                placements = a;
                kept =
                    store-IsStored (new_file h d v) file placed v.owner v.ip_address w laws tables
                      ids (rw (f, upload_file) at e);
              })
      ]

  -- On a fleet of nodes that run storage_node with the same settings, whatever faults their writes
  -- meet and with no fault of their reads: a file whose upload has returned is read back with the bytes that were uploaded. It asks
  -- for the laws of the libraries, for at most 256 blocks, for shard identifiers of 128 bits, for an
  -- identifier of the file that no shard's row names yet, for nodes with distinct identifiers, and
  -- for a sample that only draws from the nodes it is given.
  pub upload_file-read_file :
      (z : Zfec) (d : Draws) (v : Upload) (w : World Fleet) (file : File)
      → IsHashlib h
      → NoReadFails faults
      → IsUnicode u
      → IsFair d
      → IsZfec z v.k (v.k + v.m)
      → v.k + v.m ≤ 256
      → All (λ s. (s.file_id == d.file_id) ≡ false) w.session.shards
      → IsDistinct (map (λ n. n.id) w.session.nodes)
      → let (r, w') = upload_file Fleet h token z d v w in
        r ≡ ok file → (read_file Fleet h token z file w').0 ≡ ok v.bytes
  upload_file-read_file z d v w file laws works tables fair code bound fresh own e =
      let i = upload_file-IsUploaded z d v w file laws tables fair own e in
      placed-read z d v w.session i.placed file _ laws works code i.some_block bound fresh
        i.placements i.kept
