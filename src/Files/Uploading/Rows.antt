-- ===== src/Files/Uploading/Rows.antt =====
-- Rows before bytes: what api_service/services/files.py has committed when it sends a request of an
-- upload to a storage node.
use secure_file_system.NodeClient
use secure_file_system.Base.{
  ℕ, suc, ◌+◌, ◌≡◌, refl, inl, inr, Bool, true, ◌&&◌, ◌||◌, List, [], ◌∷◌, ◌++◌, map, arith, ◌==◌,
  list_eq, nat_eq, ltb, Bool-cases, Result-cases, Returns, Returns-ok,
}
use secure_file_system.Base.Lists.{length, any, All, All-implies, All-both}
use secure_file_system.Base.Text.{Text, Bytes}
use secure_file_system.Database.{File, StorageNode, Shard, Database}
use secure_file_system.Erasure.{encode}
use secure_file_system.Erasure.Codec.{Zfec}
use secure_file_system.Files.{coded, healthy_nodes}
use secure_file_system.Files.Uploading.{
  Draws, Upload, Placement, prepared, add_rows, put_placed, delete_placed, new_shard, place,
}
use secure_file_system.Http.{shard_target, healthz_target, other_target}
use secure_file_system.Network.{Network, Sent, World}
use secure_file_system.NodeClient.{put_request, delete_request, send}
use secure_file_system.Python.Hashlib.{Hashlib}
use secure_file_system.Python.Uuid.{uuid_text}

-- A shard with that identifier, of a file that has a row, is in the tables.
unfoldable pub has_row : Database → Text → Bool
has_row db id = any (λ s. (uuid_text s.id == id) && any (λ f. f.id == s.file_id) db.files) db.shards

-- A request about a shard was sent when the rows of the shard and of its file were committed.
unfoldable pub recorded : Sent → Bool
unfolding has_row
recorded r = elim r.request.target [
  | shard_target id ↦ has_row r.committed id
  | healthz_target ↦ true
  | other_target ↦ true
]

abbrev pub AllRecorded : List Sent → Type 0
AllRecorded sent = All (λ r. recorded r ≡ true) sent

-- Keeps what is committed, and sends requests whose rows are there.
pub record Inside {net : Network} (db : Database) (w : World net) : Type 0 where
  pub same : w.committed ≡ db
  pub all : AllRecorded w.sent

any-append {ℓ} :
    {A : Type ℓ} (p : A → Bool) (xs ys : List A) → any p (xs ++ ys) ≡ (any p xs || any p ys)
any-append p [] ys = refl
any-append p (x ∷ xs) ys = ground (arith, any-append p xs ys)

module _ (net : Network) (h : Hashlib) (token : Text) where
  pub put_placed-Inside :
      (db : Database) (p : Placement)
      → has_row db (uuid_text p.shard.id) ≡ true
      → (w : World net) → Inside db w
      → Inside db (put_placed net h token p w).1
  unfolding put_placed NodeClient.put_shard NodeClient.send NodeClient.put_request recorded
  put_placed-Inside db p row w i = record { same = i.same; all = (rw i.same row, i.all) }

  pub delete_placed-Inside :
      (db : Database) (p : Placement)
      → has_row db (uuid_text p.shard.id) ≡ true
      → (w : World net) → Inside db w
      → Inside db (delete_placed net h token p w).1
  unfolding delete_placed NodeClient.delete_shard NodeClient.send NodeClient.delete_request recorded
  delete_placed-Inside db p row w i = record { same = i.same; all = (rw i.same row, i.all) }

any_self :
    (placed : List Placement)
    → All
        (λ p. (q : Shard → Bool) → q p.shard ≡ true → any q (map (λ p. p.shard) placed) ≡ true)
        placed
any_self [] = tt
any_self (p ∷ placed) =
    (λ q e. rw e refl, All-implies placed (λ p k q e. ground (arith, k q e)) (any_self placed))

place-file_id :
    (h : Hashlib) (d : Draws) (k index : ℕ) (nodes : List StorageNode) (blocks : List Bytes)
    → Returns (All (λ p. p.shard.file_id ≡ d.file_id)) (place h d k index nodes blocks)
unfolding place new_shard
place-file_id h d k index [] [] = tt
place-file_id h d k index [] (b ∷ bs) = tt
place-file_id h d k index (n ∷ ns) [] = tt
place-file_id h d k index (n ∷ ns) (b ∷ bs) = elim (Result-cases (place h d k (suc index) ns bs)) [
  | inl (rest, e) ↦ rw e (refl, Returns-ok _ _ rest (place-file_id h d k (suc index) ns bs) e)
  | inr (raised, e) ↦ rw e tt
]

pub prepared-file_id :
    (h : Hashlib) (z : Zfec) (d : Draws) (u : Upload) (db : Database)
    → Returns (All (λ p. p.shard.file_id ≡ d.file_id)) (prepared h z d u db)
unfolding prepared
prepared-file_id h z d u db = elim (Result-cases (coded (encode z u.bytes u.k u.m))) [
  | inl (blocks, e) ↦
      let few = ltb (length (healthy_nodes db)) (u.k + u.m) in
      elim (Bool-cases few) [
        | inl f ↦ rw (e, f) tt
        | inr f ↦
            rw (e, f) (place-file_id h d u.k 0 (d.sample (healthy_nodes db) (u.k + u.m)) blocks)
      ]
  | inr (raised, e) ↦ rw e tt
]

-- The rows that an upload adds are the rows of all that it places.
pub add_rows-has_row :
    (file : File) (placed : List Placement) (db : Database)
    → All (λ p. p.shard.file_id ≡ file.id) placed
    → All (λ p. has_row (add_rows file placed db) (uuid_text p.shard.id) ≡ true) placed
unfolding add_rows has_row
add_rows-has_row file placed db owned =
    All-both placed
      (λ p of_file k.
        rw
          (
            any-append _ db.shards (map (λ p. p.shard) placed),
            k
                (λ s.
                  (uuid_text s.id == uuid_text p.shard.id)
                  && any (λ f. f.id == s.file_id) (db.files ++ (file ∷ [])))
                (ground
                  (arith, any-append (λ f. f.id == p.shard.file_id) db.files (file ∷ []), of_file)),
          )
          (ground arith))
      owned (any_self placed)
