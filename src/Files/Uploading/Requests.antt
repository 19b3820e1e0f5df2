-- ===== src/Files/Uploading/Requests.antt =====
-- The requests of an upload in api_service/services/files.py, and what is committed when each is
-- sent.
use secure_file_system.Base.{
  ◌≡◌, refl, inl, inr, true, Option, List, Bool-cases, Result-cases, Returns-ok,
}
use secure_file_system.Base.Lists.{any, All, All-implies}
use secure_file_system.Base.Text.{Text}
use secure_file_system.Database.{User, File, Database}
use secure_file_system.Erasure.Codec.{Zfec}
use secure_file_system.Files.{failed}
use secure_file_system.Files.Uploading.{
  Draws, Upload, Placement, new_file, prepared, add_rows, put_placed, delete_placed,
  roll_back_upload, store, upload_file,
}
use secure_file_system.Files.Uploading.Rows.{
  has_row, AllRecorded, Inside, put_placed-Inside, delete_placed-Inside, prepared-file_id,
  add_rows-has_row,
}
use secure_file_system.Network.{Network, World, commit, stage, gather, gather-preserves}
use secure_file_system.Python.Hashlib.{Hashlib}
use secure_file_system.Python.Uuid.{uuid_text}

module _ (net : Network) (h : Hashlib) (token : Text) where
  gather-put :
      (db : Database) (placed : List Placement)
      → All (λ p. has_row db (uuid_text p.shard.id) ≡ true) placed
      → (w : World net) → Inside db w
      → Inside db (gather (put_placed net h token) placed w).1
  gather-put db placed rows w i =
      gather-preserves (Inside db) (put_placed net h token) placed
        (All-implies placed (λ p row. put_placed-Inside net h token db p row) rows) w i

  gather-delete :
      (db : Database) (placed : List Placement)
      → All (λ p. has_row db (uuid_text p.shard.id) ≡ true) placed
      → (w : World net) → Inside db w
      → Inside db (gather (delete_placed net h token) placed w).1
  gather-delete db placed rows w i =
      gather-preserves (Inside db) (delete_placed net h token) placed
        (All-implies placed (λ p row. delete_placed-Inside net h token db p row) rows) w i

  sent-roll_back :
      (db : Database) (file : File) (placed : List Placement) (w : World net)
      → All (λ p. has_row db (uuid_text p.shard.id) ≡ true) placed
      → Inside db w
      → AllRecorded (roll_back_upload net h token file placed w).sent
  unfolding roll_back_upload
  sent-roll_back db file placed w rows i =
      let after = gather (delete_placed net h token) placed w in
      elim (Bool-cases (any failed after.0)) [
        | inl e ↦ rw e (gather-delete db placed rows w i).all
        | inr e ↦ rw e (gather-delete db placed rows w i).all
      ]

  sent-store :
      (file : File) (placed : List Placement) (owner : User) (ip : Option Text) (w : World net)
      → All (λ p. p.shard.file_id ≡ file.id) placed
      → AllRecorded w.sent
      → AllRecorded (store net h token file placed owner ip w).1.sent
  unfolding store
  sent-store file placed owner ip w owned before =
      let db = add_rows file placed w.session in
      let w1 : World net = commit (stage (add_rows file placed) w) in
      let rows = add_rows-has_row file placed w.session owned in
      let i : Inside db w1 = record { same = refl; all = before } in
      let after = gather (put_placed net h token) placed w1 in
      elim (Bool-cases (any failed after.0)) [
        | inl e ↦ rw e (sent-roll_back db file placed after.1 rows (gather-put db placed rows w1 i))
        | inr e ↦ rw e (gather-put db placed rows w1 i).all
      ]

  -- Rows before bytes: an upload sends every request about a shard, its writes and the deletes of
  -- a roll-back, only while the rows of that shard and of its file are committed.
  pub upload_file-recorded :
      (z : Zfec) (d : Draws) (u : Upload) (w : World net)
      → AllRecorded w.sent
      → AllRecorded (upload_file net h token z d u w).1.sent
  unfolding upload_file new_file
  upload_file-recorded z d u w before = elim (Result-cases (prepared h z d u w.session)) [
    | inl (placed, e) ↦
        rw (e, upload_file)
          (sent-store (new_file h d u) placed u.owner u.ip_address w
            (Returns-ok _ _ placed (prepared-file_id h z d u w.session) e) before)
    | inr (error, e) ↦ rw (e, upload_file) before
  ]
