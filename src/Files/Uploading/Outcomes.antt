-- ===== src/Files/Uploading/Outcomes.antt =====
-- What an upload of api_service/services/files.py leaves committed, however the nodes answer.

use secure_file_system.NodeClient
use secure_file_system.Base.{
  ℕ, ◌≡◌, refl, ap, inl, inr, Bool, false, none, some, List, [], ◌∷◌, ◌++◌, map, arith, ◌==◌, ◌!=◌,
  list_eq, nat_eq, if◌then◌else◌, Bool-cases, Result, ok, err, Result-cases,
}
use secure_file_system.Base.Lists.{any, keep, All, All-always, append_nil, map-append}
use secure_file_system.Base.Text.{Text}
use secure_file_system.Database.{
  uploading, available, file_uploaded, File, Database, is_available, update_file, delete_file_row,
}
use secure_file_system.Erasure.Codec.{Zfec}
use secure_file_system.Files.{FilesError, record_event, failed}
use secure_file_system.Files.Uploading.{
  Draws, Upload, Placement, new_file, prepared, add_rows, put_placed, delete_placed,
  roll_back_upload, store, upload_file,
}
use secure_file_system.Network.{Network, World, commit, stage, gather, gather-preserves}
use secure_file_system.NodeClient.{send}
use secure_file_system.Python.Hashlib.{Hashlib}

-- What the owner can see and download.
unfoldable pub visible : Database → List File
visible db = keep (λ f. is_available f.status) db.files

-- No row has that identifier.
abbrev pub IsFresh : ℕ → List File → Type 0
IsFresh id files = All (λ f. (f.id == id) ≡ false) files

-- A stored file is the last row, and available, with its event; a failed upload leaves nothing to
-- see.
unfoldable pub Outcome :
    {net : Network} → Draws → Upload → Database → Result FilesError File × World net → Type 0
Outcome d u db (ok file, w) =
    (file.status ≡ available)
    × ((w.committed.files ≡ db.files ++ (file ∷ []))
        × (w.committed.audit_events
            ≡ (record_event file_uploaded (some d.file_id) (some u.owner.id) none u.ip_address
                db).audit_events))
Outcome d u db (err e, w) = visible w.committed ≡ visible db

pub keep-append {ℓ} :
    {A : Type ℓ} (p : A → Bool) (xs ys : List A) → keep p (xs ++ ys) ≡ keep p xs ++ keep p ys
keep-append p [] ys = refl
keep-append p (x ∷ xs) ys = ground (arith, keep-append p xs ys)

keep-fresh : (id : ℕ) (files : List File) → IsFresh id files → keep (λ f. f.id != id) files ≡ files
keep-fresh id [] h = refl
keep-fresh id (f ∷ files) h = ground (arith, keep-fresh id files h.1, h.0)

map-fresh :
    (file : File) (files : List File)
    → IsFresh file.id files
    → map (λ f. if f.id == file.id then file else f) files ≡ files
map-fresh file [] h = refl
map-fresh file (f ∷ files) h = ground (arith, map-fresh file files h.1, h.0)

-- Neither the session nor what is committed has changed since.
pub record IsSteady {net : Network} (db : Database) (w : World net) : Type 0 where
  pub committed : w.committed ≡ db
  pub session : w.session ≡ db

module _ (file : File) (placed : List Placement) (db : Database)
    (fresh : IsFresh file.id db.files) where
  files-rolled_back : (delete_file_row file.id (add_rows file placed db)).files ≡ db.files
  unfolding delete_file_row add_rows
  files-rolled_back =
      rw
        (keep-append (λ f. f.id != file.id) db.files (file ∷ []), keep-fresh file.id db.files fresh)
        (ground (arith, append_nil db.files))

  visible-add_rows : file.status ≡ uploading → visible (add_rows file placed db) ≡ visible db
  unfolding visible add_rows is_available
  visible-add_rows hidden =
      let here : is_available file.status ≡ false = rw hidden refl in
      rw (keep-append (λ f. is_available f.status) db.files (file ∷ []), here) (append_nil _)

  files-update_file :
      (now : File)
      → now.id ≡ file.id
      → (update_file now (add_rows file placed db)).files ≡ db.files ++ (now ∷ [])
  unfolding update_file add_rows
  files-update_file now same =
      let write : File → File = λ f. if f.id == now.id then now else f in
      let kept : IsFresh now.id db.files = rw same fresh in
      rw (map-append write db.files (file ∷ []), map-fresh now db.files kept) (ground (arith, same))

module _ (net : Network) (h : Hashlib) (token : Text) where
  pub gather-put :
      (db : Database) (placed : List Placement) (w : World net)
      → IsSteady db w
      → IsSteady db (gather (put_placed net h token) placed w).1
  unfolding put_placed NodeClient.put_shard NodeClient.send
  gather-put db placed w i =
      gather-preserves (IsSteady db) (put_placed net h token) placed
        (All-always placed (λ p w i. record { committed = i.committed; session = i.session })) w i

  gather-delete :
      (db : Database) (placed : List Placement) (w : World net)
      → IsSteady db w
      → IsSteady db (gather (delete_placed net h token) placed w).1
  unfolding delete_placed NodeClient.delete_shard NodeClient.send
  gather-delete db placed w i =
      gather-preserves (IsSteady db) (delete_placed net h token) placed
        (All-always placed (λ p w i. record { committed = i.committed; session = i.session })) w i

  visible-roll_back :
      (file : File) (placed : List Placement) (db : Database) (w : World net)
      → IsFresh file.id db.files
      → file.status ≡ uploading
      → IsSteady (add_rows file placed db) w
      → visible (roll_back_upload net h token file placed w).committed ≡ visible db
  unfolding roll_back_upload visible delete_file_row
  visible-roll_back file placed db w fresh hidden i =
      let after = gather (delete_placed net h token) placed w in
      let steady = gather-delete (add_rows file placed db) placed w i in
      elim (Bool-cases (any failed after.0)) [
        | inl e ↦ rw (e, steady.committed) (visible-add_rows file placed db fresh hidden)
        | inr e ↦
            rw (e, steady.session)
              (ap (keep (λ f. is_available f.status)) (files-rolled_back file placed db fresh))
      ]

  store-Outcome :
      (d : Draws) (u : Upload) (placed : List Placement) (w : World net)
      → IsFresh d.file_id w.session.files
      → Outcome d u w.session (store net h token (new_file h d u) placed u.owner u.ip_address w)
  unfolding store Outcome new_file record_event update_file add_rows
  store-Outcome d u placed w fresh =
      let file = new_file h d u in
      let w1 : World net = commit (stage (add_rows file placed) w) in
      let after = gather (put_placed net h token) placed w1 in
      let steady =
        gather-put (add_rows file placed w.session) placed w1
          (record { committed = refl; session = refl }) in
      elim (Bool-cases (any failed after.0)) [
        | inl e ↦ rw e (visible-roll_back file placed w.session after.1 fresh refl steady)
        | inr e ↦
            rw (e, steady.session)
              (
                refl,
                (
                  files-update_file file placed w.session fresh (record file { status = available })
                      refl,
                  refl,
                ),
              )
      ]

  -- However the nodes answer, and with an identifier that is not in use: an upload that returns has
  -- committed its file, available and with its event, as one more row; one that raises leaves the
  -- files that can be seen as they were.
  pub upload_file-Outcome :
      (z : Zfec) (d : Draws) (u : Upload) (w : World net)
      → w.committed ≡ w.session
      → IsFresh d.file_id w.session.files
      → Outcome d u w.session (upload_file net h token z d u w)
  unfolding upload_file Outcome
  upload_file-Outcome z d u w same fresh = elim (Result-cases (prepared h z d u w.session)) [
    | inl (placed, e) ↦ rw (e, upload_file) (store-Outcome d u placed w fresh)
    | inr (error, e) ↦ rw (e, upload_file) (ap visible same)
  ]
