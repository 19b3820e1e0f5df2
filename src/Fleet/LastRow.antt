-- ===== src/Fleet/LastRow.antt =====
-- The row of a file that was just uploaded, as api_service/routers/files.py and
-- api_service/routers/download.py look it up.
use secure_file_system.Api.Files.{is_owned, owned_file}
use secure_file_system.Base.{
  ◌≡◌, refl, ap, ◌∙◌, Bool, true, false, some, List, [], ◌∷◌, ◌++◌, arith, ◌==◌, list_eq, nat_eq,
  ok,
}
use secure_file_system.Base.Lists.{first, All, All-implies}
use secure_file_system.Database.{User, File, Database, is_available, find_file}
use secure_file_system.Files.Uploading.Outcomes.{IsFresh}

first-last :
    (p : File → Bool) (xs : List File) (y : File)
    → All (λ x. p x ≡ false) xs
    → p y ≡ true
    → first p (xs ++ (y ∷ [])) ≡ some y
first-last p [] y h e = rw e refl
first-last p (x ∷ xs) y h e = rw (h.0) (first-last p xs y h.1 e)

-- The last row, whose identifier no other has, is the one that is found.
pub owned_file-last :
    (user : User) (file : File) (old : List File) (db : Database)
    → db.files ≡ old ++ (file ∷ [])
    → IsFresh file.id old
    → file.owner_user_id ≡ user.id
    → is_available file.status ≡ true
    → owned_file user file.id db ≡ ok file
unfolding owned_file
owned_file-last user file old db rows fresh owner ready =
    let found : first (is_owned user file.id) db.files ≡ some file =
      ap (first (is_owned user file.id)) rows
      ∙ first-last (is_owned user file.id) old file
          (All-implies old (λ f other. unfold is_owned in rw other refl) fresh)
          (unfold is_owned in ground (arith, owner, ready)) in
    rw (found, owned_file) refl

pub find_file-last :
    (file : File) (old : List File) (db : Database)
    → db.files ≡ old ++ (file ∷ [])
    → IsFresh file.id old
    → find_file file.id db ≡ some file
unfolding find_file
find_file-last file old db rows fresh =
    ap (first (λ f. f.id == file.id)) rows
    ∙ first-last (λ f. f.id == file.id) old file fresh (ground arith)
