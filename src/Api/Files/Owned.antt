-- ===== src/Api/Files/Owned.antt =====
-- Ownership and issued links in api_service/routers/files.py.

use secure_file_system.Api.Files.{is_owned, owned_file}
use secure_file_system.Base.{
  ℕ, ◌≡◌, refl, inl, inr, Bool, false, List, [], ◌∷◌, arith, ◌==◌, list_eq, nat_eq, Bool-cases,
}
use secure_file_system.Base.Lists.{keep, first}
use secure_file_system.Database.{User, Database}

first-keep {ℓ} :
    {A : Type ℓ} (p q : A → Bool) (xs : List A)
    → ((x : A) → q x ≡ false → p x ≡ false)
    → first p (keep q xs) ≡ first p xs
first-keep p q [] h = refl
first-keep p q (x ∷ xs) h = elim (Bool-cases (q x)) [
  | inl e ↦ elim (Bool-cases (p x)) [
    | inl f ↦ rw (e, f) refl
    | inr f ↦ rw (e, f) (first-keep p q xs h)
  ]
  | inr e ↦ rw (e, h x e) (first-keep p q xs h)
]

-- The database with the files of one owner only.
abbrev pub files_of : User → Database → Database
files_of user db = record db { files = keep (λ f. f.owner_user_id == user.id) db.files }

-- What the owner check answers does not depend on the files of others: a file of somebody else
-- and a file that does not exist are answered alike.
pub owned_file-files_of :
    (user : User) (file_id : ℕ) (db : Database)
    → owned_file user file_id (files_of user db) ≡ owned_file user file_id db
unfolding owned_file is_owned
owned_file-files_of user file_id db =
    let same =
      first-keep (is_owned user file_id) (λ f. f.owner_user_id == user.id) db.files
        (λ f e. ground (arith, e)) in
    rw (same, owned_file) refl
