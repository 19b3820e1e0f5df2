-- ===== src/Scripts/Rotation.antt =====
-- Who is let in after scripts/create_user.py has run.
use secure_file_system.Api.Users.{hash_api_key, bearer_key, key_holder, get_current_user}
use secure_file_system.Base.{
  ℕ, ◌≡◌, refl, sym, ap, ◌∙◌, ◌⊎◌, inl, inr, false, Option, some, ◌++◌, arith, ◌==◌, list_eq,
  nat_eq, Option-cases, ok, err, Result-cases, ok-eq, not_ok, ◌>>=◌, >>=-eq-ok,
}
use secure_file_system.Base.Lists.{first, All, first-All}
use secure_file_system.Base.Text.{Text, codes}
use secure_file_system.Database.{User, Database}
use secure_file_system.Python.Hashlib.{Hashlib}
use secure_file_system.Python.Strings.{starts_with, partition, strip, strip-of_none}
use secure_file_system.Python.Unicode.{Unicode, IsUnicode}
use secure_file_system.Scripts.Issuing.{
  IsReady, IsOnly, issue_key-Issued, Issued-ok, Issued-err, issue_key-key,
}
use secure_file_system.Scripts.Users.{
  generate_api_key, ExitStatus, Arguments, email_of, issue_key, create_user,
}

-- The header of a client that presents a key.
abbrev pub bearer : Text → Option Text
bearer api_key = some (codes "Bearer " ++ api_key)

bearer_key-generated :
    (u : Unicode) (drawn : Text)
    → IsUnicode u
    → bearer_key u (bearer (generate_api_key drawn)) ≡ ok (generate_api_key drawn)
unfolding bearer_key starts_with partition nat_eq list_eq
bearer_key-generated u drawn laws = rw (laws.lower_ascii (codes "Bearer") (omega arith)) refl

generated-not_space :
    (u : Unicode) (drawn : Text)
    → IsUnicode u
    → All (λ c. u.is_space c ≡ false) drawn
    → strip u.is_space (generate_api_key drawn) ≡ generate_api_key drawn
generated-not_space u drawn laws h = strip-of_none u.is_space (generate_api_key drawn) (
  laws.space_ascii 115 (omega arith),
  (
    laws.space_ascii 102 (omega arith),
    (laws.space_ascii 115 (omega arith), (laws.space_ascii 95 (omega arith), h)),
  ),
)

-- A header whose key has the hash of a given key.
abbrev pub OpensWith : Hashlib → Unicode → Option Text → Text → Type 0
OpensWith h u authorization api_key =
    (key : Text) × (bearer_key u authorization ≡ ok key)
    × (hash_api_key h (strip u.is_space key) ≡ hash_api_key h api_key)

module _ (h : Hashlib) (u : Unicode) (db : Database) where
  key_holder-of_some :
      (key : Text) (user : User)
      → first (λ r. r.api_key_hash == hash_api_key h (strip u.is_space key)) db.users ≡ some user
      → key_holder h u db key ≡ ok user
  unfolding key_holder
  key_holder-of_some key user f = rw (f, key_holder) refl

  key_holder-ok :
      (key : Text) (user : User)
      → key_holder h u db key ≡ ok user
      → first (λ r. r.api_key_hash == hash_api_key h (strip u.is_space key)) db.users ≡ some user
  unfolding key_holder
  key_holder-ok key user e =
      elim (Option-cases
        (first (λ r. r.api_key_hash == hash_api_key h (strip u.is_space key)) db.users)) [
          | inl n ↦ absurd (not_ok (rw (n, key_holder) at e))
          | inr (found, n) ↦ n ∙ ap some (ok-eq (ok found) refl (rw (n, key_holder) at e))
        ]

  same_hash :
      (hash key_hash : Text) (user other : User)
      → IsOnly hash user db.users
      → first (λ r. r.api_key_hash == key_hash) db.users ≡ some other
      → other.id ≡ user.id
      → key_hash ≡ hash
  same_hash hash key_hash user other row n same =
      let (only, test) = first-All _ (λ r. r.api_key_hash == key_hash) db.users other row.only n in
      ground (arith, only same, test)

  get_current_user-only :
      (authorization : Option Text) (api_key : Text) (user other : User)
      → IsOnly (hash_api_key h api_key) user db.users
      → get_current_user h u authorization db ≡ ok other
      → other.id ≡ user.id
      → OpensWith h u authorization api_key
  unfolding get_current_user
  get_current_user-only authorization api_key user other row e same =
      let (key, given, rest) = >>=-eq-ok (bearer_key u authorization) (key_holder h u db) e in
      (
        key,
        given,
        same_hash (hash_api_key h api_key) (hash_api_key h (strip u.is_space key)) user other row
            (key_holder-ok key other rest) same,
      )

  get_current_user-new :
      (drawn : Text) (user : User)
      → IsUnicode u
      → All (λ c. u.is_space c ≡ false) drawn
      → IsOnly (hash_api_key h (generate_api_key drawn)) user db.users
      → get_current_user h u (bearer (generate_api_key drawn)) db ≡ ok user
  unfolding get_current_user
  get_current_user-new drawn user laws plain row =
      ap (λ k. k >>= key_holder h u db) (bearer_key-generated u drawn laws)
      ∙ key_holder-of_some (generate_api_key drawn) user
          (rw (generated-not_space u drawn laws plain) row.found)

-- A client that presents the key is let in as the user, and nobody is let in as that user with a key
-- of another hash.
abbrev pub IsKeyOf : Hashlib → Unicode → ℕ → Text → Database → Type 0
IsKeyOf h u user_id api_key db =
    (user : User) × (user.id ≡ user_id)
    × (get_current_user h u (bearer api_key) db ≡ ok user)
    × ((authorization : Option Text) (other : User)
        → get_current_user h u authorization db ≡ ok other
        → other.id ≡ user_id
        → OpensWith h u authorization api_key)

-- The script fails and leaves the database as it was, or the key that it prints lets its client in
-- as the user that it names, and from then on nobody is let in as that user with a key of another
-- hash, so that the user's earlier key is worth nothing. Identifiers of users are unique, the new
-- row's and the new key's hash are not in use, and what is drawn for the key holds no space.
pub create_user-lets_in :
    (h : Hashlib) (u : Unicode) (args : Arguments) (drawn : Text) (id : ℕ) (db : Database)
    → IsUnicode u
    → All (λ c. u.is_space c ≡ false) drawn
    → IsReady (hash_api_key h (generate_api_key drawn)) id db.users
    → let (result, db') = create_user h u args drawn id db in
      ((status : ExitStatus) × (result ≡ err status) × (db' ≡ db))
      ⊎ ((user_id : ℕ) × (api_key : Text) × (result ≡ ok (user_id, api_key))
          × IsKeyOf h u user_id api_key db')
unfolding create_user
create_user-lets_in h u args drawn id db laws plain ready =
    let email = email_of u args in
    let o = first (λ r. r.email == email) db.users in
    let run = issue_key h email args.rotate drawn id o db in
    let issued = issue_key-Issued h email args.rotate drawn id db o ready refl in
    elim (Result-cases run.0) [
      | inr (status, e) ↦ inl (status, e, Issued-err h db run status issued e)
      | inl ((user_id, api_key), e) ↦
          let key = issue_key-key h email args.rotate drawn id db o user_id api_key e in
          let (user, named, row) = Issued-ok h db run user_id api_key issued e in
          let row' : IsOnly (hash_api_key h (generate_api_key drawn)) user run.1.users =
            rw key at row in
          let lets_in : IsKeyOf h u user_id api_key run.1 = (
            user,
            named,
            rw key (get_current_user-new h u run.1 drawn user laws plain row'),
            λ authorization other f same.
                get_current_user-only h u run.1 authorization api_key user other row f
                  (same ∙ sym named),
          ) in
          inr (user_id, api_key, e, lets_in)
    ]
