-- ===== src/Scripts/Issuing.antt =====
-- What scripts/create_user.py leaves in the table of users.
use mathlib.Core.Option.{some-injective}
use mathlib.Core.Path.{subst}
use secure_file_system.Api.Users.{hash_api_key}
use secure_file_system.Base.{
  ℕ, ◌≡◌, refl, ap, ◌≢◌, inl, inr, Bool, true, false, Option, none, some, List, [], ◌∷◌, ◌++◌, map,
  arith, ◌==◌, list_eq, nat_eq, if◌then◌else◌, Bool-cases, Result, ok, err, ok-eq, not_ok,
}
use secure_file_system.Base.Lists.{first, All, IsDistinct, first-All, All-of_map}
use secure_file_system.Base.Text.{Text}
use secure_file_system.Database.{User, Database}
use secure_file_system.Python.Hashlib.{Hashlib}
use secure_file_system.Scripts.Users.{
  generate_api_key, ExitStatus, with_key, same_row, add_user, update_user, issue_key,
}

-- The rows of the table of users: identifiers are unique, and no row has the new key's hash or the
-- new row's identifier.
pub record IsReady (hash : Text) (id : ℕ) (users : List User) : Type 0 where
  pub apart : IsDistinct (map (λ r. r.id) users)
  pub unused : All (λ r. (r.api_key_hash == hash) ≡ false) users
  pub free : All (λ r. (r.id == id) ≡ false) users

-- The row with a hash, if it is the only one with that identifier.
pub record IsOnly (hash : Text) (user : User) (users : List User) : Type 0 where
  pub found : first (λ r. r.api_key_hash == hash) users ≡ some user
  pub only : All (λ r. r.id ≡ user.id → r.api_key_hash ≡ hash) users

module _ (hash : Text) where
  has_hash : User → Bool
  has_hash r = r.api_key_hash == hash

  added-IsOnly :
      (user : User) (users : List User)
      → user.api_key_hash ≡ hash
      → All (λ r. (r.api_key_hash == hash) ≡ false) users
      → All (λ r. (r.id == user.id) ≡ false) users
      → IsOnly hash user (users ++ (user ∷ []))
  added-IsOnly user [] e unused free = record { found = ground arith; only = ((λ q. e), tt) }
  added-IsOnly user (r ∷ users) e unused free =
      let rest = added-IsOnly user users e unused.1 free.1 in
      record { found = rw (unused.0) rest.found; only = ((λ q. absurd (ground arith)), rest.only) }

  -- The rows with one of them written back.
  abbrev written_back : User → List User → List User
  written_back user users = map (λ r. if same_row user r then user else r) users

  written_back-only :
      (user : User) (users : List User)
      → user.api_key_hash ≡ hash
      → All (λ r. r.id ≡ user.id → r.api_key_hash ≡ hash) (written_back user users)
  written_back-only user [] e = tt
  written_back-only user (r ∷ users) e = ((λ q. ground arith), written_back-only user users e)

  written_back-found :
      (email : Text) (user old : User) (users : List User)
      → user.api_key_hash ≡ hash
      → user.id ≡ old.id
      → IsDistinct (map (λ r. r.id) users)
      → All (λ r. (r.api_key_hash == hash) ≡ false) users
      → first (λ r. r.email == email) users ≡ some old
      → first (λ r. r.api_key_hash == hash) (written_back user users) ≡ some user
  written_back-found email user old [] e i apart unused f = cc
  written_back-found email user old (r ∷ users) e i apart unused f =
      elim (Bool-cases (r.email == email)) [
        | inl t ↦
            let same : r ≡ old = some-injective r old (rw t at f) in
            let row : (r.id == user.id) ≡ true = ground (arith, ap (λ (q : User). q.id) same) in
            rw row (ground arith)
        | inr t ↦
            let f' : first (λ q. q.email == email) users ≡ some old = rw t at f in
            let others = All-of_map (λ y. y ≢ r.id) (λ (q : User). q.id) users apart.0 in
            let (other, test) = first-All _ (λ q. q.email == email) users old others f' in
            let row : (r.id == user.id) ≡ false = ground arith in
            rw (row, unused.0) (written_back-found email user old users e i apart.1 unused.1 f')
      ]

-- The outcome of the script, if it issued a key.
abbrev pub Issued : Hashlib → Database → Result ExitStatus (ℕ × Text) × Database → Type 0
Issued h db (err status, db') = db' ≡ db
Issued h db (ok (user_id, api_key), db') =
    (user : User) × (user.id ≡ user_id) × IsOnly (hash_api_key h api_key) user db'.users

pub issue_key-Issued :
    (h : Hashlib) (email : Text) (rotate : Bool) (drawn : Text) (id : ℕ) (db : Database)
    (o : Option User)
    → IsReady (hash_api_key h (generate_api_key drawn)) id db.users
    → first (λ r. r.email == email) db.users ≡ o
    → Issued h db (issue_key h email rotate drawn id o db)
unfolding issue_key add_user update_user with_key
issue_key-Issued h email true drawn id db none ready f = refl
issue_key-Issued h email false drawn id db none ready f =
    (_, refl, added-IsOnly _ _ db.users refl ready.unused ready.free)
issue_key-Issued h email true drawn id db (some old) ready f =
    let hash = hash_api_key h (generate_api_key drawn) in
    let user : User = with_key h (generate_api_key drawn) old in
    (
      user,
      refl,
      record {
        found =
            written_back-found hash email user old db.users refl refl ready.apart ready.unused f;
        only = written_back-only hash user db.users refl;
      },
    )
issue_key-Issued h email false drawn id db (some old) ready f = refl

pub Issued-ok :
    (h : Hashlib) (db : Database) (p : Result ExitStatus (ℕ × Text) × Database) (user_id : ℕ)
    (api_key : Text)
    → Issued h db p
    → p.0 ≡ ok (user_id, api_key)
    → (user : User) × (user.id ≡ user_id) × IsOnly (hash_api_key h api_key) user p.1.users
Issued-ok h db (err status, db') user_id api_key i e = absurd (not_ok e)
Issued-ok h db (ok (a, b), db') user_id api_key i e =
    subst
      (λ (p : ℕ × Text).
        (user : User) × (user.id ≡ p.0) × IsOnly (hash_api_key h p.1) user db'.users)
      (ok-eq (ok (a, b)) refl e) i

pub Issued-err :
    (h : Hashlib) (db : Database) (p : Result ExitStatus (ℕ × Text) × Database)
    (status : ExitStatus)
    → Issued h db p
    → p.0 ≡ err status
    → p.1 ≡ db
Issued-err h db (err other, db') status i e = i
Issued-err h db (ok r, db') status i e = cc

pub issue_key-key :
    (h : Hashlib) (email : Text) (rotate : Bool) (drawn : Text) (id : ℕ) (db : Database)
    (o : Option User) (user_id : ℕ) (api_key : Text)
    → (issue_key h email rotate drawn id o db).0 ≡ ok (user_id, api_key)
    → api_key ≡ generate_api_key drawn
unfolding issue_key
issue_key-key h email true drawn id db none user_id api_key e = cc
issue_key-key h email false drawn id db none user_id api_key e =
    ap (λ (p : ℕ × Text). p.1) (ok-eq _ e refl)
issue_key-key h email true drawn id db (some old) user_id api_key e =
    ap (λ (p : ℕ × Text). p.1) (ok-eq _ e refl)
issue_key-key h email false drawn id db (some old) user_id api_key e = cc
