-- ===== src/Scripts/Users.antt =====
-- scripts/create_user.py, and `generate_api_key` of api_service/services/auth.py. The random part of
-- a key and the identifier of a new row are arguments. What the script prints is its result: the
-- identifier and the key.
use secure_file_system.Api.Users.{api_key_prefix, hash_api_key}
use secure_file_system.Base.{
  ℕ, Bool, Option, none, some, [], ◌∷◌, ◌++◌, map, ◌==◌, list_eq, nat_eq, if◌then◌else◌, Result, ok,
  err,
}
use secure_file_system.Base.Lists.{first}
use secure_file_system.Base.Text.{Text}
use secure_file_system.Database.{User, Database}
use secure_file_system.Python.Hashlib.{Hashlib}
use secure_file_system.Python.Strings.{strip}
use secure_file_system.Python.Unicode.{Unicode}

-- `generate_api_key`, with what `token_urlsafe` drew
abbrev pub generate_api_key : Text → Text
generate_api_key drawn = api_key_prefix ++ drawn

-- What `main` returns where it does not return 0.
abbrev pub ExitStatus : Type 0
ExitStatus = ℕ

unfoldable pub with_key : Hashlib → Text → User → User
with_key h api_key user = record user { api_key_hash = hash_api_key h api_key }

abbrev pub same_row : User → User → Bool
same_row user r = r.id == user.id

unfoldable pub add_user : User → Database → Database
add_user user db = record db { users = db.users ++ (user ∷ []) }

unfoldable pub update_user : User → Database → Database
update_user user db = record db { users = map (λ r. if same_row user r then user else r) db.users }

-- What the command line gives: the address as typed, and `--rotate`.
pub record Arguments : Type 0 where
  pub email : Text
  pub rotate : Bool

abbrev pub email_of : Unicode → Arguments → Text
email_of u args = u.lower (strip u.is_space args.email)

-- From `if user is None and args.rotate` to the end.
unfoldable pub issue_key :
    Hashlib
    → Text
    → Bool
    → Text
    → ℕ
    → Option User
    → Database
    → Result ExitStatus (ℕ × Text) × Database
unfolding add_user update_user with_key
issue_key h email rotate drawn id none db =
    let api_key = generate_api_key drawn in
    let user : User = record { id = id; email = email; api_key_hash = hash_api_key h api_key } in
    if rotate then (err 1, db) else (ok (id, api_key), add_user user db)
issue_key h email rotate drawn id (some user) db =
    let api_key = generate_api_key drawn in
    if rotate
    then (ok (user.id, api_key), update_user (with_key h api_key user) db)
    else (err 1, db)

-- `main`
unfoldable pub create_user :
    Hashlib → Unicode → Arguments → Text → ℕ → Database → Result ExitStatus (ℕ × Text) × Database
unfolding issue_key
create_user h u args drawn id db =
    let email = email_of u args in
    issue_key h email args.rotate drawn id (first (λ r. r.email == email) db.users) db
