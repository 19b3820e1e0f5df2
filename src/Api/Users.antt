-- ===== src/Api/Users.antt =====
-- api_service/services/auth.py: API keys.
use secure_file_system.Api.{HttpStatus}
use secure_file_system.Base.{
  not, ◌||◌, Option, none, some, [], ◌==◌, ◌!=◌, list_eq, nat_eq, if◌then◌else◌, Result, ok, err,
  ◌>>=◌,
}
use secure_file_system.Base.Lists.{first}
use secure_file_system.Base.Text.{Text, codes}
use secure_file_system.Database.{User, Database}
use secure_file_system.Python.Hashlib.{Hashlib}
use secure_file_system.Python.Hex.{hex}
use secure_file_system.Python.Strings.{starts_with, partition, strip}
use secure_file_system.Python.Unicode.{Unicode}
use secure_file_system.Python.Utf8.{utf8}

abbrev pub api_key_prefix : Text
api_key_prefix = codes "sfs_"

unfoldable pub hash_api_key : Hashlib → Text → Text
hash_api_key h api_key = hex (h.sha256 (utf8 api_key))

-- The key of the header, or 401.
unfoldable pub bearer_key : Unicode → Option Text → Result HttpStatus Text
unfolding partition
bearer_key u authorization =
    let header : Text = elim authorization [ none ↦ [] | some s ↦ s ] in
    let (scheme, (sep, api_key)) = partition 32 header in
    if (u.lower scheme != codes "bearer") || not (starts_with api_key api_key_prefix)
    then err 401
    else ok api_key

-- The user with a key, or 401. `str.strip` drops what Unicode counts as white space.
unfoldable pub key_holder : Hashlib → Unicode → Database → Text → Result HttpStatus User
key_holder h u db api_key =
    elim (first (λ r. r.api_key_hash == hash_api_key h (strip u.is_space api_key)) db.users) [
      | none ↦ err 401
      | some user ↦ ok user
    ]

unfoldable pub get_current_user :
    Hashlib → Unicode → Option Text → Database → Result HttpStatus User
unfolding bearer_key key_holder
get_current_user h u authorization db = do
  api_key ← bearer_key u authorization
  key_holder h u db api_key
