-- ===== src/Config.antt =====
-- The checks and the key ring of api_service/config.py. Of the settings, those that the checks read
-- are kept, and of pydantic's bounds on single fields those on them.
pub mod Usable
use secure_file_system.Base.Dict
use secure_file_system.Base.{
  ℕ, ◌+◌, Bool, true, false, not, ◌&&◌, ◌||◌, Option, none, some, List, [], ◌∷◌, map, ◌==◌, list_eq,
  nat_eq, ltb, leb, if◌then◌else◌, Result, ok, err, ◌>>=◌,
}
use secure_file_system.Base.Dict.{Dict}
use secure_file_system.Base.Lists.{length, all, keep}
use secure_file_system.Base.Text.{Text}
use secure_file_system.Python.Strings.{partition, split, strip}
use secure_file_system.Python.Unicode.{Unicode}

abbrev pub max_total_shards : ℕ
max_total_shards = 256

abbrev pub min_secret_length : ℕ
min_secret_length = 32

pub record Settings : Type 0 where
  pub secret_key : Text
  pub secret_key_id : Text
  -- "kid:key,kid:key"
  pub previous_secret_keys : Text
  pub shard_data_count : ℕ
  pub shard_parity_count : ℕ
  pub min_ttl_seconds : ℕ
  pub max_ttl_seconds : ℕ

-- The ValueErrors.
pub data ConfigError : Type 0 where
  bad_entry duplicate_key_id too_many_shards ttl_out_of_order key_id_reappears : ConfigError

-- `[A-Za-z0-9_-]`
key_id_char : ℕ → Bool
key_id_char c =
    (leb 65 c && leb c 90)
    || ((leb 97 c && leb c 122) || ((leb 48 c && leb c 57) || ((c == 95) || (c == 45))))

-- `[A-Za-z0-9_-]{1,32}` for the whole text
unfoldable pub is_key_id : Text → Bool
unfolding key_id_char
is_key_id s = leb 1 (length s) && (leb (length s) 32 && all key_id_char s)

-- The bounds that pydantic checks field by field, before `_check_ranges`.
unfoldable pub field_bounds : Settings → Bool
field_bounds s =
    leb min_secret_length (length s.secret_key)
    && (is_key_id s.secret_key_id
        && (leb 1 s.shard_data_count
            && (leb 1 s.shard_parity_count
                && (leb 1 s.min_ttl_seconds && leb 1 s.max_ttl_seconds))))

unfoldable pub non_empty : Text → Bool
non_empty [] = false
non_empty (c ∷ s) = true

unfoldable pub is_some : Option Text → Bool
is_some none = false
is_some (some key) = true

-- One entry, stripped and not empty.
unfoldable pub add_entry : Text → Dict Text Text → Result ConfigError (Dict Text Text)
unfolding is_some
add_entry entry keys =
    let (kid, (sep, key)) = partition 58 entry in
    if not sep || (not (is_key_id kid) || ltb (length key) min_secret_length)
    then err bad_entry
    else if is_some (Dict.get kid keys)
    then err duplicate_key_id
    else ok (Dict.put kid key keys)

unfoldable pub add_entries : List Text → Dict Text Text → Result ConfigError (Dict Text Text)
unfolding add_entry
add_entries [] keys = ok keys
add_entries (entry ∷ rest) keys = do keys' ← add_entry entry keys; add_entries rest keys'

unfoldable pub parse_key_list : Unicode → Text → Result ConfigError (Dict Text Text)
unfolding add_entries non_empty
parse_key_list u raw = add_entries (keep non_empty (map (strip u.is_space) (split 44 raw))) []

unfoldable pub signing_keys : Unicode → Settings → Result ConfigError (Dict Text Text)
signing_keys u s = do
  keys ← parse_key_list u s.previous_secret_keys
  ok (Dict.put s.secret_key_id s.secret_key keys)

unfoldable pub check_ranges : Unicode → Settings → Result ConfigError Settings
unfolding is_some
check_ranges u s =
    if ltb max_total_shards (s.shard_data_count + s.shard_parity_count)
    then err too_many_shards
    else if ltb s.max_ttl_seconds s.min_ttl_seconds
    then err ttl_out_of_order
    else (do
      keys ← parse_key_list u s.previous_secret_keys
      if is_some (Dict.get s.secret_key_id keys) then err key_id_reappears else ok s)
