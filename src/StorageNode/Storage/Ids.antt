-- ===== src/StorageNode/Storage/Ids.antt =====
-- Which identifiers `validate_shard_id` of storage_node/storage.py accepts.

-- A name that a client cannot use to leave the directory, nor to reach a temporary file.
use secure_file_system.Base.{ℕ, ◌<◌, ◌≡◌, refl, ◌≢◌, true, Option, none, some, [], ◌∷◌, ◌++◌, arith}
use secure_file_system.Base.Lists.{All}
use secure_file_system.Base.Text.{Text}
use secure_file_system.Python.Hex.{pow16}
use secure_file_system.Python.Unicode.{Unicode, IsUnicode}
use secure_file_system.Python.Uuid.{
  uuid_text, uuid_of, is_id_char, IsCanonical, uuid_text-IsCanonical, uuid_of-uuid_text,
  lower-uuid_text,
}
use secure_file_system.StorageNode.Storage.{temp_prefix, validate_shard_id}

pub record IsSafeName (s : Text) : Type 0 where
  pub no_slash : All (λ c. c ≢ 47) s
  pub no_dot : All (λ c. c ≢ 46) s
  pub not_temporary : (suffix : Text) → s ≢ temp_prefix ++ suffix

chars-no_slash : (s : Text) → All (λ c. is_id_char c ≡ true) s → All (λ c. c ≢ 47) s
chars-no_slash [] h = tt
chars-no_slash (c ∷ s) h = (ground arith, chars-no_slash s h.1)

chars-no_dot : (s : Text) → All (λ c. is_id_char c ≡ true) s → All (λ c. c ≢ 46) s
chars-no_dot [] h = tt
chars-no_dot (c ∷ s) h = (ground arith, chars-no_dot s h.1)

no_dot-not_temporary : (s suffix : Text) → All (λ c. c ≢ 46) s → s ≢ temp_prefix ++ suffix
no_dot-not_temporary [] suffix h e = cc
no_dot-not_temporary (c ∷ s) suffix h e = ground arith

pub IsCanonical-IsSafeName : {s : Text} → IsCanonical s → IsSafeName s
IsCanonical-IsSafeName {s} h = record {
  no_slash = chars-no_slash s h.chars;
  no_dot = chars-no_dot s h.chars;
  not_temporary = λ suffix. no_dot-not_temporary s suffix (chars-no_dot s h.chars);
}

validate-cases :
    (u : Unicode) (s c : Text) (o : Option ℕ)
    → uuid_of u s ≡ o
    → validate_shard_id u s ≡ some c
    → (n : ℕ) × (o ≡ some n) × (c ≡ uuid_text n) × (c ≡ u.lower s)
unfolding validate_shard_id
validate-cases u s c none e h = cc (rw (e, validate_shard_id) at h)
validate-cases u s c (some n) e h = (n, refl, ground arith, ground arith)

-- An accepted identifier is the lower-case form of what was sent, has 36 characters, each a
-- lower-case hexadecimal digit or a dash, and so no slash and no dot, and names no temporary file.
pub validate_shard_id-IsSafeName :
    (u : Unicode) (s c : Text)
    → validate_shard_id u s ≡ some c
    → (c ≡ u.lower s) × IsCanonical c × IsSafeName c
validate_shard_id-IsSafeName u s c h =
    let (n, e, text, low) = validate-cases u s c (uuid_of u s) refl h in
    let canonical : IsCanonical c = rw text (uuid_text-IsCanonical n) in
    (low, canonical, IsCanonical-IsSafeName canonical)

-- Every identifier that the API service makes, the text of a 128-bit number, is accepted unchanged.
pub validate_shard_id-uuid_text :
    (u : Unicode) (n : ℕ)
    → IsUnicode u
    → n < pow16 32
    → validate_shard_id u (uuid_text n) ≡ some (uuid_text n)
unfolding validate_shard_id
validate_shard_id-uuid_text u n laws h =
    rw (uuid_of-uuid_text u n h, validate_shard_id, lower-uuid_text u n laws) (ground arith)
