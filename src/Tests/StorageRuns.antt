-- ===== src/Tests/StorageRuns.antt =====
-- The shard store on small directories.
use secure_file_system.Base.Dict
use mathlib.Core.Option
use secure_file_system.Base.{
  ◌≡◌, refl, ◌↔◌, false, none, some, [], ◌∷◌, ◌++◌, arith, list_eq, nat_eq, ok, err,
}
use secure_file_system.Base.Dict.{Dict}
use secure_file_system.Base.Lists.{take, All}
use secure_file_system.Base.Text.{Text, Bytes, codes}
use secure_file_system.Python.Hashlib.{sample_hashlib, sample_hashlib-IsHashlib}
use secure_file_system.Python.Hex.{hex_digit, hex, int_16}
use secure_file_system.Python.Strings.{starts_with, remove_from, strip}
use secure_file_system.Python.Unicode.{ascii_only, ascii_only-IsUnicode}
use secure_file_system.Python.Uuid.{uuid_text, uuid_of, IsCanonical}
use secure_file_system.StorageNode.Storage.{
  shard_corrupted, storage_full, no_space, Faults, no_faults, temp_prefix, validate_shard_id,
  write_shard, read_shard,
}
use secure_file_system.StorageNode.Storage.Atomic.{IsWhole, fresh_disk, write_shard-IsWhole}
use secure_file_system.StorageNode.Storage.Ids.{
  IsSafeName, validate_shard_id-IsSafeName, validate_shard_id-uuid_text,
}
use secure_file_system.StorageNode.Storage.Reading.{read_shard_iff}

abbrev id_five : Text
id_five = codes "00000000-0000-0000-0000-000000000005"

id_text : uuid_text 5 ≡ id_five
unfolding uuid_text hex_digit
id_text = refl

-- Braces and the URN form are read, and are no canonical identifier.
id_forms :
    (uuid_of ascii_only (codes "{00000000000000000000000000000005}") ≡ some 5)
    × (uuid_of ascii_only (codes "urn:uuid:00000000-0000-0000-0000-000000000005") ≡ some 5)
    × (uuid_of ascii_only (codes "../../etc/passwd") ≡ none)
unfolding uuid_of remove_from starts_with strip int_16 nat_eq Option.bind
id_forms = (refl, refl, refl)

validated : validate_shard_id ascii_only id_five ≡ some id_five
unfolding validate_shard_id uuid_of uuid_text hex_digit remove_from starts_with strip int_16 nat_eq
    list_eq Option.bind
validated = refl

not_canonical : validate_shard_id ascii_only (codes "{00000000000000000000000000000005}") ≡ none
unfolding validated
not_canonical = refl

validate_shard_id-IsSafeName_example :
    (id_five ≡ ascii_only.lower id_five) × IsCanonical id_five × IsSafeName id_five
validate_shard_id-IsSafeName_example =
    validate_shard_id-IsSafeName ascii_only id_five id_five validated

validate_shard_id-uuid_text_example :
    validate_shard_id ascii_only (uuid_text 5) ≡ some (uuid_text 5)
validate_shard_id-uuid_text_example =
    validate_shard_id-uuid_text ascii_only 5 ascii_only-IsUnicode (omega arith)

abbrev suffix : Text
suffix = codes "x1"

abbrev shard : Bytes
shard = 7 ∷ 8 ∷ []

abbrev whole : Bytes
whole = sample_hashlib.sha256 shard ++ shard

-- The disk fills up in the middle of the digest.
abbrev disk_full : Faults
disk_full = record no_faults { at_write = some (no_space, 20) }

write_shard-IsWhole_example :
    let d = (write_shard sample_hashlib disk_full suffix id_five shard (fresh_disk [])).1 in
    All (IsWhole (temp_prefix ++ suffix) id_five whole []) (d.files ∷ d.history)
write_shard-IsWhole_example = write_shard-IsWhole sample_hashlib disk_full suffix id_five shard []

write_fails : write_shard sample_hashlib disk_full suffix id_five shard (fresh_disk []) ≡ (
  err storage_full,
  record {
    files = [];
    history =
        ((temp_prefix ++ suffix, take 20 whole) ∷ [])
        ∷ ((temp_prefix ++ suffix, []) ∷ [])
        ∷ []
        ∷ [];
  },
)
unfolding write_shard Dict.get Dict.put Dict.remove nat_eq list_eq
write_fails = refl

written :
    (write_shard sample_hashlib no_faults suffix id_five shard (fresh_disk [])).0
    ≡ ok (hex (sample_hashlib.sha256 shard))
unfolding write_shard Dict.get Dict.put Dict.remove nat_eq list_eq
written = refl

read_shard_iff_example :
    (read_shard sample_hashlib no_faults id_five (fresh_disk ((id_five, whole) ∷ [])) ≡ ok shard)
    ↔ ((no_faults.at_read ≡ false) × (Dict.get id_five ((id_five, whole) ∷ []) ≡ some whole))
read_shard_iff_example =
    read_shard_iff sample_hashlib no_faults id_five shard (fresh_disk ((id_five, whole) ∷ []))
      sample_hashlib-IsHashlib

-- One flipped byte is noticed.
corrupt_read :
    read_shard sample_hashlib no_faults id_five
      (fresh_disk ((id_five, sample_hashlib.sha256 shard ++ (7 ∷ 9 ∷ [])) ∷ []))
    ≡ err shard_corrupted
unfolding read_shard Dict.get nat_eq list_eq
corrupt_read = refl
