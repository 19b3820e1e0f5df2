-- ===== src/Tests/StoreRuns.antt =====
-- Calls of the shard store, one after the other.
use mathlib.Core.Option
use secure_file_system.Base.Dict
use secure_file_system.Base.{◌≡◌, refl, true, some, List, [], ◌∷◌, list_eq, nat_eq, ok, err}
use secure_file_system.Base.Dict.{Dict}
use secure_file_system.Base.Text.{Text, codes}
use secure_file_system.Python.Hashlib.{sample_hashlib, sample_hashlib-IsHashlib}
use secure_file_system.Python.Hex.{hex_digit, hex, int_16}
use secure_file_system.Python.Strings.{starts_with, remove_from, strip}
use secure_file_system.Python.Unicode.{ascii_only}
use secure_file_system.Python.Uuid.{uuid_text, uuid_of}
use secure_file_system.StorageNode.Storage.{
  delete_shard, shard_exists, os_error, no_faults, validate_shard_id, write_shard, check,
  read_shard,
}
use secure_file_system.StorageNode.Storage.Atomic.{fresh_disk}
use secure_file_system.StorageNode.Storage.Contract.{
  put_call, get_call, delete_call, put_reply, get_reply, delete_reply, IsName, StoreSteps,
}
use secure_file_system.StorageNode.Storage.Ids.{validate_shard_id-IsSafeName}
use secure_file_system.StorageNode.Storage.Refinement.{
  Job, perform, perform_all, perform_all-StoreSteps,
}
use secure_file_system.StorageNode.Storage.Views.{view}

abbrev id_six : Text
id_six = codes "00000000-0000-0000-0000-000000000006"

six_validated : validate_shard_id ascii_only id_six ≡ some id_six
unfolding validate_shard_id uuid_of uuid_text hex_digit remove_from starts_with strip int_16 nat_eq
    list_eq Option.bind
six_validated = refl

id_six-IsName : IsName id_six
id_six-IsName =
    (validate_shard_id-IsSafeName ascii_only id_six id_six six_validated).2.not_temporary

-- The second write finds the identifier taken; a read and a delete fail; the second delete is done,
-- and its `fsync` fails.
abbrev jobs : List Job
jobs =
    record { call = put_call id_six (7 ∷ []); faults = no_faults; suffix = codes "a" }
    ∷ record { call = put_call id_six (8 ∷ []); faults = no_faults; suffix = codes "b" }
    ∷ record { call = get_call id_six; faults = no_faults; suffix = [] }
    ∷ record { call = get_call id_six; faults = record no_faults { at_read = true }; suffix = [] }
    ∷ record {
      call = delete_call id_six;
      faults = record no_faults { at_unlink = true };
      suffix = [];
    }
    ∷ record {
      call = delete_call id_six;
      faults = record no_faults { at_sync = true };
      suffix = [];
    }
    ∷ []

replies :
    (perform_all sample_hashlib jobs (fresh_disk [])).0
    ≡ (put_call id_six (7 ∷ []), put_reply (ok (hex (sample_hashlib.sha256 (7 ∷ [])))))
      ∷ (put_call id_six (8 ∷ []), put_reply (err shard_exists))
      ∷ (get_call id_six, get_reply (ok (7 ∷ [])))
      ∷ (get_call id_six, get_reply (err os_error))
      ∷ (delete_call id_six, delete_reply (err os_error))
      ∷ (delete_call id_six, delete_reply (err os_error))
      ∷ []
unfolding perform_all perform write_shard read_shard check delete_shard Dict.get Dict.put
    Dict.remove nat_eq list_eq
replies = refl

perform_all-StoreSteps_example :
    let (trace, d') = perform_all sample_hashlib jobs (fresh_disk []) in
    StoreSteps sample_hashlib (view sample_hashlib (fresh_disk [])) trace (view sample_hashlib d')
perform_all-StoreSteps_example =
    perform_all-StoreSteps sample_hashlib jobs (fresh_disk []) sample_hashlib-IsHashlib (
      id_six-IsName,
      (id_six-IsName, (id_six-IsName, (id_six-IsName, (id_six-IsName, (id_six-IsName, tt))))),
    )
