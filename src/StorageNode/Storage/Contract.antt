-- ===== src/StorageNode/Storage/Contract.antt =====
-- What storage_node/storage.py promises, with no directory in it: a map from identifiers to slots,
-- and the replies and the next maps that each operation may have. An operation that raises
-- `OSError` may have been done all the same.
use secure_file_system.Base.{
  ◌≡◌, ◌≢◌, ◌⊎◌, Bool, true, false, List, [], ◌∷◌, ◌++◌, ◌==◌, list_eq, nat_eq, if◌then◌else◌,
  Result, ok, err,
}
use secure_file_system.Base.Text.{Text, Bytes}
use secure_file_system.Python.Hashlib.{Hashlib}
use secure_file_system.Python.Hex.{hex}
use secure_file_system.StorageNode.Storage.{
  StorageError, shard_not_found, shard_exists, shard_corrupted, storage_full, os_error, temp_prefix,
}

-- What is under an identifier: nothing, a file whose digest does not fit, or data.
pub data Slot : Type 0 where
  vacant : Slot
  damaged : Slot
  holding : Bytes → Slot

abbrev pub Shards : Type 0
Shards = Text → Slot

pub data StoreCall : Type 0 where
  put_call : Text → Bytes → StoreCall
  get_call : Text → StoreCall
  delete_call : Text → StoreCall

pub data StoreReply : Type 0 where
  put_reply : Result StorageError Text → StoreReply
  get_reply : Result StorageError Bytes → StoreReply
  delete_reply : Result StorageError Bool → StoreReply

-- A name that is no temporary file's.
abbrev pub IsName : Text → Type 0
IsName j = (suffix : Text) → j ≢ temp_prefix ++ suffix

abbrev pub Unchanged : Shards → Shards → Type 0
Unchanged s t = (j : Text) → IsName j → t j ≡ s j

abbrev pub Changed : Text → Slot → Shards → Shards → Type 0
Changed id slot s t = (j : Text) → IsName j → t j ≡ (if j == id then slot else s j)

abbrev pub read_reply : Slot → Result StorageError Bytes
read_reply vacant = err shard_not_found
read_reply damaged = err shard_corrupted
read_reply (holding bytes) = ok bytes

-- One call, its reply, and the map after it.
pub data StoreStep (h : Hashlib) (s t : Shards) : StoreCall → StoreReply → Type 0 where
  put_new :
      {id : Text} {bytes : Bytes}
      → s id ≡ vacant
      → Changed id (holding bytes) s t
      → StoreStep h s t (put_call id bytes) (put_reply (ok (hex (h.sha256 bytes))))
  put_unsure :
      {id : Text} {bytes : Bytes}
      → s id ≡ vacant
      → Changed id (holding bytes) s t
      → StoreStep h s t (put_call id bytes) (put_reply (err os_error))
  put_taken :
      {id : Text} {bytes : Bytes}
      → s id ≢ vacant
      → Unchanged s t
      → StoreStep h s t (put_call id bytes) (put_reply (err shard_exists))
  put_failed :
      {id : Text} {bytes : Bytes} {e : StorageError}
      → (e ≡ storage_full) ⊎ (e ≡ os_error)
      → Unchanged s t
      → StoreStep h s t (put_call id bytes) (put_reply (err e))
  get_done :
      {id : Text} {r : Result StorageError Bytes}
      → r ≡ read_reply (s id)
      → Unchanged s t
      → StoreStep h s t (get_call id) (get_reply r)
  get_failed :
      {id : Text} → Unchanged s t → StoreStep h s t (get_call id) (get_reply (err os_error))
  delete_done :
      {id : Text}
      → s id ≢ vacant
      → Changed id vacant s t
      → StoreStep h s t (delete_call id) (delete_reply (ok true))
  delete_unsure :
      {id : Text}
      → s id ≢ vacant
      → Changed id vacant s t
      → StoreStep h s t (delete_call id) (delete_reply (err os_error))
  delete_failed :
      {id : Text} → Unchanged s t → StoreStep h s t (delete_call id) (delete_reply (err os_error))
  delete_missing :
      {id : Text}
      → s id ≡ vacant
      → Unchanged s t
      → StoreStep h s t (delete_call id) (delete_reply (ok false))

-- Calls one after the other.
pub data StoreSteps (h : Hashlib) : Shards → List (StoreCall × StoreReply) → Shards → Type 0 where
  none_left : {s : Shards} → StoreSteps h s [] s
  one_more :
      {s t v : Shards} {c : StoreCall} {r : StoreReply} {rest : List (StoreCall × StoreReply)}
      → StoreStep h s t c r
      → StoreSteps h t rest v
      → StoreSteps h s ((c, r) ∷ rest) v
