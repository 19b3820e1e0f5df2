-- ===== src/StorageNode/Storage.antt =====
-- storage_node/storage.py: the shard directory. A directory is a dictionary from names to contents.
-- `history` keeps the directories that a write or a delete passes through, the latest in front: what
-- a crash can leave. What the operating system does to a call is an argument, `Faults`.
pub mod Atomic
pub mod Reading
pub mod Ids
pub mod Deleting
pub mod Contract
pub mod Views
pub mod Refinement
use secure_file_system.Base.Dict
use secure_file_system.Base.{
  ℕ, Bool, true, false, ◌||◌, Option, none, some, List, [], ◌∷◌, ◌++◌, ◌!=◌, list_eq, nat_eq,
  if◌then◌else◌, Result, ok, err, Done,
}
use secure_file_system.Base.Dict.{Dict}
use secure_file_system.Base.Lists.{length, take, drop}
use secure_file_system.Base.Text.{Text, Bytes, codes}
use secure_file_system.Python.Hashlib.{Hashlib}
use secure_file_system.Python.Hex.{hex}
use secure_file_system.Python.Unicode.{Unicode}
use secure_file_system.Python.Uuid.{uuid_text, uuid_of}

-- ShardNotFoundError, ShardExistsError, ShardCorruptedError, StorageFullError, any other OSError
pub data StorageError : Type 0 where
  shard_not_found shard_exists shard_corrupted storage_full os_error : StorageError

-- the `errno` of an OSError: ENOSPC, EDQUOT, or another
pub data Errno : Type 0 where
  no_space quota_exceeded other_errno : Errno

pub record Faults : Type 0 where
  -- `mkdir` or `mkstemp` fails
  pub at_open : Bool
  -- the write fails, with that many bytes of the file on disk
  pub at_write : Option (Errno × ℕ)
  -- `link` fails for a reason other than a name that is taken
  pub at_link : Option Errno
  -- the `unlink` of the temporary file fails
  pub at_cleanup : Bool
  -- the `fsync` of the directory fails
  pub at_sync : Bool
  -- `read_bytes` fails for a reason other than a file that is missing
  pub at_read : Bool
  -- the `unlink` of a shard fails for such a reason
  pub at_unlink : Bool

abbrev pub no_faults : Faults
no_faults = record {
  at_open = false;
  at_write = none;
  at_link = none;
  at_cleanup = false;
  at_sync = false;
  at_read = false;
  at_unlink = false;
}

pub record Disk : Type 0 where
  pub files : Dict Text Bytes
  pub history : List (Dict Text Bytes)

abbrev pub become : Dict Text Bytes → Disk → Disk
become files d = record { files = files; history = d.files ∷ d.history }

abbrev pub digest_size : ℕ
digest_size = 32

abbrev pub temp_prefix : Text
temp_prefix = codes ".tmp-"

-- `ValueError` is `none`.
unfoldable pub validate_shard_id : Unicode → Text → Option Text
validate_shard_id u shard_id = elim (uuid_of u shard_id) [
  | none ↦ none
  | some id ↦ if uuid_text id != u.lower shard_id then none else some (uuid_text id)
]

-- What the body of the inner `try` raises.
pub data Raised : Type 0 where
  file_exists : Raised
  errno : Errno → Raised

handler : Raised → StorageError
handler file_exists = shard_exists
handler (errno no_space) = storage_full
handler (errno quota_exceeded) = storage_full
handler (errno other_errno) = os_error

-- The two writes to the open temporary file.
fill : Option (Errno × ℕ) → Text → Bytes → Bytes → Disk → Result Raised Done × Disk
fill none tmp digest bytes d = (
  ok tt,
  become (Dict.put tmp (digest ++ bytes) d.files) (become (Dict.put tmp digest d.files) d),
)
fill (some (e, n)) tmp digest bytes d =
    (err (errno e), become (Dict.put tmp (take n (digest ++ bytes)) d.files) d)

-- `os.link`, which fails if the name is taken.
link_new : Text → Option Bytes → Option Bytes → Disk → Result Raised Done × Disk
link_new path none there d = (err (errno other_errno), d)
link_new path (some content) (some old) d = (err file_exists, d)
link_new path (some content) none d = (ok tt, become (Dict.put path content d.files) d)

link : Option Errno → Text → Text → Disk → Result Raised Done × Disk
unfolding link_new
link (some e) tmp path d = (err (errno e), d)
link none tmp path d = link_new path (Dict.get tmp d.files) (Dict.get path d.files) d

-- `finally`, and the return of the digest if nothing was raised.
finish : Bool → Bool → Text → Bytes → Result Raised Done × Disk → Result StorageError Text × Disk
unfolding handler
finish true sync tmp digest (r, d) = (err os_error, d)
finish false sync tmp digest (err e, d) = (err (handler e), become (Dict.remove tmp d.files) d)
finish false true tmp digest (ok _, d) = (err os_error, become (Dict.remove tmp d.files) d)
finish false false tmp digest (ok _, d) = (ok (hex digest), become (Dict.remove tmp d.files) d)

then_link : Faults → Text → Text → Result Raised Done × Disk → Result Raised Done × Disk
unfolding link
then_link f tmp path (err e, d) = (err e, d)
then_link f tmp path (ok _, d) = link f.at_link tmp path d

module _ (h : Hashlib) where
  -- `mkstemp` makes the name from random characters, `suffix`.
  unfoldable pub write_shard : Faults → Text → Text → Bytes → Disk → Result StorageError Text × Disk
  unfolding fill then_link finish
  write_shard f suffix shard_id bytes d =
      let digest = h.sha256 bytes in
      let tmp = temp_prefix ++ suffix in
      if f.at_open
      then (err os_error, d)
      else finish f.at_cleanup f.at_sync tmp digest (
          then_link f tmp shard_id
            (fill f.at_write tmp digest bytes (become (Dict.put tmp [] d.files) d)))

  unfoldable pub check : Bytes → Result StorageError Bytes
  check raw =
      let stored_digest = take digest_size raw in
      let bytes = drop digest_size raw in
      if (length stored_digest != digest_size) || (h.sha256 bytes != stored_digest)
      then err shard_corrupted
      else ok bytes

  unfoldable pub read_shard : Faults → Text → Disk → Result StorageError Bytes
  unfolding check
  read_shard f shard_id d =
      if f.at_read
      then err os_error
      else elim (Dict.get shard_id d.files) [ none ↦ err shard_not_found | some raw ↦ check raw ]

unfoldable pub delete_shard : Faults → Text → Disk → Result StorageError Bool × Disk
delete_shard f shard_id d =
    if f.at_unlink then (err os_error, d) else elim (Dict.get shard_id d.files) [
      | none ↦ (ok false, d)
      | some raw ↦
          let d' = become (Dict.remove shard_id d.files) d in
          if f.at_sync then (err os_error, d') else (ok true, d')
    ]
