-- ===== src/StorageNode/Storage/Atomic.antt =====
-- What a write leaves in the shard directory of storage_node/storage.py, at its end and at every
-- moment of it, whatever the operating system does.
use secure_file_system.Base.Dict
-- Every name but the temporary one has its old contents, or is the new shard, whole.
use secure_file_system.Base.{
  ℕ, ◌≡◌, refl, ◌≢◌, ◌⊎◌, inl, inr, Bool, true, false, Option, none, some, [], ◌∷◌, ◌++◌, arith,
  list_eq, nat_eq, Bool-cases, Result, ok, err, Done,
}
use secure_file_system.Base.Dict.{Dict, get-put, get-remove}
use secure_file_system.Base.Lists.{take, All}
use secure_file_system.Base.Text.{Text, Bytes}
use secure_file_system.Python.Hashlib.{Hashlib}
use secure_file_system.StorageNode.Storage.{
  Errno, Faults, Disk, temp_prefix, Raised, write_shard, fill, link_new, link, finish, then_link,
}

pub record IsWhole (tmp shard_id : Text) (whole : Bytes) (before after : Dict Text Bytes)
    : Type 0 where
  pub at :
      (j : Text)
      → j ≢ tmp
      → (Dict.get j after ≡ Dict.get j before)
        ⊎ ((j ≡ shard_id) × (Dict.get j before ≡ none) × (Dict.get j after ≡ some whole))

module _ (tmp shard_id : Text) (whole : Bytes) (before : Dict Text Bytes) where
  abbrev Whole : Dict Text Bytes → Type 0
  Whole = IsWhole tmp shard_id whole before

  abbrev Trace : Disk → Type 0
  Trace d = Whole d.files × All Whole d.history

  Whole-refl : Whole before
  Whole-refl = record { at = λ j n. inl refl }

  Whole-put : (after : Dict Text Bytes) (c : Bytes) → Whole after → Whole (Dict.put tmp c after)
  Whole-put after c w = record { at = λ j n. ground (arith, w.at j n, get-put j tmp c after) }

  Whole-remove : (after : Dict Text Bytes) → Whole after → Whole (Dict.remove tmp after)
  Whole-remove after w = record { at = λ j n. ground (arith, w.at j n, get-remove j tmp after) }

  Whole-link :
      (after : Dict Text Bytes)
      → Dict.get shard_id after ≡ none
      → Whole after
      → Whole (Dict.put shard_id whole after)
  Whole-link after absent w = record {
    at = λ j n. ground (arith, w.at j n, get-put j shard_id whole after);
  }

  -- Until the link the temporary file holds the whole shard, if nothing was raised.
  abbrev Filled : Result Raised Done × Disk → Type 0
  Filled (err e, d) = Trace d
  Filled (ok _, d) = Trace d × (Dict.get tmp d.files ≡ some whole)

  abbrev Traced : Result Raised Done × Disk → Type 0
  Traced (r, d) = Trace d

  fill-Filled :
      (fault : Option (Errno × ℕ)) (digest bytes : Bytes) (d : Disk)
      → digest ++ bytes ≡ whole
      → Trace d
      → Filled (fill fault tmp digest bytes d)
  unfolding fill
  fill-Filled none digest bytes d e (w, ws) = (
    (Whole-put d.files (digest ++ bytes) w, (Whole-put d.files digest w, (w, ws))),
    rw e (ground (arith, get-put tmp tmp whole d.files)),
  )
  fill-Filled (some (x, n)) digest bytes d e (w, ws) =
      (Whole-put d.files (take n (digest ++ bytes)) w, (w, ws))

  link_new-Traced :
      (there : Option Bytes) (d : Disk)
      → Dict.get shard_id d.files ≡ there
      → Trace d
      → Traced (link_new shard_id (some whole) there d)
  unfolding link_new
  link_new-Traced none d e (w, ws) = (Whole-link d.files e w, (w, ws))
  link_new-Traced (some old) d e t = t

  link-Traced :
      (fault : Option Errno) (d : Disk)
      → Dict.get tmp d.files ≡ some whole
      → Trace d
      → Traced (link fault tmp shard_id d)
  unfolding link
  link-Traced (some e) d full t = t
  link-Traced none d full t = rw full (link_new-Traced (Dict.get shard_id d.files) d refl t)

  then_link-Traced :
      (f : Faults) (r : Result Raised Done × Disk) → Filled r → Traced (then_link f tmp shard_id r)
  unfolding then_link
  then_link-Traced f (err e, d) t = t
  then_link-Traced f (ok _, d) (t, full) = link-Traced f.at_link d full t

  finish-Trace :
      (cleanup sync : Bool) (digest : Bytes) (r : Result Raised Done × Disk)
      → Traced r
      → Trace (finish cleanup sync tmp digest r).1
  unfolding finish
  finish-Trace true sync digest (r, d) t = t
  finish-Trace false sync digest (err e, d) (w, ws) = (Whole-remove d.files w, (w, ws))
  finish-Trace false true digest (ok _, d) (w, ws) = (Whole-remove d.files w, (w, ws))
  finish-Trace false false digest (ok _, d) (w, ws) = (Whole-remove d.files w, (w, ws))

abbrev pub fresh_disk : Dict Text Bytes → Disk
fresh_disk files = record { files = files; history = [] }

-- Whatever fails, and wherever a crash cuts the write off, every name other than the temporary
-- file's has its old contents, or is the written id, which was absent before and now holds the
-- digest and all of the data.
pub write_shard-IsWhole :
    (h : Hashlib) (f : Faults) (suffix shard_id : Text) (bytes : Bytes) (files : Dict Text Bytes)
    → let d = (write_shard h f suffix shard_id bytes (fresh_disk files)).1 in
      All
        (IsWhole (temp_prefix ++ suffix) shard_id (h.sha256 bytes ++ bytes) files)
        (d.files ∷ d.history)
unfolding write_shard
write_shard-IsWhole h f suffix shard_id bytes files =
    let digest = h.sha256 bytes in
    let tmp = temp_prefix ++ suffix in
    let whole = digest ++ bytes in
    let start = Whole-refl tmp shard_id whole files in
    elim (Bool-cases f.at_open) [
      | inl e ↦ rw e (start, tt)
      | inr e ↦ rw e (
          finish-Trace tmp shard_id whole files f.at_cleanup f.at_sync digest _ (
            then_link-Traced tmp shard_id whole files f _ (
              fill-Filled tmp shard_id whole files f.at_write digest bytes _ refl
                (Whole-put tmp shard_id whole files files [] start, (start, tt)))))
    ]

files-of_fresh :
    (h : Hashlib) (f : Faults) (suffix shard_id : Text) (bytes : Bytes) (d : Disk)
    → (write_shard h f suffix shard_id bytes d).1.files
      ≡ (write_shard h f suffix shard_id bytes (fresh_disk d.files)).1.files
unfolding write_shard
files-of_fresh h f suffix shard_id bytes d = ground arith

-- A shard that is there keeps its contents through every write.
pub write_shard-keeps :
    (h : Hashlib) (f : Faults) (suffix shard_id : Text) (bytes : Bytes) (d : Disk) (j : Text)
    (old : Bytes)
    → j ≢ temp_prefix ++ suffix
    → Dict.get j d.files ≡ some old
    → Dict.get j (write_shard h f suffix shard_id bytes d).1.files ≡ some old
write_shard-keeps h f suffix shard_id bytes d j old other there =
    rw (files-of_fresh h f suffix shard_id bytes d)
      (ground (arith, (write_shard-IsWhole h f suffix shard_id bytes d.files).0.at j other))
