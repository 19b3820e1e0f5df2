-- ===== src/StorageNode/Storage/Reading.antt =====
-- What storage_node/storage.py reads back, and what a write and a delete return.
use secure_file_system.Base.Dict
use secure_file_system.Base.{
  ◌≡◌, refl, sym, ap, ◌∙◌, ◌≢◌, ◌↔◌, inl, inr, true, false, none, some, [], ◌++◌, arith, list_eq,
  nat_eq, Bool-cases, Option-cases, ok, err, not_ok,
}
use secure_file_system.Base.Dict.{Dict, get-put, get-remove}
use secure_file_system.Base.Lists.{take-append-drop, take-append_self, drop-append_self}
use secure_file_system.Base.Text.{Text, Bytes}
use secure_file_system.Python.Hashlib.{Hashlib, IsHashlib}
use secure_file_system.Python.Hex.{hex}
use secure_file_system.StorageNode.Storage.{
  shard_exists, os_error, Faults, no_faults, Disk, temp_prefix, write_shard, check, read_shard,
}

module _ (h : Hashlib) where
  check-eq : (raw bytes : Bytes) → check h raw ≡ ok bytes → raw ≡ h.sha256 bytes ++ bytes
  unfolding check
  check-eq raw bytes r = ground (arith, take-append-drop 32 raw)

  pub check_self : (bytes : Bytes) → IsHashlib h → check h (h.sha256 bytes ++ bytes) ≡ ok bytes
  unfolding check
  check_self bytes laws =
      let size = laws.digest_size bytes in
      rw
        (
          take-append_self 32 (h.sha256 bytes) bytes size,
          drop-append_self 32 (h.sha256 bytes) bytes size,
        )
        (ground (arith, size))

  read-of_some :
      (f : Faults) (shard_id : Text) (raw : Bytes) (d : Disk)
      → f.at_read ≡ false
      → Dict.get shard_id d.files ≡ some raw
      → read_shard h f shard_id d ≡ check h raw
  unfolding read_shard
  read-of_some f shard_id raw d works e = rw (works, e, read_shard) refl

  pub read-of_failed :
      (f : Faults) (shard_id : Text) (d : Disk)
      → f.at_read ≡ true
      → read_shard h f shard_id d ≡ err os_error
  unfolding read_shard
  read-of_failed f shard_id d failing = rw failing refl

  read-of_none :
      (f : Faults) (shard_id : Text) (d : Disk) (bytes : Bytes)
      → Dict.get shard_id d.files ≡ none
      → read_shard h f shard_id d ≢ ok bytes
  unfolding read_shard
  read-of_none f shard_id d bytes e r = ground arith

  -- A read returns data exactly if the operating system lets it read the file, and the file is the
  -- data's digest followed by the data.
  pub read_shard_iff :
      (f : Faults) (shard_id : Text) (bytes : Bytes) (d : Disk)
      → IsHashlib h
      → (read_shard h f shard_id d ≡ ok bytes)
        ↔ ((f.at_read ≡ false) × (Dict.get shard_id d.files ≡ some (h.sha256 bytes ++ bytes)))
  read_shard_iff f shard_id bytes d laws = (
    λ r. elim (Bool-cases f.at_read) [
      | inl failing ↦ absurd (not_ok (sym (read-of_failed f shard_id d failing) ∙ r))
      | inr works ↦ elim (Option-cases (Dict.get shard_id d.files)) [
        | inl e ↦ absurd (read-of_none f shard_id d bytes e r)
        | inr (raw, e) ↦ (
          works,
          e ∙ ap some (check-eq raw bytes (sym (read-of_some f shard_id raw d works e) ∙ r)),
        )
      ]
    ],
    λ p. read-of_some f shard_id (h.sha256 bytes ++ bytes) d p.0 p.1 ∙ check_self bytes laws,
  )

  -- The contents of the directory after the temporary file is written.
  abbrev pub written : Text → Bytes → Dict Text Bytes → Dict Text Bytes
  written tmp bytes files = Dict.put tmp (h.sha256 bytes ++ bytes) (Dict.put tmp [] files)

  pub get-written_self :
      (tmp : Text) (bytes : Bytes) (files : Dict Text Bytes)
      → Dict.get tmp (written tmp bytes files) ≡ some (h.sha256 bytes ++ bytes)
  get-written_self tmp bytes files = rw get-put (ground arith)

  pub get-written_ne :
      (tmp : Text) (bytes : Bytes) (files : Dict Text Bytes) (j : Text)
      → j ≢ tmp
      → Dict.get j (written tmp bytes files) ≡ Dict.get j files
  get-written_ne tmp bytes files j n = simp get-put (ground arith)

  -- With no fault, a write of an absent id returns the digest in hexadecimal, and a read then
  -- returns the data.
  pub read-write_shard :
      (suffix shard_id : Text) (bytes : Bytes) (d : Disk)
      → IsHashlib h
      → Dict.get shard_id d.files ≡ none
      → shard_id ≢ temp_prefix ++ suffix
      → let (r, d') = write_shard h no_faults suffix shard_id bytes d in
        (r ≡ ok (hex (h.sha256 bytes))) × (read_shard h no_faults shard_id d' ≡ ok bytes)
  unfolding write_shard
  read-write_shard suffix shard_id bytes d laws absent other =
      let tmp = temp_prefix ++ suffix in
      let whole = h.sha256 bytes ++ bytes in
      let full = written tmp bytes d.files in
      let self = get-written_self tmp bytes d.files in
      let free = get-written_ne tmp bytes d.files shard_id other ∙ absent in
      (
        rw (self, free),
        (read_shard_iff no_faults shard_id bytes _ laws).1 (
          refl,
          rw (self, free)
              (ground (
                arith,
                get-remove shard_id tmp (Dict.put shard_id whole full),
                get-put shard_id shard_id whole full,
              )),
        ),
      )

  -- An id that is there is never written again.
  pub write_shard-exists :
      (suffix shard_id : Text) (bytes old : Bytes) (d : Disk)
      → Dict.get shard_id d.files ≡ some old
      → shard_id ≢ temp_prefix ++ suffix
      → (write_shard h no_faults suffix shard_id bytes d).0 ≡ err shard_exists
  unfolding write_shard
  write_shard-exists suffix shard_id bytes old d there other =
      let tmp = temp_prefix ++ suffix in
      rw
        (get-written_self tmp bytes d.files, get-written_ne tmp bytes d.files shard_id other, there)

  -- Whatever the operating system does, a write that returns has returned the digest of its data,
  -- has found the id absent, and has left the digest and the data under it.
  pub write_shard-ok :
      (f : Faults) (suffix shard_id : Text) (bytes : Bytes) (d : Disk) (checksum : Text)
      → shard_id ≢ temp_prefix ++ suffix
      → (write_shard h f suffix shard_id bytes d).0 ≡ ok checksum
      → (checksum ≡ hex (h.sha256 bytes))
        × (Dict.get shard_id d.files ≡ none)
        × (Dict.get shard_id (write_shard h f suffix shard_id bytes d).1.files
            ≡ some (h.sha256 bytes ++ bytes))
  unfolding write_shard
  write_shard-ok f suffix shard_id bytes d checksum other e =
      let tmp = temp_prefix ++ suffix in
      let whole = h.sha256 bytes ++ bytes in
      let full = written tmp bytes d.files in
      ground (
        arith,
        get-written_self tmp bytes d.files,
        get-written_ne tmp bytes d.files shard_id other,
        get-remove shard_id tmp (Dict.put shard_id whole full),
        get-put shard_id shard_id whole full,
      )
