-- ===== src/StorageNode/Storage/Views.antt =====
-- The map that the directory of storage_node/storage.py stands for, and how the steps of a write and
-- a delete change it.
use secure_file_system.Base.Dict
use secure_file_system.Base.{
  ◌≡◌, refl, ap, ◌≢◌, Option, none, some, [], ◌++◌, arith, ◌==◌, list_eq, nat_eq, if◌then◌else◌, ok,
  err,
}
use secure_file_system.Base.Dict.{Dict, get-put, get-remove}
use secure_file_system.Base.Text.{Text, Bytes}
use secure_file_system.Python.Hashlib.{Hashlib, IsHashlib}
use secure_file_system.StorageNode.Storage.{Disk, temp_prefix, check}
use secure_file_system.StorageNode.Storage.Contract.{
  Slot, vacant, damaged, holding, Shards, Unchanged, Changed,
}
use secure_file_system.StorageNode.Storage.Reading.{check_self, written, get-written_ne}

module _ (h : Hashlib) where
  unfoldable pub slot_of : Option Bytes → Slot
  slot_of none = vacant
  slot_of (some raw) = elim (check h raw) [ ok bytes ↦ holding bytes | err e ↦ damaged ]

  -- The map that a directory stands for.
  abbrev pub view_of : Dict Text Bytes → Shards
  view_of files j = slot_of (Dict.get j files)

  abbrev pub view : Disk → Shards
  view d = view_of d.files

  pub slot_of-whole :
      (bytes : Bytes) → IsHashlib h → slot_of (some (h.sha256 bytes ++ bytes)) ≡ holding bytes
  unfolding slot_of
  slot_of-whole bytes laws = rw (check_self h bytes laws, slot_of) refl

  pub slot_of-some : (raw : Bytes) → slot_of (some raw) ≢ vacant
  unfolding slot_of
  slot_of-some raw e = ground arith

  pub slot_of-none : (o : Option Bytes) → o ≡ none → slot_of o ≡ vacant
  unfolding slot_of
  slot_of-none o e = rw e refl

  -- The temporary file comes and stays, or goes.
  get-kept :
      (tmp : Text) (c : Bytes) (files : Dict Text Bytes) (j : Text)
      → j ≢ tmp
      → Dict.get j (Dict.put tmp c (Dict.put tmp [] files)) ≡ Dict.get j files
  get-kept tmp c files j n =
      ground (arith, get-put j tmp c (Dict.put tmp [] files), get-put j tmp [] files)

  get-removed :
      (tmp : Text) (c : Bytes) (files : Dict Text Bytes) (j : Text)
      → j ≢ tmp
      → Dict.get j (Dict.remove tmp (Dict.put tmp c (Dict.put tmp [] files))) ≡ Dict.get j files
  get-removed tmp c files j n = ground (
    arith,
    get-remove j tmp (Dict.put tmp c (Dict.put tmp [] files)),
    get-put j tmp c (Dict.put tmp [] files),
    get-put j tmp [] files,
  )

  get-linked :
      (tmp id : Text) (bytes : Bytes) (files : Dict Text Bytes) (j : Text)
      → j ≢ tmp
      → Dict.get j
          (Dict.remove tmp (Dict.put id (h.sha256 bytes ++ bytes) (written h tmp bytes files)))
        ≡ (if j == id then some (h.sha256 bytes ++ bytes) else Dict.get j files)
  get-linked tmp id bytes files j n =
      let whole = h.sha256 bytes ++ bytes in
      ground (
        arith,
        get-remove j tmp (Dict.put id whole (written h tmp bytes files)),
        get-put j id whole (written h tmp bytes files),
        get-written_ne h tmp bytes files j n,
      )

  pub linked-Changed :
      (suffix id : Text) (bytes : Bytes) (d : Disk)
      → IsHashlib h
      → Changed id (holding bytes) (view d) (
          view_of (
            Dict.remove (temp_prefix ++ suffix) (
              Dict.put id
                (h.sha256 bytes ++ bytes)
                (written h (temp_prefix ++ suffix) bytes d.files))))
  linked-Changed suffix id bytes d laws j name =
      rw (get-linked (temp_prefix ++ suffix) id bytes d.files j (name suffix))
        (ground (arith, slot_of-whole bytes laws))

  pub linked_kept-Changed :
      (suffix id : Text) (bytes : Bytes) (d : Disk)
      → IsHashlib h
      → Changed id (holding bytes) (view d) (
          view_of (
            Dict.put id
              (h.sha256 bytes ++ bytes)
              (written h (temp_prefix ++ suffix) bytes d.files)))
  linked_kept-Changed suffix id bytes d laws j name =
      let whole = h.sha256 bytes ++ bytes in
      let full = written h (temp_prefix ++ suffix) bytes d.files in
      rw (get-put j id whole full, get-kept (temp_prefix ++ suffix) whole d.files j (name suffix))
        (ground (arith, slot_of-whole bytes laws))

  pub kept-Unchanged :
      (suffix : Text) (c : Bytes) (d : Disk)
      → Unchanged (view d) (
          view_of
            (Dict.put (temp_prefix ++ suffix) c (Dict.put (temp_prefix ++ suffix) [] d.files)))
  kept-Unchanged suffix c d j name =
      ap slot_of (get-kept (temp_prefix ++ suffix) c d.files j (name suffix))

  pub removed-Unchanged :
      (suffix : Text) (c : Bytes) (d : Disk)
      → Unchanged (view d) (
          view_of (
            Dict.remove
              (temp_prefix ++ suffix)
              (Dict.put (temp_prefix ++ suffix) c (Dict.put (temp_prefix ++ suffix) [] d.files))))
  removed-Unchanged suffix c d j name =
      ap slot_of (get-removed (temp_prefix ++ suffix) c d.files j (name suffix))
