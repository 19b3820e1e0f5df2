-- ===== src/StorageNode/Storage/Refinement.antt =====
-- That the directory of storage_node/storage.py keeps the contract.
use secure_file_system.Base.Dict
use secure_file_system.Base.{
  ℕ, ◌≡◌, refl, sym, ap, ◌⊎◌, inl, inr, Bool, true, false, Option, none, some, List, [], ◌∷◌, ◌++◌,
  arith, list_eq, nat_eq, Bool-cases, Option-cases, Result,
}
use secure_file_system.Base.Dict.{Dict, get-remove}
use secure_file_system.Base.Lists.{take, All}
use secure_file_system.Base.Text.{Text, Bytes}
use secure_file_system.Python.Hashlib.{Hashlib, IsHashlib}
use secure_file_system.StorageNode.Storage.{
  delete_shard, StorageError, storage_full, os_error, Errno, no_space, quota_exceeded, other_errno,
  Faults, Disk, temp_prefix, errno, write_shard, check, read_shard, handler, fill, link_new, link,
  finish, then_link,
}
use secure_file_system.StorageNode.Storage.Contract.{
  vacant, StoreCall, put_call, get_call, delete_call, StoreReply, put_reply, get_reply,
  delete_reply, IsName, Changed, read_reply, StoreStep, put_new, put_unsure, put_taken, put_failed,
  get_done, get_failed, delete_done, delete_unsure, delete_failed, delete_missing, StoreSteps,
  none_left, one_more,
}
use secure_file_system.StorageNode.Storage.Reading.{
  read-of_failed, written, get-written_self, get-written_ne,
}
use secure_file_system.StorageNode.Storage.Views.{
  slot_of, view_of, view, slot_of-some, slot_of-none, linked-Changed, linked_kept-Changed,
  kept-Unchanged, removed-Unchanged,
}

-- One operation, what the operating system does to it, and the random part of its temporary name.
pub record Job : Type 0 where
  pub call : StoreCall
  pub faults : Faults
  pub suffix : Text

abbrev pub call_id : StoreCall → Text
call_id (put_call id bytes) = id
call_id (get_call id) = id
call_id (delete_call id) = id

module _ (h : Hashlib) where
  unfoldable pub perform : Job → Disk → StoreReply × Disk
  perform job d = elim job.call [
    | put_call id bytes ↦
        let (r, d') = write_shard h job.faults job.suffix id bytes d in (put_reply r, d')
    | get_call id ↦ (get_reply (read_shard h job.faults id d), d)
    | delete_call id ↦ let (r, d') = delete_shard job.faults id d in (delete_reply r, d')
  ]

  unfoldable pub perform_all : List Job → Disk → List (StoreCall × StoreReply) × Disk
  perform_all [] d = ([], d)
  perform_all (job ∷ jobs) d =
      let (r, d') = perform job d in
      let (rest, d'') = perform_all jobs d' in ((job.call, r) ∷ rest, d'')

  Stores : Text → Bytes → Disk → Result StorageError Text × Disk → Type 0
  Stores id bytes d (r, d') = StoreStep h (view h d) (view h d') (put_call id bytes) (put_reply r)

  handler-cases : (e : Errno) → (handler (errno e) ≡ storage_full) ⊎ (handler (errno e) ≡ os_error)
  unfolding handler
  handler-cases no_space = inl refl
  handler-cases quota_exceeded = inl refl
  handler-cases other_errno = inr refl

  -- The link, and what follows it.
  linked-Stores :
      (c y : Bool) (there : Option Bytes) (suffix id : Text) (bytes : Bytes) (d : Disk)
      (past : List (Dict Text Bytes))
      → IsHashlib h
      → Dict.get id d.files ≡ there
      → Stores id bytes d (
          finish c y (temp_prefix ++ suffix) (h.sha256 bytes) (
            link_new id
              (some (h.sha256 bytes ++ bytes))
              there
              (record { files = written h (temp_prefix ++ suffix) bytes d.files; history = past })))
  unfolding Stores finish link_new
  linked-Stores true y (some old) suffix id bytes d past laws e =
      put_failed (inr refl) (kept-Unchanged h suffix (h.sha256 bytes ++ bytes) d)
  linked-Stores true y none suffix id bytes d past laws e =
      put_unsure (slot_of-none h _ e) (linked_kept-Changed h suffix id bytes d laws)
  linked-Stores false y (some old) suffix id bytes d past laws e =
      put_taken (λ v. slot_of-some h old (rw e at v))
        (removed-Unchanged h suffix (h.sha256 bytes ++ bytes) d)
  linked-Stores false true none suffix id bytes d past laws e =
      put_unsure (slot_of-none h _ e) (linked-Changed h suffix id bytes d laws)
  linked-Stores false false none suffix id bytes d past laws e =
      put_new (slot_of-none h _ e) (linked-Changed h suffix id bytes d laws)

  write_shard-Stores :
      (o : Bool) (w : Option (Errno × ℕ)) (l : Option Errno) (c y : Bool) (suffix id : Text)
      (bytes : Bytes) (d : Disk) (read unlink : Bool)
      → IsHashlib h
      → IsName id
      → Stores id bytes d (
          write_shard h
            (record {
              at_open = o;
              at_write = w;
              at_link = l;
              at_cleanup = c;
              at_sync = y;
              at_read = read;
              at_unlink = unlink;
            })
            suffix
            id
            bytes
            d)
  unfolding Stores write_shard fill then_link link finish
  write_shard-Stores true w l c y suffix id bytes d read unlink laws name =
      put_failed (inr refl) (λ j n. refl)
  write_shard-Stores false (some (e, n)) l true y suffix id bytes d read unlink laws name =
      put_failed (inr refl) (kept-Unchanged h suffix (take n (h.sha256 bytes ++ bytes)) d)
  write_shard-Stores false (some (e, n)) l false y suffix id bytes d read unlink laws name =
      put_failed (handler-cases e) (removed-Unchanged h suffix (take n (h.sha256 bytes ++ bytes)) d)
  write_shard-Stores false none (some e) true y suffix id bytes d read unlink laws name =
      put_failed (inr refl) (kept-Unchanged h suffix (h.sha256 bytes ++ bytes) d)
  write_shard-Stores false none (some e) false y suffix id bytes d read unlink laws name =
      put_failed (handler-cases e) (removed-Unchanged h suffix (h.sha256 bytes ++ bytes) d)
  write_shard-Stores false none none c y suffix id bytes d read unlink laws name =
      rw
        (
          get-written_self h (temp_prefix ++ suffix) bytes d.files,
          get-written_ne h (temp_prefix ++ suffix) bytes d.files id (name suffix),
        )
        (linked-Stores c y (Dict.get id d.files) suffix id bytes d _ laws refl)

  Deletes : Text → Disk → Result StorageError Bool × Disk → Type 0
  Deletes id d (r, d') = StoreStep h (view h d) (view h d') (delete_call id) (delete_reply r)

  removed-Changed :
      (id : Text) (d : Disk) → Changed id vacant (view h d) (view_of h (Dict.remove id d.files))
  unfolding slot_of
  removed-Changed id d j name = rw (get-remove j id d.files) (ground arith)

  delete_shard-Deletes : (f : Faults) (id : Text) (d : Disk) → Deletes id d (delete_shard f id d)
  unfolding Deletes delete_shard
  delete_shard-Deletes f id d = elim (Bool-cases f.at_unlink) [
    | inl x ↦ rw x (delete_failed (λ j n. refl))
    | inr x ↦ elim (Option-cases (Dict.get id d.files)) [
      | inl absent ↦
          rw (x, absent, delete_shard) (delete_missing (slot_of-none h _ absent) (λ j n. refl))
      | inr (raw, there) ↦
          let held = λ (v : view h d id ≡ vacant). slot_of-some h raw (rw there at v) in
          elim (Bool-cases f.at_sync) [
            | inl e ↦ rw (x, there, e, delete_shard) (delete_unsure held (removed-Changed id d))
            | inr e ↦ rw (x, there, e, delete_shard) (delete_done held (removed-Changed id d))
          ]
    ]
  ]

  check-read_reply : (raw : Bytes) → check h raw ≡ read_reply (slot_of h (some raw))
  unfolding slot_of check
  check-read_reply raw = ground arith

  read_shard-read_reply :
      (f : Faults) (id : Text) (d : Disk)
      → f.at_read ≡ false
      → read_shard h f id d ≡ read_reply (view h d id)
  unfolding read_shard
  read_shard-read_reply f id d works = elim (Option-cases (Dict.get id d.files)) [
    | inl e ↦ rw (works, e, read_shard) (ap read_reply (sym (slot_of-none h none refl)))
    | inr (raw, e) ↦ rw (works, e, read_shard) (check-read_reply raw)
  ]

  perform-StoreStep :
      (c : StoreCall) (f : Faults) (suffix : Text) (d : Disk)
      → IsHashlib h
      → IsName (call_id c)
      → let (r, d') = perform (record { call = c; faults = f; suffix = suffix }) d in
        StoreStep h (view h d) (view h d') c r
  unfolding perform
  perform-StoreStep (put_call id bytes) f suffix d laws name =
      unfold Stores in
      write_shard-Stores f.at_open f.at_write f.at_link f.at_cleanup f.at_sync suffix id bytes d
        f.at_read f.at_unlink laws name
  perform-StoreStep (get_call id) f suffix d laws name = elim (Bool-cases f.at_read) [
    | inl failing ↦ rw (read-of_failed h f id d failing) (get_failed (λ j n. refl))
    | inr works ↦ get_done (read_shard-read_reply f id d works) (λ j n. refl)
  ]
  perform-StoreStep (delete_call id) f suffix d laws name =
      unfold Deletes in delete_shard-Deletes f id d

  -- Whichever of the calls to the operating system fail, the directory behaves as the map of its
  -- checked contents does by the contract: the replies to any writes, reads and deletes on names
  -- that are no temporary file's, one after the other, are those of a run of the contract, from the
  -- map before to the map after.
  pub perform_all-StoreSteps :
      (jobs : List Job) (d : Disk)
      → IsHashlib h
      → All (λ (job : Job). IsName (call_id job.call)) jobs
      → let (trace, d') = perform_all jobs d in StoreSteps h (view h d) trace (view h d')
  unfolding perform_all
  perform_all-StoreSteps [] d laws names = none_left
  perform_all-StoreSteps (job ∷ jobs) d laws names =
      one_more (perform-StoreStep job.call job.faults job.suffix d laws names.0)
        (perform_all-StoreSteps jobs (perform job d).1 laws names.1)
