-- ===== src/Schema/Rows.antt =====
-- What the changes of api_service/services/files.py and audit.py make of the tables.
use mathlib.Core.Path.{subst}
use secure_file_system.Base.{
  ℕ, ◌≡◌, refl, sym, ap, ◌∙◌, inl, inr, Bool, true, Option, List, [], ◌∷◌, map, arith, ◌==◌, ◌!=◌,
  contains, list_eq, nat_eq, Bool-cases, Option-cases,
}
use secure_file_system.Base.Lists.{keep, All, All-append, All-implies, IsDistinct, All-map}
use secure_file_system.Base.Text.{Text}
use secure_file_system.Database.{
  EventType, File, StorageNode, Shard, AuditEvent, Database, update_file, forget_file,
  delete_file_row, delete_shard_row,
}
use secure_file_system.Filenames.{fitting}
use secure_file_system.Files.{record_event}
use secure_file_system.Schema.{refers, file_checks, file_fits, ShardsTable, IsConsistent}
use secure_file_system.Schema.Tables.{
  All-keep, IsDistinct-keep, contains-keep, ids-update, All-update,
}
use secure_file_system.Signing.{checked}

-- An event names a file and a user that have rows, or none.
pub record_event-IsConsistent :
    (event_type : EventType) (file_id actor ttl : Option ℕ) (ip : Option Text) (db : Database)
    → refers (map (λ f. f.id) db.files) file_id ≡ true
    → refers (map (λ u. u.id) db.users) actor ≡ true
    → IsConsistent db
    → IsConsistent (record_event event_type file_id actor ttl ip db)
unfolding record_event
record_event-IsConsistent event_type file_id actor ttl ip db named by c = record {
  users = c.users;
  nodes = c.nodes;
  files = c.files;
  shards = c.shards;
  audit_events = record {
    of_file = All-append _ db.audit_events _ c.audit_events.of_file (named, tt);
    by_user = All-append _ db.audit_events _ c.audit_events.by_user (by, tt);
  };
}

-- A row that is written back keeps its identifier and its owner.
pub update_file-IsConsistent :
    (file : File) (db : Database)
    → file_checks file ≡ true
    → file_fits file ≡ true
    → contains (map (λ u. u.id) db.users) file.owner_user_id ≡ true
    → IsConsistent db
    → IsConsistent (update_file file db)
unfolding update_file
update_file-IsConsistent file db checked fitting owned c =
    let same = ids-update file db.files in
    record {
      users = c.users;
      nodes = c.nodes;
      files = record {
        keys = subst IsDistinct (sym same) c.files.keys;
        checks = All-update _ file db.files checked c.files.checks;
        fits = All-update _ file db.files fitting c.files.fits;
        owners = All-update _ file db.files owned c.files.owners;
      };
      shards = record {
        keys = c.shards.keys;
        file_index = c.shards.file_index;
        fits = c.shards.fits;
        of_file =
            All-implies db.shards (λ s e. ap (λ ids. contains ids s.file_id) same ∙ e)
              c.shards.of_file;
        on_node = c.shards.on_node;
      };
      audit_events = record {
        of_file =
            All-implies db.audit_events (λ e r. ap (λ ids. refers ids e.file_id) same ∙ r)
              c.audit_events.of_file;
        by_user = c.audit_events.by_user;
      };
    }

-- Rows of shards go.
pub ShardsTable-keep :
    (q : Shard → Bool) (nodes : List StorageNode) (files : List File) (shards : List Shard)
    → ShardsTable nodes files shards
    → ShardsTable nodes files (keep q shards)
ShardsTable-keep q nodes files shards t = record {
  keys = IsDistinct-keep _ q shards t.keys;
  file_index = IsDistinct-keep _ q shards t.file_index;
  fits = All-keep _ q shards t.fits;
  of_file = All-keep _ q shards t.of_file;
  on_node = All-keep _ q shards t.on_node;
}

pub delete_shard_row-IsConsistent :
    (id : ℕ) (db : Database) → IsConsistent db → IsConsistent (delete_shard_row id db)
unfolding delete_shard_row
delete_shard_row-IsConsistent id db c = record {
  users = c.users;
  nodes = c.nodes;
  files = c.files;
  shards = ShardsTable-keep (λ s. s.id != id) db.nodes db.files db.shards c.shards;
  audit_events = c.audit_events;
}

others-named :
    (gone : ℕ) (files : List File) (shards : List Shard)
    → All (λ s. contains (map (λ f. f.id) files) s.file_id ≡ true) shards
    → All
        (λ s. contains (map (λ f. f.id) (keep (λ f. f.id != gone) files)) s.file_id ≡ true)
        (keep (λ s. s.file_id != gone) shards)
others-named gone files [] h = tt
others-named gone files (s ∷ shards) h = elim (Bool-cases (s.file_id != gone)) [
  | inl e ↦ rw e (
    contains-keep gone s.file_id files (ground (arith, e)) ∙ h.0,
    others-named gone files shards h.1,
  )
  | inr e ↦ rw e (others-named gone files shards h.1)
]

forget-refers :
    (gone : ℕ) (files : List File) (e : AuditEvent)
    → refers (map (λ f. f.id) files) e.file_id ≡ true
    → refers (map (λ f. f.id) (keep (λ f. f.id != gone) files)) (forget_file gone e).file_id ≡ true
unfolding refers forget_file
forget-refers gone files e h = elim (Option-cases e.file_id) [
  | inl n ↦ rw (n, forget_file) (rw n refl)
  | inr (f, n) ↦ elim (Bool-cases (f == gone)) [
    | inl same ↦ rw (n, forget_file, same) refl
    | inr other ↦
        rw (n, forget_file, other) (rw (n, refers) (contains-keep gone f files other ∙ rw n at h))
  ]
]

forget-actor : (gone : ℕ) (e : AuditEvent) → (forget_file gone e).actor_user_id ≡ e.actor_user_id
unfolding forget_file
forget-actor gone e = elim (Option-cases e.file_id) [
  | inl n ↦ rw (n, forget_file) refl
  | inr (f, n) ↦ elim (Bool-cases (f == gone)) [
    | inl same ↦ rw (n, forget_file, same) refl
    | inr other ↦ rw (n, forget_file, other) refl
  ]
]

-- A file's row goes, with its shards, and its events forget it.
pub delete_file_row-IsConsistent :
    (id : ℕ) (db : Database) → IsConsistent db → IsConsistent (delete_file_row id db)
unfolding delete_file_row
delete_file_row-IsConsistent id db c =
    let t = ShardsTable-keep (λ s. s.file_id != id) db.nodes db.files db.shards c.shards in
    record {
      users = c.users;
      nodes = c.nodes;
      files = record {
        keys = IsDistinct-keep _ (λ f. f.id != id) db.files c.files.keys;
        checks = All-keep _ (λ f. f.id != id) db.files c.files.checks;
        fits = All-keep _ (λ f. f.id != id) db.files c.files.fits;
        owners = All-keep _ (λ f. f.id != id) db.files c.files.owners;
      };
      shards = record {
        keys = t.keys;
        file_index = t.file_index;
        fits = t.fits;
        of_file = others-named id db.files db.shards c.shards.of_file;
        on_node = t.on_node;
      };
      audit_events = record {
        of_file = All-map _ (forget_file id) db.audit_events (
            All-implies db.audit_events (λ e h. forget-refers id db.files e h)
              c.audit_events.of_file);
        by_user = All-map _ (forget_file id) db.audit_events (
            All-implies db.audit_events
              (λ e h. ap (refers (map (λ u. u.id) db.users)) (forget-actor id e) ∙ h)
              c.audit_events.by_user);
      };
    }
