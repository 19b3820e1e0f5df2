-- ===== src/Tests/SchemaRuns.antt =====
-- Tables that meet the constraints, before an upload and before deletions.
use secure_file_system.Api.Files.{delete_endpoint}
use secure_file_system.Base.{ℕ, ◌+◌, ◌<◌, ◌≡◌, refl, ap, none, [], ◌∷◌, arith, nat_eq}
use secure_file_system.Base.Lists.{All, All-take}
use secure_file_system.Base.Text.{Text}
use secure_file_system.Erasure.Codec.{sum_code, sum_code-IsZfec}
use secure_file_system.Files.{sha256_hex}
use secure_file_system.Files.Uploading.{new_file, upload_file}
use secure_file_system.Maintenance.{MaintenanceSettings}
use secure_file_system.Maintenance.Collection.{gc_stale_uploads, gc_deleted_files}
use secure_file_system.Network.{World}
use secure_file_system.Python.Hashlib.{sample_hashlib, sample_hashlib-IsHashlib}
use secure_file_system.Python.Hex.{hex_digit, hex}
use secure_file_system.Tests.FilesRuns.{
  owner, draws, upload, empty, token, answering, world, holding,
}
use secure_file_system.Schema.{
  file_checks, file_fits, shard_fits, integer, IsConsistent, AreConsistent,
}
use secure_file_system.Schema.Removing.{removals-AreConsistent}
use secure_file_system.Schema.Uploading.{IsNewUpload, upload_file-AreConsistent}

abbrev code_of : Text → ℕ
code_of [] = 0
code_of (c ∷ text) = c

letters : (a b : ℕ) → b < a → a ≡ b → ⊥
letters a b less e = omega (arith, less, e)

empty-IsConsistent : IsConsistent empty
empty-IsConsistent = record {
  users = record { keys = (tt, tt); emails = (tt, tt); api_key_hashes = (tt, tt) };
  nodes = record {
    keys = (
      ((λ e. omega (arith, e)), ((λ e. omega (arith, e)), tt)),
      (((λ e. omega (arith, e)), tt), (tt, tt)),
    );
    addresses = (
      (
        (λ e. letters 98 97 (omega arith) (ap code_of e)),
        ((λ e. letters 99 97 (omega arith) (ap code_of e)), tt),
      ),
      (((λ e. letters 99 98 (omega arith) (ap code_of e)), tt), (tt, tt)),
    );
  };
  files = record { keys = tt; checks = tt; fits = tt; owners = tt };
  shards = record { keys = tt; file_index = tt; fits = tt; of_file = tt; on_node = tt };
  audit_events = record { of_file = tt; by_user = tt };
}

upload-IsNewUpload : IsNewUpload draws upload empty
upload-IsNewUpload = record {
  owner = ground arith;
  parity = omega arith;
  small = omega arith;
  new = refl;
  unused = tt;
  apart = λ i j e. omega (arith, e);
}

upload_file-AreConsistent_example :
    AreConsistent
      (upload_file
        (answering 507)
        sample_hashlib
        token
        sum_code
        draws
        upload
        (world (answering 507) tt empty)).1
upload_file-AreConsistent_example =
    upload_file-AreConsistent (answering 507) sample_hashlib token sum_code draws upload
      (world (answering 507) tt empty) sample_hashlib-IsHashlib sum_code-IsZfec (omega arith)
      (record { committed = empty-IsConsistent; session = empty-IsConsistent; sent = tt })
      upload-IsNewUpload (λ P xs n. All-take P n xs)

holding-IsConsistent : IsConsistent holding
unfolding new_file file_checks file_fits shard_fits nat_eq sha256_hex hex hex_digit
holding-IsConsistent = record {
  users = empty-IsConsistent.users;
  nodes = empty-IsConsistent.nodes;
  files = record { keys = (tt, tt); checks = (refl, tt); fits = (refl, tt); owners = (refl, tt) };
  shards = record {
    keys = (
      ((λ e. omega (arith, e)), ((λ e. omega (arith, e)), tt)),
      (((λ e. omega (arith, e)), tt), (tt, tt)),
    );
    file_index = (((λ e. cc), ((λ e. cc), tt)), (((λ e. cc), tt), (tt, tt)));
    fits = (refl, (refl, (refl, tt)));
    of_file = (refl, (refl, (refl, tt)));
    on_node = (refl, (refl, (refl, tt)));
  };
  audit_events = record { of_file = tt; by_user = tt };
}

abbrev upkeep_settings : MaintenanceSettings
upkeep_settings = record {
  node_failure_threshold = 3;
  stale_upload_seconds = 60;
  repair_grace_seconds = 60;
  scrub_batch_size = 1;
}

abbrev held_world : World (answering 204)
held_world = world (answering 204) tt holding

holding-versions : All (λ f. f.link_version + 1 < integer) holding.files
unfolding new_file
holding-versions = (omega arith, tt)

removals-AreConsistent_example :
    AreConsistent
      (delete_endpoint (answering 204) sample_hashlib token sum_code none owner 200 5 held_world).1
    × AreConsistent
        (gc_stale_uploads (answering 204) sample_hashlib token upkeep_settings 200 held_world)
    × AreConsistent (gc_deleted_files (answering 204) sample_hashlib token held_world)
removals-AreConsistent_example =
    removals-AreConsistent (answering 204) sample_hashlib token sum_code none owner 200 5
      upkeep_settings held_world
      (record { committed = holding-IsConsistent; session = holding-IsConsistent; sent = tt })
      (ground arith) holding-versions
