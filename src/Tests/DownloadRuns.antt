-- ===== src/Tests/DownloadRuns.antt =====
-- Downloads of the file of Tests/FilesRuns.
use secure_file_system.Tests.FilesRuns.{
  answering, AnyState, bytes, fleet, file, token, owner, holding, listed, serves, file-Describes,
  candidates-listed, listed-IsPending,
}
use secure_file_system.Api.{Service}
use secure_file_system.Api.Download.{limiter_key, download_file}
use secure_file_system.Api.Download.Granting.{IsGranted, download_file-IsGranted}
use secure_file_system.Api.Download.Revoked.{download_file-of_deleted}
use secure_file_system.Api.Download.Sending.{download_file-sends}
use secure_file_system.Base.{◌≡◌, refl, ◌≢◌, none, some, [], ◌∷◌, arith, list_eq, nat_eq, ok}
use secure_file_system.Base.Dict.{Dict}
use secure_file_system.Base.Text.{Text, codes}
use secure_file_system.Database.{
  File, Database, is_available, is_healthy_status, is_decommissioned, find_file, find_node,
  update_file, join_nodes, placed_shards,
}
use secure_file_system.Erasure.Codec.{sum_code}
use secure_file_system.Files.{record_event}
use secure_file_system.Files.Deleting.{delete_rows, remove_deleted_shards, delete_file}
use secure_file_system.Files.Reading.{sort_placed, shard_candidates}
use secure_file_system.Files.Reading.Returning.{read_file-ok}
use secure_file_system.Files.Uploading.{new_file}
use secure_file_system.Maintenance.{open_session}
use secure_file_system.Network.{World, gather}
use secure_file_system.Python.Hashlib.{sample_hashlib, sample_hashlib-IsHashlib}
use secure_file_system.Python.Unicode.{ascii_only, ascii_only-IsUnicode}
use secure_file_system.RateLimit.{new_limiter, spend, make_room, allow}
use secure_file_system.Signing.{LinkClaims, Link, verify}
use secure_file_system.Signing.Issue.{issued_link, verify-issued}
use secure_file_system.Base.Dict

abbrev secret : Text
secret = codes "0123456789abcdef0123456789abcdef"

abbrev ring : Dict Text Text
ring = (codes "k1", secret) ∷ []

ring_key : Dict.get (codes "k1") ring ≡ some secret
unfolding Dict.get nat_eq list_eq
ring_key = refl

abbrev link : Link
link = issued_link sample_hashlib secret (codes "k1") 5 1000 1

abbrev claims : LinkClaims
claims = record { file_id = 5; expires = 1000; link_version = 1; kid = codes "k1" }

accepted_link : verify sample_hashlib ascii_only ring link 950 ≡ ok claims
accepted_link =
    verify-issued sample_hashlib ascii_only ring secret (codes "k1") 5 1000 1 ascii_only-IsUnicode
      ring_key (omega arith) (omega arith) (omega arith) 950

abbrev service : Service (answering 200)
unfolding new_limiter
service = record {
  world = fleet;
  download_limiter = new_limiter 60;
  api_limiter = new_limiter 120;
  free_slots = 4;
}

sent :
    (download_file
      (answering 200)
      sample_hashlib
      token
      sum_code
      ascii_only
      none
      10000
      ring
      link
      3
      950
      service).0
    ≡ ok (record { content = bytes; original_name = file.original_name })
unfolding new_file nat_eq find_file is_available allow open_session new_limiter spend limiter_key
    make_room list_eq Dict.get Dict.put
sent =
    download_file-sends (answering 200) sample_hashlib token sum_code ascii_only none 10000 ring
      link 3 950 service claims file bytes (omega arith) refl accepted_link refl refl refl
      (read_file-ok (answering 200) sample_hashlib token sum_code bytes file (open_session fleet)
        serves AnyState file-Describes tt (rw candidates-listed listed-IsPending)
        (rw candidates-listed (omega arith)))

download_file-IsGranted_example :
    IsGranted
      (answering 200)
      sample_hashlib
      token
      sum_code
      ascii_only
      none
      ring
      link
      950
      service
      (record { content = bytes; original_name = file.original_name })
      (download_file
        (answering 200)
        sample_hashlib
        token
        sum_code
        ascii_only
        none
        10000
        ring
        link
        3
        950
        service).1
download_file-IsGranted_example =
    download_file-IsGranted (answering 200) sample_hashlib token sum_code ascii_only none 10000 ring
      link 3 950 service (record { content = bytes; original_name = file.original_name })
      sample_hashlib-IsHashlib sent

-- Another file of the same owner, which is deleted.
abbrev other : File
unfolding new_file
other = record file { id = 6 }

abbrev both : World (answering 200)
unfolding new_file
both =
    let db : Database = record holding { files = file ∷ other ∷ [] } in
    record fleet { committed = db; session = db }

abbrev deleted_other : World (answering 200)
unfolding other
deleted_other = delete_file (answering 200) sample_hashlib token 40 other owner none both

candidates-deleted_other : shard_candidates 5 [] deleted_other.committed ≡ listed
unfolding shard_candidates placed_shards sort_placed find_node nat_eq is_decommissioned
    is_healthy_status delete_file remove_deleted_shards gather join_nodes deleted_other both other
    new_file update_file record_event delete_rows
candidates-deleted_other = refl

abbrev after : Service (answering 200)
unfolding new_limiter deleted_other
after = record service { world = deleted_other }

sent_after :
    (download_file
      (answering 200)
      sample_hashlib
      token
      sum_code
      ascii_only
      none
      10000
      ring
      link
      3
      950
      after).0
    ≡ ok (record { content = bytes; original_name = file.original_name })
unfolding new_file nat_eq find_file is_available allow open_session new_limiter spend limiter_key
    make_room list_eq Dict.get Dict.put service after deleted_other both other delete_file
    remove_deleted_shards gather update_file record_event delete_rows placed_shards
sent_after =
    download_file-sends (answering 200) sample_hashlib token sum_code ascii_only none 10000 ring
      link 3 950 after claims file bytes (omega arith) refl accepted_link refl refl refl
      (read_file-ok (answering 200) sample_hashlib token sum_code bytes file
        (open_session deleted_other) serves AnyState file-Describes tt
        (rw candidates-deleted_other listed-IsPending) (rw candidates-deleted_other (omega arith)))

download_file-of_deleted_example : claims.file_id ≢ other.id
unfolding find_file nat_eq other both after new_file deleted_other
download_file-of_deleted_example =
    download_file-of_deleted (answering 200) sample_hashlib token sum_code ascii_only none 40 other
      other owner both after 10000 ring link 3 950
      (record { content = bytes; original_name = file.original_name }) claims
      sample_hashlib-IsHashlib refl refl sent_after accepted_link
