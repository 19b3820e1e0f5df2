-- ===== src/Tests/ApiRuns.antt =====
-- Requests to the endpoints: a link is made for a file of three bytes, and used.
use secure_file_system.Base.Dict
use secure_file_system.Api.Files.{ApiSettings, owned_file, ttl_in_range, create_link}
use secure_file_system.Api.Files.Links.{create_link-verify}
use secure_file_system.Api.Files.Owned.{files_of, owned_file-files_of}
use secure_file_system.Api.Files.Revoking.{delete_file-outdates}
use secure_file_system.Base.{
  ◌+◌, ◌≤◌, ◌<◌, ◌≡◌, refl, none, some, [], ◌∷◌, arith, list_eq, nat_eq, leb, if◌then◌else◌, ok,
  err,
}
use secure_file_system.Base.Dict.{Dict}
use secure_file_system.Base.Text.{Text, Bytes, codes}
use secure_file_system.Database.{available, deleted, User, File, Database, is_available, find_file}
use secure_file_system.Erasure.Codec.{sum_code}
use secure_file_system.Files.{sha256_hex}
use secure_file_system.Files.Deleting.{delete_file}
use secure_file_system.Network.{http_error, Network, World}
use secure_file_system.Python.Hashlib.{sample_hashlib}
use secure_file_system.Python.Unicode.{ascii_only, ascii_only-IsUnicode}
use secure_file_system.Signing.{expired, LinkClaims, Link, verify}
use secure_file_system.Signing.Issue.{issued_link, verify-issued}

abbrev secret : Text
secret = codes "0123456789abcdef0123456789abcdef"

abbrev ring : Dict Text Text
ring = (codes "k1", secret) ∷ []

ring_key : Dict.get (codes "k1") ring ≡ some secret
unfolding Dict.get nat_eq list_eq
ring_key = refl

abbrev user : User
user = record { id = 7; email = codes "a@b.c"; api_key_hash = codes "00" }

abbrev bytes : Bytes
bytes = 1 ∷ 2 ∷ 3 ∷ []

abbrev file : File
file = record {
  id = 5;
  owner_user_id = 7;
  original_name = codes "n";
  content_type = codes "t";
  size_bytes = 3;
  checksum_sha256 = sha256_hex sample_hashlib bytes;
  data_shards = 2;
  parity_shards = 1;
  link_version = 1;
  status = available;
  uploaded_at = 10;
  deleted_at = none;
}

abbrev settings : ApiSettings
settings = record {
  secret_key = secret;
  secret_key_id = codes "k1";
  shard_data_count = 2;
  shard_parity_count = 1;
  max_upload_bytes = 1000;
  min_ttl_seconds = 60;
  max_ttl_seconds = 600;
}

abbrev silent : Network
silent = record { State = Unit {0}; send = λ address r s. (http_error, s) }

abbrev tables : Database
tables = record { users = user ∷ []; files = file ∷ []; nodes = []; shards = []; audit_events = [] }

abbrev world : World silent
world = record { network = tt; committed = tables; session = tables; sent = [] }

abbrev link : Link
link = issued_link sample_hashlib secret (codes "k1") 5 1000 1

abbrev claims : LinkClaims
claims = record { file_id = 5; expires = 1000; link_version = 1; kid = codes "k1" }

accepted_link : verify sample_hashlib ascii_only ring link 950 ≡ ok claims
accepted_link =
    verify-issued sample_hashlib ascii_only ring secret (codes "k1") 5 1000 1 ascii_only-IsUnicode
      ring_key (omega arith) (omega arith) (omega arith) 950

owned_file-files_of_example : owned_file user 5 (files_of user tables) ≡ owned_file user 5 tables
owned_file-files_of_example = owned_file-files_of user 5 tables

created :
    (create_link silent sample_hashlib (codes "t") sum_code none user settings 5 100 900 world).0
    ≡ ok (link, 1000)
unfolding create_link owned_file ttl_in_range nat_eq is_available
created = refl

create_link-verify_example :
    (f : File) × (owned_file user 5 tables ≡ ok f)
    × (1000 ≤ 900 + 600)
    × (verify sample_hashlib ascii_only ring link 950 ≡ (
        if leb 1000 950
        then err expired
        else ok (record {
          file_id = 5;
          expires = 1000;
          link_version = f.link_version;
          kid = codes "k1";
        })))
create_link-verify_example =
    create_link-verify silent sample_hashlib (codes "t") sum_code none user ascii_only ring settings
      5 100 900 world link 1000 950 ascii_only-IsUnicode ring_key (omega arith) (omega arith)
      (omega arith, tt) created

-- The owner deletes the file that the link is for.
delete_file-outdates_example :
    (row : File) × (find_file 5
        (delete_file silent sample_hashlib (codes "t") 940 file user none world).committed
      ≡ some row)
    × (row.status ≡ deleted)
    × (1 < row.link_version)
unfolding find_file nat_eq
delete_file-outdates_example =
    delete_file-outdates silent sample_hashlib (codes "t") sum_code ascii_only none ring settings
      user user 5 100 900 940 950 world world link 1000 file claims ascii_only-IsUnicode ring_key
      (omega arith) (omega arith) (omega arith, tt) (λ e. omega arith, tt) created refl
      accepted_link
