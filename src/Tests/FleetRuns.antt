-- ===== src/Tests/FleetRuns.antt =====
-- Three storage nodes with empty disks, and a file that is uploaded to them and read.
use secure_file_system.NodeClient
use secure_file_system.Base.Dict
use secure_file_system.Api.{Service, HttpStatus}
use secure_file_system.Api.Download.{limiter_key, download_file}
use secure_file_system.Api.Files.{ApiSettings, owned_file, ttl_in_range, create_link}
use secure_file_system.Base.{
  ℕ, ◌+◌, ◌<◌, ◌≡◌, refl, none, [], ◌∷◌, map, arith, list_eq, nat_eq, ltb, if◌then◌else◌, Result,
  ok,
}
use secure_file_system.Base.Dict.{Dict}
use secure_file_system.Base.Lists.{All-take, IsDistinct}
use secure_file_system.Base.Text.{Text, codes}
use secure_file_system.Database.{is_available, is_healthy_status, update_file}
use secure_file_system.Erasure.{primary_blocks, encode}
use secure_file_system.Erasure.Codec.{sum_code, sum_code-IsZfec}
use secure_file_system.Files.{coded, healthy_nodes, record_event, failed}
use secure_file_system.Files.Reading.{read_file}
use secure_file_system.Files.Uploading.{
  Draws, new_file, prepared, add_rows, put_placed, store, upload_file,
}
use secure_file_system.Fleet.{FleetState, answer_of, deliver, node_network}
use secure_file_system.Fleet.Download.{download_file-of_uploaded}
use secure_file_system.Fleet.RoundTrip.{upload_file-read_file}
use secure_file_system.Maintenance.{open_session}
use secure_file_system.Network.{Network, World, gather}
use secure_file_system.NodeClient.{replied, put_outcome, put_request, send}
use secure_file_system.Python.Decimal.{is_digits, int_digits, decimal}
use secure_file_system.Python.Hashlib.{sample_hashlib, sample_hashlib-IsHashlib}
use secure_file_system.Python.Hex.{hex_digit, hex, pow16, int_16}
use secure_file_system.Python.Hmac.{compare_digest}
use secure_file_system.Python.Strings.{starts_with, remove_from, strip}
use secure_file_system.Python.Unicode.{ascii_only, ascii_only-IsUnicode}
use secure_file_system.Python.Uuid.{uuid_text, uuid_of}
use secure_file_system.Tests.FilesRuns.{owner, nodes, bytes, draws, upload, empty, token, file}
use secure_file_system.RateLimit.{new_limiter, spend, make_room, allow}
use secure_file_system.Signing.{Link}
use secure_file_system.Signing.Issue.{issued_link}
use secure_file_system.StorageNode.Router.{
  put_shard, get_shard, NodeSettings, require_node_token, valid_shard_id, read_body_capped,
  accepted, guarded, delete_shard_endpoint, route, serve,
}
use secure_file_system.StorageNode.Storage.{
  delete_shard, Faults, no_faults, validate_shard_id, write_shard, read_shard,
}
use secure_file_system.StorageNode.Storage.Atomic.{fresh_disk}
use mathlib.Core.Option

abbrev service_settings : NodeSettings
service_settings = record { token = codes "t"; max_shard_bytes = 4 }

abbrev empty_disks : FleetState
empty_disks = record {
  disks = (codes "a", fresh_disk []) ∷ (codes "b", fresh_disk []) ∷ (codes "c", fresh_disk []) ∷ [];
  requests = 0;
}

abbrev every_time : ℕ → Faults
every_time i = no_faults

abbrev tmp_name : ℕ → Text
tmp_name i = codes "x1"

abbrev Nodes : Network
Nodes = node_network sample_hashlib ascii_only service_settings every_time tmp_name

abbrev three_draws : Draws
three_draws = record draws { shard_id = λ i. if ltb i 3 then 10 + i else 10 }

abbrev start_world : World Nodes
start_world = record { network = empty_disks; committed = empty; session = empty; sent = [] }

uploaded_to_nodes :
    (upload_file Nodes sample_hashlib token sum_code three_draws upload start_world).0 ≡ ok file
unfolding upload_file new_file prepared coded encode primary_blocks healthy_nodes is_healthy_status
    store put_placed add_rows update_file record_event gather failed NodeClient.put_shard
    NodeClient.send NodeClient.put_request NodeClient.replied NodeClient.put_outcome deliver
    answer_of serve guarded require_node_token compare_digest valid_shard_id validate_shard_id
    uuid_of uuid_text hex_digit remove_from starts_with strip int_16 nat_eq list_eq Option.bind
    route put_shard accepted read_body_capped is_digits int_digits write_shard read_shard
    delete_shard get_shard delete_shard_endpoint Dict.get Dict.put Dict.remove hex decimal
uploaded_to_nodes = refl

ids_small : (i : ℕ) → three_draws.shard_id i < pow16 32
ids_small i = ground arith

nodes-IsDistinct : IsDistinct (map (λ n. n.id) nodes)
nodes-IsDistinct = (
  ((λ e. omega (arith, e)), ((λ e. omega (arith, e)), tt)),
  (((λ e. omega (arith, e)), tt), (tt, tt)),
)

upload_file-read_file_example :
    (read_file Nodes sample_hashlib token sum_code file
      (upload_file Nodes sample_hashlib token sum_code three_draws upload start_world).1).0
    ≡ ok bytes
upload_file-read_file_example =
    upload_file-read_file sample_hashlib ascii_only service_settings every_time tmp_name token
      sum_code three_draws upload start_world file sample_hashlib-IsHashlib (λ i. refl)
      ascii_only-IsUnicode (record { small = ids_small; honest = λ P xs n. All-take P n xs })
      sum_code-IsZfec (omega arith) tt nodes-IsDistinct uploaded_to_nodes

abbrev api : ApiSettings
api = record {
  secret_key = codes "0123456789abcdef0123456789abcdef";
  secret_key_id = codes "k1";
  shard_data_count = 2;
  shard_parity_count = 1;
  max_upload_bytes = 1000;
  min_ttl_seconds = 60;
  max_ttl_seconds = 600;
}

abbrev keys : Dict Text Text
keys = (codes "k1", api.secret_key) ∷ []

abbrev after_upload : World Nodes
after_upload = (upload_file Nodes sample_hashlib token sum_code three_draws upload start_world).1

abbrev link_answer : Result HttpStatus (Link × ℕ) × World Nodes
link_answer =
    create_link Nodes sample_hashlib token sum_code none owner api 5 100 900
      (open_session after_upload)

abbrev file_link : Link
file_link = issued_link sample_hashlib api.secret_key (codes "k1") 5 1000 1

link_to_file : link_answer.0 ≡ ok (file_link, 1000)
unfolding upload_file new_file prepared coded encode primary_blocks healthy_nodes is_healthy_status
    store put_placed add_rows update_file record_event gather failed NodeClient.put_shard
    NodeClient.send NodeClient.put_request NodeClient.replied NodeClient.put_outcome deliver
    answer_of serve guarded require_node_token compare_digest valid_shard_id validate_shard_id
    uuid_of uuid_text hex_digit remove_from starts_with strip int_16 nat_eq list_eq Option.bind
    route put_shard accepted read_body_capped is_digits int_digits write_shard read_shard
    delete_shard get_shard delete_shard_endpoint Dict.get Dict.put Dict.remove hex decimal
    create_link owned_file ttl_in_range open_session is_available
link_to_file = refl

abbrev fleet_service : Service Nodes
unfolding new_limiter
fleet_service = record {
  world = start_world;
  download_limiter = new_limiter 60;
  api_limiter = new_limiter 120;
  free_slots = 4;
}

download_file-of_uploaded_example :
    (download_file Nodes sample_hashlib token sum_code ascii_only none 10000 keys file_link 3 950
      (record fleet_service { world = link_answer.1 })).0
    ≡ ok (record { content = bytes; original_name = codes "n" })
unfolding new_file allow new_limiter spend limiter_key make_room list_eq nat_eq Dict.get Dict.put
download_file-of_uploaded_example =
    download_file-of_uploaded sample_hashlib ascii_only service_settings every_time tmp_name token
      sum_code three_draws upload start_world file api 100 900 1000 file_link keys none 10000 3 950
      fleet_service sample_hashlib-IsHashlib (λ i. refl) ascii_only-IsUnicode
      (record { small = ids_small; honest = λ P xs n. All-take P n xs }) sum_code-IsZfec
      (omega arith)
      (record {
        small = omega arith;
        new = tt;
        unnamed = tt;
        nodes = nodes-IsDistinct;
        versions = tt;
      })
      refl refl (omega arith) (omega arith) refl (omega arith) uploaded_to_nodes link_to_file
