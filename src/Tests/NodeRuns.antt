-- ===== src/Tests/NodeRuns.antt =====
-- A storage node that is sent one shard.
use secure_file_system.Base.Dict
use mathlib.Core.Option
use secure_file_system.Base.{◌≤◌, ◌<◌, ◌≡◌, refl, none, some, [], ◌∷◌, list_eq, nat_eq, ok}
use secure_file_system.Base.Dict.{Dict}
use secure_file_system.Base.Lists.{length, concat}
use secure_file_system.Base.Text.{Text, Bytes, codes}
use secure_file_system.Http.{put_method, shard_target, Request, octets, Response, status_only}
use secure_file_system.Python.Decimal.{is_digits, int_digits}
use secure_file_system.Python.Hashlib.{sample_hashlib, sample_hashlib-IsHashlib}
use secure_file_system.Python.Hex.{hex_digit, hex, int_16}
use secure_file_system.Python.Hmac.{compare_digest}
use secure_file_system.Python.Strings.{starts_with, remove_from, strip}
use secure_file_system.Python.Unicode.{ascii_only}
use secure_file_system.Python.Uuid.{uuid_text, uuid_of}
use secure_file_system.StorageNode.Router.{
  put_shard, get_shard, NodeSettings, require_node_token, valid_shard_id, read_body_capped,
  accepted, guarded, delete_shard_endpoint, route, serve,
}
use secure_file_system.StorageNode.Router.Endpoints.{
  get_request, accepted-bounds, serve-get_after_put,
}
use secure_file_system.StorageNode.Router.Guards.{refusal, serve-unauthorized}
use secure_file_system.StorageNode.Storage.{
  delete_shard, no_faults, Disk, validate_shard_id, write_shard, read_shard,
}
use secure_file_system.StorageNode.Storage.Atomic.{fresh_disk}

abbrev id_five : Text
id_five = codes "00000000-0000-0000-0000-000000000005"

abbrev node : NodeSettings
node = record { token = codes "secret"; max_shard_bytes = 4 }

abbrev shard : Bytes
shard = 7 ∷ 8 ∷ 9 ∷ []

abbrev put_request : Request
put_request = record {
  method = put_method;
  target = shard_target id_five;
  node_token = some (codes "secret");
  checksum = some (hex (sample_hashlib.sha256 shard));
  content_length = none;
  chunks = (7 ∷ []) ∷ (8 ∷ 9 ∷ []) ∷ [];
}

run : Request → Disk → Response × Disk
unfolding serve guarded require_node_token compare_digest valid_shard_id validate_shard_id uuid_of
    uuid_text hex_digit remove_from starts_with strip int_16 nat_eq list_eq Option.bind route
    put_shard accepted read_body_capped is_digits int_digits write_shard read_shard delete_shard
    get_shard delete_shard_endpoint Dict.get Dict.put Dict.remove hex
run = serve sample_hashlib ascii_only node no_faults (codes "x1")

created : (run put_request (fresh_disk [])).0.status ≡ 201
unfolding run
created = refl

-- The limit counts the bytes that arrive; a superscript digit in Content-Length is an error that the
-- endpoint does not catch.
refusals :
    ((run (record put_request { chunks = shard ∷ shard ∷ [] }) (fresh_disk [])).0.status ≡ 413)
    × ((run (record put_request { checksum = none }) (fresh_disk [])).0.status ≡ 422)
    × ((run (record put_request { node_token = some (codes "é") }) (fresh_disk [])).0.status ≡ 500)
    × ((run (record put_request { target = shard_target (codes "..") }) (fresh_disk [])).0.status
        ≡ 400)
unfolding run
refusals = (refl, refl, refl, refl)

serve-get_after_put_example :
    (run (get_request sample_hashlib ascii_only node id_five) (run put_request (fresh_disk [])).1).0
    ≡ record (status_only 200) {
      checksum = some (hex (sample_hashlib.sha256 (concat put_request.chunks)));
      body = octets (concat put_request.chunks);
    }
unfolding run
serve-get_after_put_example =
    serve-get_after_put sample_hashlib ascii_only node no_faults no_faults (codes "x1") (codes "x1")
      put_request id_five (fresh_disk []) sample_hashlib-IsHashlib refl refl created

abbrev bare_request : Request
bare_request = record put_request { node_token = some (codes "secre") }

serve-unauthorized_example :
    let (a, d') = run bare_request (fresh_disk []) in
    (d' ≡ fresh_disk []) × (a ≡ status_only (refusal node.token (some (codes "secre"))))
unfolding run
serve-unauthorized_example =
    serve-unauthorized sample_hashlib ascii_only node no_faults (codes "x1") bare_request id_five
      (fresh_disk []) refl (λ e. cc e)

taken : accepted sample_hashlib ascii_only node put_request ≡ ok shard
unfolding run
taken = refl

accepted-bounds_example :
    (shard ≡ concat put_request.chunks)
    × (length shard ≤ 4)
    × (0 < length shard)
    × ((c : Text) × (put_request.checksum ≡ some c)
        × (ascii_only.lower c ≡ hex (sample_hashlib.sha256 shard)))
accepted-bounds_example = accepted-bounds sample_hashlib ascii_only node put_request shard taken
