-- ===== src/NodeClient.antt =====
-- api_service/services/node_client.py: the requests to the storage nodes.
use secure_file_system.Base.{
  ℕ, Bool, false, ◌||◌, Option, none, some, [], ◌∷◌, ◌==◌, ◌!=◌, list_eq, nat_eq, if◌then◌else◌,
  Result, ok, err, Done, ◌>>=◌,
}
use secure_file_system.Base.Lists.{length}
use secure_file_system.Base.Text.{Text, Bytes, codes}
use secure_file_system.Http.{
  Method, put_method, get_method, delete_method, Target, shard_target, healthz_target, Request,
}
use secure_file_system.Network.{
  Answer, Reply, response, http_error, network_exception, Network, Sent, World,
}
use secure_file_system.Python.Decimal.{decimal}
use secure_file_system.Python.Hashlib.{Hashlib}
use secure_file_system.Python.Hex.{hex}
use secure_file_system.Python.Uuid.{uuid_text}

-- NodeError, ShardMissingError, ShardCorruptError, or an exception that is no NodeError
pub data NodeFailure : Type 0 where
  node_error shard_missing shard_corrupt other_exception : NodeFailure

unfoldable pub replied : Reply → Result NodeFailure Answer
replied (response a) = ok a
replied http_error = err node_error
replied network_exception = err other_exception

is_corrupt : Option Text → Bool
is_corrupt none = false
is_corrupt (some s) = s == codes "corrupt"

-- What each method makes of the response.
unfoldable pub put_outcome : Answer → Result NodeFailure Done
put_outcome a = if a.status != 201 then err node_error else ok tt

unfoldable pub get_outcome : Answer → Result NodeFailure Bytes
unfolding is_corrupt
get_outcome a =
    if a.status == 404
    then err shard_missing
    else if is_corrupt a.shard_status
    then err shard_corrupt
    else if a.status != 200
    then err node_error
    else ok a.content

unfoldable pub delete_outcome : Answer → Result NodeFailure Done
delete_outcome a = if (a.status == 204) || (a.status == 404) then ok tt else err node_error

module _ (net : Network) (h : Hashlib) (token : Text) where
  unfoldable pub put_request : ℕ → Bytes → Request
  put_request shard_id bytes = record {
    method = put_method;
    target = shard_target (uuid_text shard_id);
    node_token = some token;
    checksum = some (hex (h.sha256 bytes));
    content_length = some (decimal (length bytes));
    chunks = bytes ∷ [];
  }

  bare_request : Method → Target → Request
  bare_request method target = record {
    method = method;
    target = target;
    node_token = some token;
    checksum = none;
    content_length = none;
    chunks = [];
  }

  unfoldable pub get_request : ℕ → Request
  unfolding bare_request
  get_request shard_id = bare_request get_method (shard_target (uuid_text shard_id))

  unfoldable pub delete_request : ℕ → Request
  unfolding bare_request
  delete_request shard_id = bare_request delete_method (shard_target (uuid_text shard_id))

  -- `_request`
  unfoldable pub send : Text → Request → World net → Result NodeFailure Answer × World net
  send address r w =
      let (reply, network) = net.send address r w.network in
      let entry : Sent = record { committed = w.committed; address = address; request = r } in
      (replied reply, record w { network = network; sent = entry ∷ w.sent })

  unfoldable pub put_shard : Text → ℕ → Bytes → World net → Result NodeFailure Done × World net
  unfolding put_outcome
  put_shard address shard_id bytes w =
      let (result, w') = send address (put_request shard_id bytes) w in (result >>= put_outcome, w')

  unfoldable pub get_shard : Text → ℕ → World net → Result NodeFailure Bytes × World net
  get_shard address shard_id w =
      let (result, w') = send address (get_request shard_id) w in (result >>= get_outcome, w')

  unfoldable pub delete_shard : Text → ℕ → World net → Result NodeFailure Done × World net
  delete_shard address shard_id w =
      let (result, w') = send address (delete_request shard_id) w in (result >>= delete_outcome, w')

  probe_outcome : Result NodeFailure Answer → Result NodeFailure Bool
  probe_outcome (ok a) = ok (a.status == 200)
  probe_outcome (err other_exception) = err other_exception
  probe_outcome (err _) = ok false

  unfoldable pub is_healthy : Text → World net → Result NodeFailure Bool × World net
  unfolding probe_outcome bare_request
  is_healthy address w =
      let (result, w') = send address (bare_request get_method healthz_target) w in
      (probe_outcome result, w')
