-- ===== src/Http.antt =====
-- The HTTP messages between the API service and the storage nodes. A request carries the headers
-- that a node reads, a response the status, the headers and the body that the client reads.
use secure_file_system.Base.{ℕ, Option, none, List}
use secure_file_system.Base.Text.{Text, Bytes}

pub data Method : Type 0 where
  put_method get_method delete_method : Method

-- `/shards/{id}`, `/healthz`, or a path that a node does not serve
pub data Target : Type 0 where
  shard_target : Text → Target
  healthz_target : Target
  other_target : Target

pub record Request : Type 0 where
  pub method : Method
  pub target : Target
  -- X-Node-Token
  pub node_token : Option Text
  -- X-Checksum-Sha256
  pub checksum : Option Text
  pub content_length : Option Text
  -- the body as it arrives
  pub chunks : List Bytes

-- An error's `detail` text is not kept.
pub data Body : Type 0 where
  no_body : Body
  octets : Bytes → Body
  -- the JSON answer to a PUT: id, checksum and size
  stored : Text → Text → ℕ → Body

pub record Response : Type 0 where
  pub status : ℕ
  -- X-Shard-Status
  pub shard_status : Option Text
  -- X-Checksum-Sha256
  pub checksum : Option Text
  pub body : Body

abbrev pub status_only : ℕ → Response
status_only n = record { status = n; shard_status = none; checksum = none; body = no_body }
