-- ===== src/Fleet.antt =====
-- The API service on storage nodes that run storage_node: the network hands each request that
-- api_service/services/node_client.py sends to the node at its address. Which faults the operating
-- system of a node adds to a request, and the random part of a temporary name, are given by the
-- number of the request.
pub mod Keeping
pub mod Stored
pub mod Puts
pub mod Candidates
pub mod RoundTrip
pub mod LastRow
pub mod Download
use secure_file_system.Base.Dict
use secure_file_system.Base.{ℕ, ◌+◌, ◌≡◌, false, none, some, [], list_eq, nat_eq}
use secure_file_system.Base.Dict.{Dict}
use secure_file_system.Base.Text.{Text, Bytes}
use secure_file_system.Http.{Request, Body, octets, Response}
use secure_file_system.Network.{Answer, Reply, response, http_error, Network}
use secure_file_system.NodeClient.{send}
use secure_file_system.Python.Hashlib.{Hashlib}
use secure_file_system.Python.Unicode.{Unicode}
use secure_file_system.StorageNode.Router.{NodeSettings, answer, serve}
use secure_file_system.StorageNode.Storage.{Faults, Disk}

pub record FleetState : Type 0 where
  -- the disk of the node at an address
  pub disks : Dict Text Disk
  pub requests : ℕ

-- What the client reads of a response.
abbrev pub content_of : Body → Bytes
content_of (octets bytes) = bytes
content_of _ = []

unfoldable pub answer_of : Response → Answer
answer_of r = record {
  status = r.status;
  shard_status = r.shard_status;
  content = content_of r.body;
}

-- Of the faults, none is one of a read.
abbrev pub NoReadFails : (ℕ → Faults) → Type 0
NoReadFails faults = (i : ℕ) → (faults i).at_read ≡ false

module _ (h : Hashlib) (u : Unicode) (settings : NodeSettings) (faults : ℕ → Faults)
    (suffix : ℕ → Text) where
  -- No node at the address: the connection fails.
  unfoldable pub deliver : Text → Request → FleetState → Reply × FleetState
  deliver address r s = elim (Dict.get address s.disks) [
    | none ↦ (http_error, record s { requests = s.requests + 1 })
    | some d ↦
        let (answer, d') = serve h u settings (faults s.requests) (suffix s.requests) r d in
        (
          response (answer_of answer),
          record { disks = Dict.put address d' s.disks; requests = s.requests + 1 },
        )
  ]

  abbrev pub node_network : Network
  node_network = record { State = FleetState; send = deliver }
