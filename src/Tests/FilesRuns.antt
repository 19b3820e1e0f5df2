-- ===== src/Tests/FilesRuns.antt =====
-- Three nodes hold the two blocks of three bytes and their sum; the first does not answer.

use secure_file_system.NodeClient
use secure_file_system.Base.{
  ℕ, ◌+◌, ◌≡◌, refl, Bool, ◌&&◌, none, List, [], ◌∷◌, arith, ◌==◌, list_eq, nat_eq, ltb,
  if◌then◌else◌, ok, ok-eq,
}
use secure_file_system.Base.Lists.{take}
use secure_file_system.Base.Text.{Text, Bytes, codes}
use secure_file_system.Database.{
  available, healthy, data_kind, parity_kind, User, File, StorageNode, Shard, Database,
  is_healthy_status, is_decommissioned, find_node, placed_shards,
}
use secure_file_system.Erasure.{primary_blocks}
use secure_file_system.Erasure.Codec.{sum_code, sum_code-IsZfec}
use secure_file_system.Files.{sha256_hex}
use secure_file_system.Files.Reading.{
  Placed, sort_placed, shard_candidates, get_placed, fetch_blocks, read_file,
}
use secure_file_system.Files.Reading.Fetching.{IsCandidate}
use secure_file_system.Files.Reading.Returning.{share_of, Describes, read_file-ok}
use secure_file_system.Files.Reading.Rounds.{EndsWithin, fetch_blocks-EndsWithin}
use secure_file_system.Files.Reading.Serving.{IsPending}
use secure_file_system.Files.Uploading.{Draws, Upload, new_file, upload_file}
use secure_file_system.Files.Uploading.Outcomes.{Outcome, upload_file-Outcome}
use secure_file_system.Files.Uploading.Requests.{upload_file-recorded}
use secure_file_system.Files.Uploading.Rows.{AllRecorded}
use secure_file_system.Network.{response, http_error, Network, World}
use secure_file_system.NodeClient.{replied, get_outcome}
use secure_file_system.Python.Hashlib.{sample_hashlib}

abbrev pub owner : User
owner = record { id = 7; email = codes "a@b.c"; api_key_hash = codes "00" }

abbrev pub node : ℕ → Text → StorageNode
node id address = record {
  id = id;
  address = address;
  status = healthy;
  last_seen_at = none;
  created_at = 0;
}

abbrev pub nodes : List StorageNode
nodes = node 1 (codes "a") ∷ node 2 (codes "b") ∷ node 3 (codes "c") ∷ []

abbrev pub bytes : Bytes
bytes = 1 ∷ 2 ∷ 3 ∷ []

abbrev pub upload : Upload
upload = record {
  owner = owner;
  filename = codes "n";
  content_type = codes "t";
  bytes = bytes;
  k = 2;
  m = 1;
  ip_address = none;
}

abbrev pub draws : Draws
draws = record { file_id = 5; shard_id = λ i. 10 + i; sample = λ nodes n. take n nodes; now = 100 }

-- A network whose nodes all answer with one status, and give what the address holds.
abbrev pub block_of : Text → Bytes
block_of address = if address == codes "b" then 3 ∷ 0 ∷ [] else 4 ∷ 2 ∷ []

abbrev pub answering : ℕ → Network
answering status = record {
  State = Unit {0};
  send = λ address r s. (
    if address == codes "a" && status == 200
        then http_error
        else response (record { status = status; shard_status = none; content = block_of address }),
    s,
  );
}

abbrev pub empty : Database
empty = record { users = owner ∷ []; files = []; nodes = nodes; shards = []; audit_events = [] }

abbrev pub world : (net : Network) → net.State → Database → World net
world net s db = record { network = s; committed = db; session = db; sent = [] }

abbrev pub token : Text
token = codes "t"

upload_file-recorded_example :
    AllRecorded
      (upload_file
        (answering 201)
        sample_hashlib
        token
        sum_code
        draws
        upload
        (world (answering 201) tt empty)).1.sent
upload_file-recorded_example =
    upload_file-recorded (answering 201) sample_hashlib token sum_code draws upload
      (world (answering 201) tt empty) tt

upload_file-Outcome_example : Outcome draws upload empty (
    upload_file
      (answering 507)
      sample_hashlib
      token
      sum_code
      draws
      upload
      (world (answering 507) tt empty))
upload_file-Outcome_example =
    upload_file-Outcome (answering 507) sample_hashlib token sum_code draws upload
      (world (answering 507) tt empty) refl tt

abbrev pub file : File
unfolding new_file
file = record (new_file sample_hashlib draws upload) { status = available }

abbrev pub shard : ℕ → Bytes → Shard
shard i block = record {
  id = 10 + i;
  file_id = 5;
  shard_index = i;
  kind = if ltb i 2 then data_kind else parity_kind;
  node_id = i + 1;
  checksum_sha256 = sha256_hex sample_hashlib block;
  size_bytes = 2;
  created_at = 100;
}

abbrev pub holding : Database
holding = record empty {
  files = file ∷ [];
  shards = shard 2 (4 ∷ 2 ∷ []) ∷ shard 0 (1 ∷ 2 ∷ []) ∷ shard 1 (3 ∷ 0 ∷ []) ∷ [];
}

abbrev pub fleet : World (answering 200)
fleet = world (answering 200) tt holding

abbrev pub listed : List Placed
listed =
    (shard 0 (1 ∷ 2 ∷ []), node 1 (codes "a"))
    ∷ (shard 1 (3 ∷ 0 ∷ []), node 2 (codes "b"))
    ∷ (shard 2 (4 ∷ 2 ∷ []), node 3 (codes "c"))
    ∷ []

pub candidates-listed : shard_candidates 5 [] holding ≡ listed
unfolding shard_candidates placed_shards sort_placed find_node nat_eq is_decommissioned
    is_healthy_status
candidates-listed = refl

-- All but the first node serve their block.
abbrev pub serves : Placed → Bool
serves p = ltb 0 p.0.shard_index

pub file-Describes : Describes (answering 200) sample_hashlib token sum_code bytes file
unfolding new_file
file-Describes = record {
  size = refl;
  checksum = refl;
  code = sum_code-IsZfec;
  some_block = omega arith;
  at_most_256 = omega arith;
}

abbrev pub AnyState : Unit {0} → Type 0
AnyState s = Unit

abbrev IsServed : Placed → Type 0
IsServed =
    IsCandidate (answering 200) sample_hashlib token AnyState
      (share_of (answering 200) sample_hashlib token sum_code bytes file) 3 serves

first-IsServed : IsServed (shard 0 (1 ∷ 2 ∷ []), node 1 (codes "a"))
unfolding new_file get_placed NodeClient.get_shard NodeClient.send NodeClient.replied list_eq nat_eq
    primary_blocks
first-IsServed = record {
  low = omega arith;
  matches = refl;
  keeps = λ w s. tt;
  replies = λ w s. record { no_exception = λ e. cc; honest = λ b e. cc; served = λ e. cc };
}

second-IsServed : IsServed (shard 1 (3 ∷ 0 ∷ []), node 2 (codes "b"))
unfolding new_file get_placed NodeClient.get_shard NodeClient.send NodeClient.replied
    NodeClient.get_outcome list_eq nat_eq primary_blocks
second-IsServed = record {
  low = omega arith;
  matches = refl;
  keeps = λ w s. tt;
  replies = λ w s. record {
    no_exception = λ e. cc;
    honest = λ b e m. ok-eq (ok (3 ∷ 0 ∷ [])) e refl;
    served = λ e. refl;
  };
}

third-IsServed : IsServed (shard 2 (4 ∷ 2 ∷ []), node 3 (codes "c"))
unfolding new_file get_placed NodeClient.get_shard NodeClient.send NodeClient.replied
    NodeClient.get_outcome list_eq nat_eq primary_blocks
third-IsServed = record {
  low = omega arith;
  matches = refl;
  keeps = λ w s. tt;
  replies = λ w s. record {
    no_exception = λ e. cc;
    honest = λ b e m. ok-eq (ok (4 ∷ 2 ∷ [])) e refl;
    served = λ e. refl;
  };
}

pub listed-IsPending :
    IsPending
      (answering 200)
      sample_hashlib
      token
      AnyState
      (share_of (answering 200) sample_hashlib token sum_code bytes file)
      3
      serves
      listed
listed-IsPending = record {
  candidates = (first-IsServed, (second-IsServed, (third-IsServed, tt)));
  apart = (
    (λ e. omega (arith, e), (λ e. omega (arith, e), tt)),
    ((λ e. omega (arith, e), tt), (tt, tt)),
  );
}

read_file-ok_example :
    (read_file (answering 200) sample_hashlib token sum_code file fleet).0 ≡ ok bytes
unfolding new_file
read_file-ok_example =
    read_file-ok (answering 200) sample_hashlib token sum_code bytes file fleet serves AnyState
      file-Describes tt (rw candidates-listed listed-IsPending) (rw candidates-listed (omega arith))

fetch_blocks-EndsWithin_example :
    EndsWithin
      (answering 200)
      sample_hashlib
      token
      2
      3
      listed
      []
      fleet
      (fetch_blocks (answering 200) sample_hashlib token listed 2 fleet)
fetch_blocks-EndsWithin_example =
    fetch_blocks-EndsWithin (answering 200) sample_hashlib token 2 listed fleet
