-- ===== src/Scripts/Nodes.antt =====
-- scripts/seed_storage_nodes.py. The identifiers and the times of new rows are arguments. An empty
-- list of addresses is an INSERT without values, which the database refuses.
use secure_file_system.Base.{
  ℕ, ◌+◌, Bool, ◌&&◌, none, List, [], ◌∷◌, ◌++◌, map, ◌==◌, list_eq, nat_eq, if◌then◌else◌, Result,
  ok, err,
}
use secure_file_system.Base.Lists.{length, any, all, keep}
use secure_file_system.Base.Text.{Text}
use secure_file_system.Config.{non_empty}
use secure_file_system.Database.{healthy, StorageNode, Database}
use secure_file_system.Python.Decimal.{is_digits}
use secure_file_system.Python.Strings.{split, strip, rpartition}
use secure_file_system.Python.Unicode.{Unicode}

-- `_split`
unfoldable pub split_addresses : Unicode → Text → List Text
split_addresses u value = keep non_empty (map (strip u.is_space) (split 44 value))

unfoldable pub is_host_port : Unicode → Text → Bool
is_host_port u entry =
    let (host, (sep, port)) = rpartition 58 entry in sep && (non_empty host && is_digits u port)

-- ValueError of the settings, and IntegrityError of the insert.
pub data SeedError : Type 0 where
  not_host_port no_addresses : SeedError

abbrev pub new_node : ℕ → Text → ℕ → StorageNode
new_node id address now = record {
  id = id;
  address = address;
  status = healthy;
  last_seen_at = none;
  created_at = now;
}

abbrev pub is_known : List StorageNode → Text → Bool
is_known nodes address = any (λ n. n.address == address) nodes

-- `ON CONFLICT (address) DO NOTHING`, for one address
unfoldable pub insert_one : (ℕ → ℕ) → ℕ → Text → List StorageNode → List StorageNode
insert_one draw now address nodes =
    if is_known nodes address
    then nodes
    else nodes ++ (new_node (draw (length nodes)) address now ∷ [])

-- `INSERT ... RETURNING id`, with the number of rows returned.
unfoldable pub insert_new : (ℕ → ℕ) → ℕ → List Text → List StorageNode → ℕ × List StorageNode
insert_new draw now [] nodes = (0, nodes)
insert_new draw now (address ∷ addresses) nodes =
    let (inserted, nodes') = insert_new draw now addresses (insert_one draw now address nodes) in
    ((if is_known nodes address then 0 else 1) + inserted, nodes')

-- The statement and the commit, with how many nodes are new and how many are configured.
unfoldable pub register : (ℕ → ℕ) → ℕ → List Text → Database → Result SeedError (ℕ × ℕ) × Database
register draw now [] db = (err no_addresses, db)
register draw now (a ∷ addresses) db =
    let (inserted, nodes) = insert_new draw now (a ∷ addresses) db.nodes in
    (ok (inserted, length (a ∷ addresses)), record db { nodes = nodes })

-- `main`
unfoldable pub seed : Unicode → (ℕ → ℕ) → ℕ → Text → Database → Result SeedError (ℕ × ℕ) × Database
seed u draw now value db =
    let addresses = split_addresses u value in
    if all (is_host_port u) addresses
    then register draw now addresses db
    else (err not_host_port, db)
