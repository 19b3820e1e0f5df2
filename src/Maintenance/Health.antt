-- ===== src/Maintenance/Health.antt =====
-- `check_node_health` of api_service/services/maintenance.py.
pub mod Streaks
use secure_file_system.NodeClient
use secure_file_system.Base.Dict
use secure_file_system.Base.{
  ℕ, ◌+◌, Bool, true, false, not, ◌&&◌, none, some, List, [], ◌∷◌, map, ◌==◌, list_eq, nat_eq, leb,
  if◌then◌else◌, Result, ok, err, Done, ◌>>=◌,
}
use secure_file_system.Base.Dict.{Dict}
use secure_file_system.Base.Lists.{keep}
use secure_file_system.Base.Text.{Text}
use secure_file_system.Database.{
  healthy, unreachable, StorageNode, Database, is_healthy_status, is_decommissioned,
}
use secure_file_system.Files.{FilesError, other_raised}
use secure_file_system.Maintenance.{MaintenanceSettings, open_session}
use secure_file_system.Network.{Network, World, commit, gather}
use secure_file_system.NodeClient.{NodeFailure, is_healthy}
use secure_file_system.Python.Hashlib.{Hashlib}
use secure_file_system.RateLimit.{token}

-- `self._consecutive_failures`, a defaultdict
pub count_of : ℕ → Dict ℕ ℕ → ℕ
count_of id failures = elim (Dict.get id failures) [ none ↦ 0 | some n ↦ n ]

unfoldable pub update_node : StorageNode → Database → Database
update_node node db = record db { nodes = map (λ n. if n.id == node.id then node else n) db.nodes }

-- What one probe makes of a node and its count of failures.
unfoldable pub probed_node : ℕ → ℕ → Bool → ℕ → StorageNode → StorageNode
probed_node threshold now true count node = record node {
  last_seen_at = some now;
  status = healthy;
}
probed_node threshold now false count node =
    if is_healthy_status node.status && leb threshold (count + 1)
    then record node { status = unreachable }
    else node

unfoldable pub probed_count : Bool → ℕ → ℕ
probed_count true count = 0
probed_count false count = count + 1

unfoldable pub apply_probes :
    ℕ → ℕ → List StorageNode → List Bool → Dict ℕ ℕ → Database → Dict ℕ ℕ × Database
unfolding probed_node probed_count update_node count_of
apply_probes threshold now (node ∷ nodes) (up ∷ ups) failures db =
    let count = count_of node.id failures in
    apply_probes threshold now nodes ups (Dict.put node.id (probed_count up count) failures)
      (update_node (probed_node threshold now up count node) db)
apply_probes threshold now _ _ failures db = (failures, db)

-- `asyncio.gather` raises what a probe raised.
unfoldable pub all_returned {ℓ} :
    {A : Type ℓ} → List (Result NodeFailure A) → Result FilesError (List A)
all_returned [] = ok []
all_returned (ok a ∷ rs) = do rest ← all_returned rs; ok (a ∷ rest)
all_returned (err e ∷ rs) = err other_raised

module _ (net : Network) (h : Hashlib) (token : Text) where
  unfoldable pub probe : StorageNode → World net → Result NodeFailure Bool × World net
  probe n w = NodeClient.is_healthy net h token n.address w

  unfoldable pub check_node_health :
      MaintenanceSettings
      → ℕ
      → Dict ℕ ℕ
      → World net
      → Result FilesError Done × (Dict ℕ ℕ × World net)
  unfolding probe open_session all_returned
  check_node_health settings now failures w =
      let w0 = open_session w in
      let nodes = keep (λ n. not (is_decommissioned n.status)) w0.session.nodes in
      let (results, w1) = gather probe nodes w0 in
      elim (all_returned results) [
        | err e ↦ (err e, (failures, w1))
        | ok ups ↦
            let (failures', db) =
              apply_probes settings.node_failure_threshold now nodes ups failures w1.session in
            (ok tt, (failures', commit (record w1 { session = db })))
      ]
