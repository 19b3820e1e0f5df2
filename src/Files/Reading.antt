-- ===== src/Files/Reading.antt =====
-- The reading half of api_service/services/files.py.
pub mod Fetching
pub mod Growing
pub mod Serving
pub mod Returning
pub mod Digest
pub mod Rounds
pub mod Candidates
use secure_file_system.NodeClient
use secure_file_system.Base.Dict
use secure_file_system.Base.{
  ℕ, zero, suc, ◌+◌, ◌-◌, Bool, not, ◌&&◌, ◌||◌, List, [], ◌∷◌, ◌!=◌, contains, list_eq, nat_eq,
  ltb, leb, if◌then◌else◌, Result, ok, err, ◌>>=◌,
}
use secure_file_system.Base.Dict.{Dict}
use secure_file_system.Base.Lists.{length, take, drop, keep}
use secure_file_system.Base.Text.{Text, Bytes}
use secure_file_system.Database.{
  File, StorageNode, Shard, Database, is_healthy_status, is_decommissioned, placed_shards,
}
use secure_file_system.Erasure.{decode}
use secure_file_system.Erasure.Codec.{Zfec}
use secure_file_system.Files.{
  FilesError, file_unavailable, file_corrupted, other_raised, coded, sha256_hex,
}
use secure_file_system.Network.{Network, World, gather}
use secure_file_system.NodeClient.{other_exception, NodeFailure}
use secure_file_system.Python.Hashlib.{Hashlib}
use secure_file_system.RateLimit.{token}

abbrev pub Placed : Type 0
Placed = Shard × StorageNode

-- `(node.status != "healthy", shard.shard_index)`, compared
unfoldable pub before : Placed → Placed → Bool
before (s, n) (s', n') =
    let up = is_healthy_status n.status in
    let up' = is_healthy_status n'.status in
    let lower = ltb s.shard_index s'.shard_index in
    if up then not up' || lower else not up' && lower

-- `list.sort`, which keeps the order of equal keys
unfoldable pub insert_placed : Placed → List Placed → List Placed
unfolding before
insert_placed p [] = p ∷ []
insert_placed p (q ∷ qs) = if before q p then q ∷ insert_placed p qs else p ∷ q ∷ qs

unfoldable pub sort_placed : List Placed → List Placed
unfolding insert_placed
sort_placed [] = []
sort_placed (p ∷ ps) = insert_placed p (sort_placed ps)

unfoldable pub readable : List ℕ → Placed → Bool
readable exclude (s, n) = not (is_decommissioned n.status) && not (contains exclude s.id)

unfoldable pub shard_candidates : ℕ → List ℕ → Database → List Placed
unfolding readable sort_placed
shard_candidates file_id exclude db =
    sort_placed (keep (readable exclude) (placed_shards file_id db))

module _ (net : Network) (h : Hashlib) (token : Text) where
  -- What one read adds to the blocks.
  unfoldable pub add_block :
      Shard → Result NodeFailure Bytes → Dict ℕ Bytes → Result FilesError (Dict ℕ Bytes)
  add_block s (err other_exception) collected = err other_raised
  add_block s (err _) collected = ok collected
  add_block s (ok bytes) collected =
      if sha256_hex h bytes != s.checksum_sha256
      then ok collected
      else ok (Dict.put s.shard_index bytes collected)

  unfoldable pub add_blocks :
      List Placed
      → List (Result NodeFailure Bytes)
      → Dict ℕ Bytes
      → Result FilesError (Dict ℕ Bytes)
  unfolding add_block
  add_blocks ((s, n) ∷ batch) (r ∷ results) collected = do
    collected' ← add_block s r collected
    add_blocks batch results collected'
  add_blocks _ _ collected = ok collected

  unfoldable pub get_placed : Placed → World net → Result NodeFailure Bytes × World net
  get_placed (s, n) w = NodeClient.get_shard net h token n.address s.id w

  -- The loop. Each round reads one candidate at least, so that as much fuel as there are candidates
  -- is enough.
  unfoldable pub fetch_more :
      ℕ → ℕ → List Placed → Dict ℕ Bytes → World net → Result FilesError (Dict ℕ Bytes) × World net
  unfolding add_blocks get_placed
  fetch_more zero k remaining collected w = (ok collected, w)
  fetch_more (suc fuel) k [] collected w = (ok collected, w)
  fetch_more (suc fuel) k (p ∷ ps) collected w =
      let wanted = k - length collected in
      let batch = take wanted (p ∷ ps) in
      let (results, w') = gather get_placed batch w in
      if leb k (length collected)
      then (ok collected, w)
      else elim (add_blocks batch results collected) [
        | err e ↦ (err e, w')
        | ok collected' ↦ fetch_more fuel k (drop wanted (p ∷ ps)) collected' w'
      ]

  unfoldable pub fetch_blocks :
      List Placed → ℕ → World net → Result FilesError (Dict ℕ Bytes) × World net
  unfolding fetch_more
  fetch_blocks candidates k w = fetch_more (length candidates) k candidates [] w

  -- What `read_file` makes of the blocks.
  unfoldable pub assembled : Zfec → File → Dict ℕ Bytes → Result FilesError Bytes
  assembled z file blocks =
      if ltb (length blocks) file.data_shards then err file_unavailable else (do
        bytes ← coded (decode z blocks file.data_shards file.parity_shards file.size_bytes)
        if sha256_hex h bytes != file.checksum_sha256 then err file_corrupted else ok bytes)

  unfoldable pub read_file : Zfec → File → World net → Result FilesError Bytes × World net
  unfolding fetch_blocks assembled
  read_file z file w =
      let candidates = shard_candidates file.id [] w.session in
      let (blocks, w') = fetch_blocks candidates file.data_shards w in
      (blocks >>= assembled z file, w')

-- "healthy", "degraded" or "unavailable"
pub data Health : Type 0 where
  all_healthy degraded unavailable : Health

pub record Availability : Type 0 where
  pub state : Health
  pub usable_shards : ℕ
  pub total_shards : ℕ
  pub required_shards : ℕ

usable_count : File → Database → ℕ
usable_count file db = length (keep (λ p. is_healthy_status p.1.status) (placed_shards file.id db))

unfoldable pub file_availability : Database → File → Availability
unfolding usable_count
file_availability db file =
    let total = file.data_shards + file.parity_shards in
    let count = usable_count file db in
    let state =
      if leb total count
      then all_healthy
      else if leb file.data_shards count
      then degraded
      else unavailable in
    record {
      state = state;
      usable_shards = count;
      total_shards = total;
      required_shards = file.data_shards;
    }

fill_availability : Database → List File → Dict ℕ Availability → Dict ℕ Availability
unfolding file_availability
fill_availability db [] result = result
fill_availability db (file ∷ files) result =
    fill_availability db files (Dict.put file.id (file_availability db file) result)

unfoldable pub availability : Database → List File → Dict ℕ Availability
unfolding fill_availability
availability db files = fill_availability db files []
