-- ===== src/Files/Reading/Returning.antt =====
-- `read_file` of api_service/services/files.py with the erasure code.
use secure_file_system.Base.{ℕ, ◌+◌, ◌≤◌, ◌≡◌, Bool, false, [], arith, ltb, ok}
use secure_file_system.Base.Dict.{Dict}
use secure_file_system.Base.Lists.{length}
use secure_file_system.Base.Text.{Text, Bytes}
use secure_file_system.Database.{File}
use secure_file_system.Erasure.{primary_blocks}
use secure_file_system.Erasure.Codec.{Zfec, IsZfec}
use secure_file_system.Erasure.RoundTrip.{AreBlocksOf, decode-blocks}
use secure_file_system.Files.{coded, sha256_hex}
use secure_file_system.Files.Reading.{Placed, shard_candidates, assembled, read_file}
use secure_file_system.Files.Reading.Fetching.{IsCollected, IsCollected-nil, count_good}
use secure_file_system.Files.Reading.Serving.{IsPending, fetch_more-Grown}
use secure_file_system.Network.{Network, World}
use secure_file_system.Python.Hashlib.{Hashlib}

module _ (net : Network) (h : Hashlib) (token : Text) (z : Zfec) (bytes : Bytes) (file : File) where
  -- The blocks that were made of the file.
  abbrev pub share_of : ℕ → Bytes
  share_of =
      z.share file.data_shards (file.data_shards + file.parity_shards)
        (primary_blocks bytes file.data_shards)

  -- The row of a file with those bytes.
  pub record Describes : Type 0 where
    pub size : file.size_bytes ≡ length bytes
    pub checksum : file.checksum_sha256 ≡ sha256_hex h bytes
    pub code : IsZfec z file.data_shards (file.data_shards + file.parity_shards)
    pub some_block : 1 ≤ file.data_shards
    pub at_most_256 : file.data_shards + file.parity_shards ≤ 256

  assembled-lem :
      (blocks : Dict ℕ Bytes)
      → Describes
      → IsCollected share_of (file.data_shards + file.parity_shards) [] blocks
      → file.data_shards ≤ length blocks
      → assembled net h token z file blocks ≡ ok bytes
  unfolding assembled coded
  assembled-lem blocks d c enough =
      let k = file.data_shards in
      let b : AreBlocksOf z bytes k file.parity_shards blocks = record {
        distinct = c.distinct;
        shares = c.shares;
      } in
      let few : ltb (length blocks) k ≡ false = ground (arith, enough) in
      let decoded =
        decode-blocks z bytes k file.parity_shards blocks d.code d.some_block d.at_most_256 b
          enough in
      rw (few, d.size, decoded, d.checksum) (ground arith)

  -- A file is read back, whatever the network does to the other reads, while at least k of its
  -- candidates serve their blocks: the others may fail, be missing, or give bytes that the
  -- checksum of the row refuses. That a candidate serves its block may rest on something that holds
  -- of the state of the network and that the reads keep.
  pub read_file-ok :
      (w : World net) (good : Placed → Bool) (holds : net.State → Type 0)
      → Describes
      → holds w.network
      → let candidates = shard_candidates file.id [] w.session in
        IsPending net h token holds share_of (file.data_shards + file.parity_shards) good candidates
        → file.data_shards ≤ count_good good candidates
        → (read_file net h token z file w).0 ≡ ok bytes
  unfolding read_file
  read_file-ok w good holds d state pending enough =
      let candidates = shard_candidates file.id [] w.session in
      let g =
        fetch_more-Grown net h token holds share_of (file.data_shards + file.parity_shards) good
          (length candidates) file.data_shards candidates [] w (omega arith) (omega (arith, enough))
          state pending (IsCollected-nil _ _ candidates) in
      rw g.returned (assembled-lem g.blocks d g.collected g.enough)
