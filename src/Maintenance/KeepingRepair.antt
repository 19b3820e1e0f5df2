-- ===== src/Maintenance/KeepingRepair.antt =====
-- The tables through repair and scrub of api_service/services/maintenance.py.
use secure_file_system.NodeClient
use secure_file_system.Base.{
  ℕ, ◌≡◌, inl, inr, List, [], ◌∷◌, map, ◌==◌, contains, list_eq, nat_eq, ltb, Bool-cases,
  Option-cases, Result-cases,
}
use secure_file_system.Base.Dict.{Dict}
use secure_file_system.Base.Lists.{length, take, keep}
use secure_file_system.Base.Text.{Text, Bytes}
use secure_file_system.Database.{
  File, StorageNode, Database, is_available, is_healthy_status, find_file, placed_shards,
}
use secure_file_system.Erasure.{regenerate}
use secure_file_system.Erasure.Codec.{Zfec}
use secure_file_system.Files.{coded}
use secure_file_system.Files.Reading.{Placed, shard_candidates, fetch_blocks}
use secure_file_system.Maintenance.{MaintenanceSettings, open_session}
use secure_file_system.Maintenance.Keeping.{
  ViewIs, KeepsView, send-keeps, fetch_more-keeps, repair_each-keeps,
}
use secure_file_system.Maintenance.Moving.{move_shard}
use secure_file_system.Maintenance.Repair.{
  live_shards, targets_of, rebuild, repair_found, repair_file, repair_files,
}
use secure_file_system.Maintenance.Scrub.{scrubbed, scrub_each, scrub}
use secure_file_system.Network.{Network, World}
use secure_file_system.Python.Hashlib.{Hashlib}

module _ {X : Type 0} (view : Database → X) (value : X) (net : Network) (h : Hashlib)
    (token : Text) where
  pub open_session-ViewIs :
      (w : World net) → view w.committed ≡ value → ViewIs view value (open_session w)
  unfolding open_session
  open_session-ViewIs w same = record { committed = same; session = same }

  module _
      (moves : (old new at t : ℕ) (db : Database) → view (move_shard old new at t db) ≡ view db)
      (z : Zfec) (new_id : ℕ → ℕ) (now : ℕ) (shuffle : List StorageNode → List StorageNode) where
    rebuild-keeps :
        (file : File) (bad_ids : List ℕ) (blocks : Dict ℕ Bytes)
        → KeepsView view value (rebuild net h token z new_id now shuffle file bad_ids blocks)
    unfolding rebuild
    rebuild-keeps file bad_ids blocks w same =
        let placed = placed_shards file.id w.session in
        let bad = keep (λ p. contains bad_ids p.0.id) placed in
        let indices = map (λ p. p.0.shard_index) bad in
        let rebuilt = coded (regenerate z blocks file.data_shards file.parity_shards indices) in
        let targets = targets_of net h token z new_id now shuffle w.session placed in
        elim (Bool-cases (ltb (length blocks) file.data_shards)) [
          | inl e ↦ rw e same
          | inr e ↦ elim (Result-cases rebuilt) [
            | inl (new, r) ↦
                rw (e, r)
                  (repair_each-keeps view value net h token moves new_id now bad new targets w same)
            | inr (error, r) ↦ rw (e, r) same
          ]
        ]

    repair_found-keeps :
        (file : File) (bad_ids : List ℕ)
        → KeepsView view value (repair_found net h token z new_id now shuffle file bad_ids)
    unfolding repair_found fetch_blocks
    repair_found-keeps file bad_ids w same =
        let good = shard_candidates file.id bad_ids w.session in
        let fetched = fetch_blocks net h token good file.data_shards w in
        let after =
          fetch_more-keeps view value net h token (length good) file.data_shards good [] w same in
        elim (Result-cases fetched.0) [
          | inl (blocks, e) ↦
              rw (e, repair_found) (rebuild-keeps file bad_ids blocks fetched.1 after)
          | inr (error, e) ↦ rw (e, repair_found) after
        ]

    repair_file-keeps :
        (file_id : ℕ) (bad_ids : List ℕ)
        → KeepsView view value (repair_file net h token z new_id now shuffle file_id bad_ids)
    unfolding repair_file
    repair_file-keeps file_id bad_ids w same =
        let w0 = open_session w in
        let same0 = open_session-ViewIs w same.committed in
        elim (Option-cases (find_file file_id w0.session)) [
          | inl e ↦ rw (e, repair_file) same0
          | inr (file, e) ↦ elim (Bool-cases (is_available file.status)) [
            | inl a ↦ rw (e, repair_file, a) (repair_found-keeps file bad_ids w0 same0)
            | inr a ↦ rw (e, repair_file, a) same0
          ]
        ]

    pub repair_files-keeps :
        (bad : Dict ℕ (List ℕ))
        → KeepsView view value (repair_files net h token z new_id now shuffle bad)
    unfolding repair_files
    repair_files-keeps [] w same = same
    repair_files-keeps ((file_id, ids) ∷ bad) w same =
        let one = repair_file net h token z new_id now shuffle file_id ids w in
        let after = repair_file-keeps file_id ids w same in
        elim (Result-cases one.0) [
          | inl (n, e) ↦ rw (e, repair_files) (repair_files-keeps bad one.1 after)
          | inr (error, e) ↦ rw (e, repair_files) after
        ]

    scrub_each-keeps :
        (sample : List Placed) (bad : Dict ℕ (List ℕ))
        → KeepsView view value (scrub_each net h token z new_id now shuffle sample bad)
    unfolding scrub_each NodeClient.get_shard
    scrub_each-keeps [] bad w same = same
    scrub_each-keeps ((s, n) ∷ sample) bad w same =
        let got = NodeClient.get_shard net h token n.address s.id w in
        let after =
          send-keeps view value net h token n.address (NodeClient.get_request net h token s.id) w
            same in
        elim (Result-cases (scrubbed net h token z new_id now shuffle s got.0 bad)) [
          | inl (bad', e) ↦ rw (e, scrub_each) (scrub_each-keeps sample bad' got.1 after)
          | inr (error, e) ↦ rw (e, scrub_each) after
        ]

    pub scrub-keeps :
        (order : List Placed → List Placed) (settings : MaintenanceSettings)
        → KeepsView view value (scrub net h token z new_id now shuffle order settings)
    unfolding scrub
    scrub-keeps order settings w same =
        let w0 = open_session w in
        let up = keep (λ p. is_healthy_status p.1.status) (live_shards w0.session) in
        let sample = take settings.scrub_batch_size (order up) in
        let read = scrub_each net h token z new_id now shuffle sample [] w0 in
        let after = scrub_each-keeps sample [] w0 (open_session-ViewIs w same.committed) in
        elim (Bool-cases (settings.scrub_batch_size == 0)) [
          | inl e ↦ rw e same
          | inr e ↦ elim (Result-cases read.0) [
            | inl (bad, r) ↦ rw (e, r) (repair_files-keeps bad read.1 after)
            | inr (error, r) ↦ rw (e, r) after
          ]
        ]
