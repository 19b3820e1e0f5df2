-- ===== src/Maintenance/KeepingCycle.antt =====
-- The files that can be seen, through a cycle of api_service/services/maintenance.py.
use mathlib.Core.Path.{subst}
use secure_file_system.NodeClient
use secure_file_system.Base.{
  ℕ, ◌-◌, ◌≡◌, refl, sym, ap, ◌∙◌, inl, inr, not, List, [], ◌∷◌, map, Bool-cases, Result-cases,
}
use secure_file_system.Base.Dict.{Dict}
use secure_file_system.Base.Lists.{any, keep, All, All-always, IsDistinct}
use secure_file_system.Base.Text.{Text}
use secure_file_system.Database.{File, Database, is_decommissioned, delete_file_row, placed_shards}
use secure_file_system.Erasure.Codec.{Zfec}
use secure_file_system.Files.{failed}
use secure_file_system.Files.Deleting.{delete_node_shard, remove_deleted_shards}
use secure_file_system.Files.Deleting.Revoking.{files-remove_deleted_shards}
use secure_file_system.Files.Uploading.Outcomes.{visible}
use secure_file_system.Maintenance.{MaintenanceSettings, open_session}
use secure_file_system.Maintenance.Collection.{
  stale_uploads, pending_deletions, collect_stale, collect_each, gc_stale_uploads, remove_each,
  gc_deleted_files,
}
use secure_file_system.Maintenance.Cycle.{CycleDraws, run_cycle}
use secure_file_system.Maintenance.Health.{all_returned, probe, check_node_health}
use secure_file_system.Maintenance.Keeping.{ViewIs, gather-keeps}
use secure_file_system.Maintenance.KeepingRepair.{
  open_session-ViewIs, repair_files-keeps, scrub-keeps,
}
use secure_file_system.Maintenance.Moving.{move_shard}
use secure_file_system.Maintenance.Repair.{lost_shards, live_shards, repair_lost_shards}
use secure_file_system.Maintenance.StaleFiles.{
  files-apply_probes, OthersSeen, seen_of, keep-keep_others, stale_uploads-apart,
}
use secure_file_system.Network.{Network, World, gather, gather-preserves}
use secure_file_system.NodeClient.{send, is_healthy}
use secure_file_system.Python.Hashlib.{Hashlib}

abbrev files_in : Database → List File
files_in db = db.files

module _ (net : Network) (h : Hashlib) (token : Text) where
  -- What can be seen, committed and in the session.
  record SeenAre (seen : List File) (w : World net) : Type 0 where
    committed : visible w.committed ≡ seen
    session : visible w.session ≡ seen

  SeenAre-of_files :
      (files : List File) (w : World net) → ViewIs files_in files w → SeenAre (seen_of files) w
  unfolding visible
  SeenAre-of_files files w same = record {
    committed = ap seen_of same.committed;
    session = ap seen_of same.session;
  }

  collect_stale-SeenAre :
      (seen : List File) (file : File) (w : World net)
      → OthersSeen file.id seen
      → SeenAre seen w
      → SeenAre seen (collect_stale net h token file w)
  unfolding collect_stale visible delete_file_row delete_node_shard NodeClient.delete_shard
      NodeClient.send
  collect_stale-SeenAre seen file w others s =
      let placed = placed_shards file.id w.session in
      let after = gather (delete_node_shard net h token) placed w in
      let t =
        gather-preserves (SeenAre seen) (delete_node_shard net h token) placed
          (All-always placed (λ p w s. record { committed = s.committed; session = s.session })) w
          s in
      let apart = subst (OthersSeen file.id) (sym t.session) others in
      let kept = keep-keep_others file.id after.1.session.files apart ∙ t.session in
      elim (Bool-cases (any failed after.0)) [
        | inl e ↦ rw e t
        | inr e ↦ rw e (record { committed = kept; session = kept })
      ]

  collect_each-SeenAre :
      (seen : List File) (stale : List File) (w : World net)
      → All (λ f. OthersSeen f.id seen) stale
      → SeenAre seen w
      → SeenAre seen (collect_each net h token stale w)
  unfolding collect_each
  collect_each-SeenAre seen [] w others s = s
  collect_each-SeenAre seen (f ∷ stale) w others s =
      collect_each-SeenAre seen stale (collect_stale net h token f w) others.1
        (collect_stale-SeenAre seen f w others.0 s)

  gc_stale_uploads-SeenAre :
      (settings : MaintenanceSettings) (now : ℕ) (w : World net)
      → IsDistinct (map (λ f. f.id) w.committed.files)
      → SeenAre (visible w.committed) (gc_stale_uploads net h token settings now w)
  unfolding gc_stale_uploads open_session visible stale_uploads
  gc_stale_uploads-SeenAre settings now w distinct =
      let cutoff = now - settings.stale_upload_seconds in
      collect_each-SeenAre (visible w.committed) (stale_uploads cutoff w.committed) (open_session w)
        (stale_uploads-apart cutoff w.committed.files distinct)
        (record { committed = refl; session = refl })

  remove_each-keeps :
      (files pending : List File) (w : World net)
      → ViewIs files_in files w
      → ViewIs files_in files (remove_each net h token pending w)
  unfolding remove_each remove_deleted_shards
  remove_each-keeps files [] w same = same
  remove_each-keeps files (f ∷ pending) w same =
      let after = files-remove_deleted_shards net h token f w ∙ same.session in
      remove_each-keeps files pending (remove_deleted_shards net h token f w).1
        (record { committed = after; session = after })

  check_node_health-keeps :
      (settings : MaintenanceSettings) (now : ℕ) (failures : Dict ℕ ℕ) (files : List File)
      (w : World net)
      → w.committed.files ≡ files
      → ViewIs files_in files (check_node_health net h token settings now failures w).1.1
  unfolding check_node_health probe NodeClient.is_healthy NodeClient.send
  check_node_health-keeps settings now failures files w same =
      let w0 = open_session w in
      let same0 = open_session-ViewIs files_in files net h token w same in
      let nodes = keep (λ n. not (is_decommissioned n.status)) w0.session.nodes in
      let probed = gather (probe net h token) nodes w0 in
      let after =
        gather-keeps files_in files net h token (probe net h token) nodes
          (λ n w k. record { committed = k.committed; session = k.session }) w0 same0 in
      elim (Result-cases (all_returned probed.0)) [
        | inl (ups, e) ↦
            let written =
              files-apply_probes settings.node_failure_threshold now nodes ups failures
                probed.1.session
              ∙ after.session in
            rw (e, check_node_health) (record { committed = written; session = written })
        | inr (error, e) ↦ rw (e, check_node_health) after
      ]

  -- A cycle of upkeep removes and adds no file that can be seen, whatever the nodes answer and
  -- whatever fails, provided that no two files share an identifier.
  pub run_cycle-visible :
      (z : Zfec) (settings : MaintenanceSettings) (d : CycleDraws) (failures : Dict ℕ ℕ)
      (w : World net)
      → IsDistinct (map (λ f. f.id) w.committed.files)
      → visible (run_cycle net h token z settings d failures w).1.committed ≡ visible w.committed
  unfolding run_cycle repair_lost_shards gc_deleted_files visible move_shard
  run_cycle-visible z settings d failures w distinct =
      let w1 = (check_node_health net h token settings d.health_now failures w).1.1 in
      let one = check_node_health-keeps settings d.health_now failures w.committed.files w refl in
      let w2 = gc_stale_uploads net h token settings d.stale_now w1 in
      let two = gc_stale_uploads-SeenAre settings d.stale_now w1 (rw one.committed distinct) in
      let files = w2.committed.files in
      let w2' = open_session w2 in
      let three =
        remove_each-keeps files (pending_deletions w2'.session) w2'
          (open_session-ViewIs files_in files net h token w2 refl) in
      let w3 = gc_deleted_files net h token w2 in
      let w3' = open_session w3 in
      let cutoff = d.repair_now - settings.repair_grace_seconds in
      let lost = lost_shards cutoff (live_shards w3'.session) [] in
      let four =
        repair_files-keeps files_in files net h token (λ old new at t db. refl) z d.repair_id
          d.repair_now d.shuffle lost w3'
          (open_session-ViewIs files_in files net h token w3 three.committed) in
      let w4 =
        (repair_lost_shards net h token z d.repair_id d.repair_now d.shuffle settings w3).1 in
      let five =
        scrub-keeps files_in files net h token (λ old new at t db. refl) z d.scrub_id d.scrub_now
          d.shuffle d.order settings w4 four in
      ap seen_of five.committed ∙ (two.committed ∙ ap seen_of one.committed)
