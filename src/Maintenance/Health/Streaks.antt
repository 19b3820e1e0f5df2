-- ===== src/Maintenance/Health/Streaks.antt =====
-- One node through many health checks of api_service/services/maintenance.py.
use secure_file_system.Base.{
  ℕ, ◌+◌, ◌<◌, ◌≡◌, refl, inl, inr, Bool, true, false, ◌&&◌, List, [], ◌∷◌, arith, ltb, leb,
  Bool-cases,
}
use secure_file_system.Database.{StorageNode, is_healthy_status}
use secure_file_system.Maintenance.Health.{probed_node, probed_count}

-- The count of failures and the node after the probes of a list, the latest in front.
unfoldable pub after_probes : ℕ → StorageNode → List (ℕ × Bool) → ℕ × StorageNode
after_probes threshold node [] = (0, node)
after_probes threshold node ((now, up) ∷ older) =
    let (count, before) = after_probes threshold node older in
    (probed_count up count, probed_node threshold now up count before)

-- How many of the latest probes failed without a success between them.
unfoldable pub streak : List (ℕ × Bool) → ℕ
streak [] = 0
streak ((now, true) ∷ older) = 0
streak ((now, false) ∷ older) = 1 + streak older

count-streak :
    (threshold : ℕ) (node : StorageNode) (probes : List (ℕ × Bool))
    → (after_probes threshold node probes).0 ≡ streak probes
unfolding after_probes streak probed_count
count-streak threshold node [] = refl
count-streak threshold node ((now, true) ∷ older) = refl
count-streak threshold node ((now, false) ∷ older) =
    omega (arith, count-streak threshold node older)

-- A node that was healthy is healthy exactly as long as fewer of the latest probes than the
-- threshold failed in a row: fewer failures never take it down, the threshold does, and one success
-- brings it back.
pub after_probes-streak :
    (threshold : ℕ) (node : StorageNode) (probes : List (ℕ × Bool))
    → 0 < threshold
    → is_healthy_status node.status ≡ true
    → is_healthy_status (after_probes threshold node probes).1.status
      ≡ ltb (streak probes) threshold
unfolding after_probes streak probed_node is_healthy_status
after_probes-streak threshold node [] some_failure up = ground (arith, some_failure, up)
after_probes-streak threshold node ((now, true) ∷ older) some_failure up =
    ground (arith, some_failure)
after_probes-streak threshold node ((now, false) ∷ older) some_failure up =
    let before = after_probes threshold node older in
    let last = after_probes-streak threshold node older some_failure up in
    let same = count-streak threshold node older in
    let down = is_healthy_status before.1.status && leb threshold (before.0 + 1) in
    elim (Bool-cases down) [
      | inl e ↦ rw e (ground (arith, e, last, same))
      | inr e ↦ rw e (ground (arith, e, last, same))
    ]
