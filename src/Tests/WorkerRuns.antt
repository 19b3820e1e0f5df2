-- ===== src/Tests/WorkerRuns.antt =====
-- Two maintenance workers and one lock.
use secure_file_system.Base.{ℕ, ◌≡◌, refl, ◌≢◌, true, false, some, nat_eq}
use secure_file_system.Worker.{
  trying, checking, cycling, with_value, Cluster, try_lock, end_session, move_to, Step, connects,
  locks, begins_cycle, drops, initial_cluster, Reach, at_start, after_step, is_active,
}
use secure_file_system.Worker.Exclusive.{begins_cycle-alone}

-- Worker 0 takes the lock, begins a cycle, and loses its connection; worker 1 takes the lock.
abbrev first_connected : Cluster
first_connected =
    move_to 0 trying
      (record initial_cluster { connected = with_value initial_cluster.connected 0 true })

abbrev first_locked : Cluster
first_locked = move_to 0 checking (record first_connected { lock = some 0 })

abbrev first_cycling : Cluster
first_cycling = move_to 0 cycling first_locked

abbrev dropped : Cluster
dropped = end_session 0 first_cycling

abbrev second_connected : Cluster
second_connected =
    move_to 1 trying (record dropped { connected = with_value dropped.connected 1 true })

abbrev second_locked : Cluster
second_locked = move_to 1 checking (record second_connected { lock = some 1 })

abbrev second_cycling : Cluster
second_cycling = move_to 1 cycling second_locked

second_locked-Reach : Reach second_locked
unfolding move_to end_session try_lock nat_eq
second_locked-Reach =
    after_step
      (after_step
        (after_step
          (after_step (after_step (after_step at_start (connects 0 refl)) (locks 0 refl refl refl))
            (begins_cycle 0 refl refl))
          (drops 0))
        (connects 1 refl))
      (locks 1 refl refl refl)

-- The cycle that worker 0 was in when its connection dropped is still under way.
both_cycling :
    Step second_locked second_cycling
    × (second_cycling.place 0 ≡ cycling)
    × (second_cycling.place 1 ≡ cycling)
unfolding move_to end_session nat_eq
both_cycling = (begins_cycle 1 refl refl, refl, refl)

begins_cycle-alone_example :
    (second_locked.lock ≡ some 1)
    × ((j : ℕ)
        → is_active (second_locked.place j) ≡ true
        → j ≢ 1
        → (second_locked.connected j ≡ false)
          × ((v : Cluster)
              → Step second_locked v
              → v.place j ≡ cycling
              → second_locked.place j ≡ cycling))
unfolding move_to nat_eq
begins_cycle-alone_example = begins_cycle-alone second_locked-Reach both_cycling.0 1 (λ e. cc) refl
