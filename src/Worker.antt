-- ===== src/Worker.antt =====
-- api_service/worker.py: any number of maintenance workers and the advisory lock in Postgres, which
-- a session holds until it ends. The workers take turns in any order, a step of `run` at a time; a
-- connection may drop, and a process may end, at every moment. What `run_cycle` does is in
-- Maintenance.
pub mod Exclusive
use secure_file_system.Base.{
  ℕ, ◌≡◌, Bool, true, false, Option, none, some, ◌==◌, list_eq, nat_eq, if◌then◌else◌,
}

-- Where a worker stands in `run`: before `connect`, before `_try_lock`, in the sleep of a standby,
-- before `SELECT 1`, in `run_cycle`, in the sleep after it, and ended.
pub data Place : Type 0 where
  connecting trying standing_by checking cycling resting exited : Place

abbrev pub with_value {ℓ} : {A : Type ℓ} → (ℕ → A) → ℕ → A → ℕ → A
with_value f i a j = if j == i then a else f j

-- The workers by their numbers. The lock has the number of the worker whose session holds it.
pub record Cluster : Type 0 where
  pub lock : Option ℕ
  pub connected : ℕ → Bool
  pub place : ℕ → Place

-- `pg_try_advisory_lock`: a session that holds the lock may take it again.
unfoldable pub try_lock : ℕ → Option ℕ → Bool × Option ℕ
try_lock i none = (true, some i)
try_lock i (some j) = (i == j, some j)

-- The end of a session.
unfoldable pub end_session : ℕ → Cluster → Cluster
end_session i s = record s {
  lock = elim s.lock [ none ↦ none | some j ↦ if i == j then none else some j ];
  connected = with_value s.connected i false;
}

unfoldable pub move_to : ℕ → Place → Cluster → Cluster
move_to i p s = record s { place = with_value s.place i p }

-- One step of one worker, or of the network.
pub data Step (s : Cluster) : Cluster → Type 0 where
  connects :
      (i : ℕ)
      → s.place i ≡ connecting
      → Step s (move_to i trying (record s { connected = with_value s.connected i true }))
  locks :
      (i : ℕ)
      → s.place i ≡ trying
      → s.connected i ≡ true
      → (try_lock i s.lock).0 ≡ true
      → Step s (move_to i checking (record s { lock = (try_lock i s.lock).1 }))
  stands_by :
      (i : ℕ)
      → s.place i ≡ trying
      → s.connected i ≡ true
      → (try_lock i s.lock).0 ≡ false
      → Step s (move_to i standing_by (record s { lock = (try_lock i s.lock).1 }))
  tries_again : (i : ℕ) → s.place i ≡ standing_by → Step s (move_to i trying s)
  begins_cycle :
      (i : ℕ) → s.place i ≡ checking → s.connected i ≡ true → Step s (move_to i cycling s)
  ends_cycle : (i : ℕ) → s.place i ≡ cycling → Step s (move_to i resting s)
  wakes : (i : ℕ) → s.place i ≡ resting → Step s (move_to i checking s)
  -- A query on a connection that is gone raises, and `finally` ends the process; so does a cycle
  -- that raises, and a signal.
  exits : (i : ℕ) → Step s (move_to i exited (end_session i s))
  restarts : (i : ℕ) → s.place i ≡ exited → Step s (move_to i connecting s)
  drops : (i : ℕ) → Step s (end_session i s)

abbrev pub initial_cluster : Cluster
initial_cluster = record { lock = none; connected = λ i. false; place = λ i. connecting }

pub data Reach : Cluster → Type 0 where
  at_start : Reach initial_cluster
  after_step : {s t : Cluster} → Reach s → Step s t → Reach t

-- In the loop of the active worker.
abbrev pub is_active : Place → Bool
is_active checking = true
is_active cycling = true
is_active resting = true
is_active _ = false
