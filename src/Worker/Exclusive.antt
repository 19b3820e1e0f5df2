-- ===== src/Worker/Exclusive.antt =====
-- Who may run a cycle of maintenance in api_service/worker.py.
use secure_file_system.Base.{ℕ, ◌≡◌, ◌≢◌, ◌⊎◌, inl, inr, true, false, some, arith}
use secure_file_system.Worker.{
  checking, cycling, Cluster, try_lock, end_session, move_to, Step, connects, locks, stands_by,
  tries_again, begins_cycle, ends_cycle, wakes, exits, restarts, drops, initial_cluster, Reach,
  at_start, after_step, is_active,
}

pub record IsExclusive (s : Cluster) : Type 0 where
  pub holder : (i : ℕ) → s.lock ≡ some i → (s.connected i ≡ true) × (is_active (s.place i) ≡ true)
  pub held : (i : ℕ) → s.connected i ≡ true → is_active (s.place i) ≡ true → s.lock ≡ some i

initial_cluster-IsExclusive : IsExclusive initial_cluster
initial_cluster-IsExclusive = record { holder = λ i e. cc; held = λ i e f. cc }

Step-IsExclusive : {s t : Cluster} → Step s t → IsExclusive s → IsExclusive t
unfolding move_to end_session try_lock
Step-IsExclusive {s} (connects i e) inv = record {
  holder = λ j h. ground (arith, inv.holder j, inv.holder i);
  held = λ j c a. ground (arith, inv.held j);
}
Step-IsExclusive (locks i e c w) inv = record {
  holder = λ j h. ground (arith, inv.holder j, inv.holder i, inv.held j);
  held = λ j d a. ground (arith, inv.held j, inv.holder i, inv.holder j);
}
Step-IsExclusive (stands_by i e c w) inv = record {
  holder = λ j h. ground (arith, inv.holder j, inv.holder i, inv.held j);
  held = λ j d a. ground (arith, inv.held j, inv.holder i, inv.holder j);
}
Step-IsExclusive (tries_again i e) inv = record {
  holder = λ j h. ground (arith, inv.holder j, inv.holder i);
  held = λ j c a. ground (arith, inv.held j);
}
Step-IsExclusive (begins_cycle i e c) inv = record {
  holder = λ j h. ground (arith, inv.holder j, inv.holder i);
  held = λ j d a. ground (arith, inv.held j);
}
Step-IsExclusive (ends_cycle i e) inv = record {
  holder = λ j h. ground (arith, inv.holder j, inv.holder i);
  held = λ j c a. ground (arith, inv.held j);
}
Step-IsExclusive (wakes i e) inv = record {
  holder = λ j h. ground (arith, inv.holder j, inv.holder i);
  held = λ j c a. ground (arith, inv.held j);
}
Step-IsExclusive (exits i) inv = record {
  holder = λ j h. ground (arith, inv.holder j, inv.holder i);
  held = λ j c a. ground (arith, inv.held j);
}
Step-IsExclusive (restarts i e) inv = record {
  holder = λ j h. ground (arith, inv.holder j, inv.holder i);
  held = λ j c a. ground (arith, inv.held j);
}
Step-IsExclusive (drops i) inv = record {
  holder = λ j h. ground (arith, inv.holder j, inv.holder i);
  held = λ j c a. ground (arith, inv.held j);
}

Reach-IsExclusive : {s : Cluster} → Reach s → IsExclusive s
Reach-IsExclusive at_start = initial_cluster-IsExclusive
Reach-IsExclusive (after_step r st) = Step-IsExclusive st (Reach-IsExclusive r)

the_other_is_down :
    {s : Cluster}
    → IsExclusive s
    → (i j : ℕ) → s.place i ≡ checking
    → s.connected i ≡ true
    → is_active (s.place j) ≡ true
    → j ≢ i
    → s.connected j ≡ false
the_other_is_down inv i j e c a n = ground (arith, inv.held i, inv.held j)

-- A step that takes a worker into a cycle finds its connection up.
begins-connected :
    {s t : Cluster}
    → Step s t
    → (i : ℕ) → t.place i ≡ cycling
    → (s.place i ≡ cycling) ⊎ ((s.place i ≡ checking) × (s.connected i ≡ true))
unfolding move_to end_session
begins-connected (connects i e) j f = ground arith
begins-connected (locks i e c w) j f = ground arith
begins-connected (stands_by i e c w) j f = ground arith
begins-connected (tries_again i e) j f = ground arith
begins-connected (begins_cycle i e c) j f = ground arith
begins-connected (ends_cycle i e) j f = ground arith
begins-connected (wakes i e) j f = ground arith
begins-connected (exits i) j f = ground arith
begins-connected (restarts i e) j f = ground arith
begins-connected (drops i) j f = ground arith

-- A worker that begins a cycle, in whatever order the workers have run and whichever connections
-- have dropped, holds the lock. Every other worker in the active loop has lost its connection, and
-- does not begin a cycle in any next step.
pub begins_cycle-alone :
    {s t : Cluster}
    → Reach s
    → Step s t
    → (i : ℕ) → s.place i ≢ cycling
    → t.place i ≡ cycling
    → (s.lock ≡ some i)
      × ((j : ℕ)
          → is_active (s.place j) ≡ true
          → j ≢ i
          → (s.connected j ≡ false)
            × ((v : Cluster) → Step s v → v.place j ≡ cycling → s.place j ≡ cycling))
begins_cycle-alone {s} {t} r st i n e =
    let inv = Reach-IsExclusive r in
    let (at_check, up) : (s.place i ≡ checking) × (s.connected i ≡ true) =
      elim (begins-connected st i e) [ inl f ↦ absurd (n f) | inr p ↦ p ] in
    let down = λ (j : ℕ) (a : is_active (s.place j) ≡ true) (m : j ≢ i).
      the_other_is_down inv i j at_check up a m in
    (
      inv.held i up (ground arith),
      λ j a m. (
        down j a m,
        λ v sv f. elim (begins-connected sv j f) [ inl g ↦ g | inr (g, c) ↦ cc (down j a m) ],
      ),
    )
