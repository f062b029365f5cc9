-- ===== src/Scheduler/WorkStealing/Held.antt =====
-- src/scheduler/work_stealing.rs: a worker is held by the task that it runs.
use runact.Scheduler.WorkStealing.{new}
use runact.Scheduler.WorkStealing.View.{is_running}
use runact.Scheduler.WorkStealing.{
  push_local, spawn_index, steal, turn_at, spawn_at, request_stop, pop_local, top, exited, crash_at,
  moving, spawn, crash, turn, act, Event, turns, panics, spawns, stops, run, step,
}
use runact.Prelude.{
  zero, inr, if◌then◌else◌, inl, suc, Option-cases, false, true, replicate, Bool, none, Option, ℕ,
  ◌+◌, ◌≤◌, ◌≡◌, refl, some, List, [], ◌∷◌, arith, get_elem?, set, total, total-set,
}
use runact.Scheduler.RunQueue.{RunQueue, pop, steal_half}
use runact.Scheduler.WorkStealing.{Pc, popping, running, scanning, Scheduler, popped, stolen}

module _ {ℓ} {T : Type ℓ} where
  -- Not inside a task.
  abbrev pub is_free : Option (Pc T) → Bool
  is_free (some (running task)) = false
  is_free o = true

  free_pc : (pc : Pc T) → is_free (some pc) ≡ true → is_running pc ≡ false
  free_pc (running task) h = absurd (cc)
  free_pc top h = refl
  free_pc popping h = refl
  free_pc (scanning js) h = refl
  free_pc (moving ts) h = refl
  free_pc exited h = refl

module _ {ℓ} {T : Type ℓ} (w : T → ℕ) where
  -- The weight of the task that a thread runs.
  abbrev pub hold : Pc T → ℕ
  hold (running task) = w task
  hold _ = 0

  -- The weight of the tasks that hold a worker, or have taken one with them in a panic.
  abbrev pub busy : Scheduler T → ℕ
  busy s = total hold s.workers + total w s.panicked

  -- A turn of worker `i` from `pc` to `pc'`.
  moved-busy :
      (s : Scheduler T) (i : ℕ) (pc pc' : Pc T)
      → get_elem? s.workers i ≡ some pc
      → hold pc ≡ 0
      → total hold s.workers ≤ total hold (set s.workers i pc')
  moved-busy s i pc pc' at idle = omega (arith, total-set hold s.workers i pc' at, idle)

  popped-busy :
      (s : Scheduler T) (i : ℕ) (r : Option T × RunQueue T)
      → get_elem? s.workers i ≡ some popping
      → busy s ≤ busy (popped s i r)
  unfolding popped
  popped-busy s i (none, q) at = omega (arith, moved-busy s i popping _ at refl)
  popped-busy s i (some task, q) at = omega (arith, moved-busy s i popping _ at refl)

  stolen-busy :
      (s : Scheduler T) (i j : ℕ) (targets : List ℕ) (r : List T × RunQueue T)
      → get_elem? s.workers i ≡ some (scanning (j ∷ targets))
      → busy s ≤ busy (stolen s i j targets r)
  unfolding stolen
  stolen-busy s i j targets ([], q) at = omega (arith, moved-busy s i _ _ at refl)
  stolen-busy s i j targets (t ∷ ts, q) at = omega (arith, moved-busy s i _ _ at refl)

  act-busy :
      (s : Scheduler T) (i : ℕ) (pc : Pc T)
      → is_running pc ≡ false
      → get_elem? s.workers i ≡ some pc
      → busy s ≤ busy (act s i pc)
  unfolding act pop_local steal push_local
  act-busy s i (running t) free at = absurd (cc)
  act-busy s i top free at =
      omega (arith, moved-busy s i top (if s.stop then exited else popping) at refl)
  act-busy s i popping free at = elim (Option-cases (get_elem? s.queues i)) [
    | inl e ↦ rw (e, pop_local) (omega arith)
    | inr (q, e) ↦ rw (e, pop_local) (popped-busy s i (pop q) at)
  ]
  act-busy s i (scanning []) free at = omega (arith, moved-busy s i _ top at refl)
  act-busy s i (scanning (j ∷ targets)) free at = elim (Option-cases (get_elem? s.queues j)) [
    | inl e ↦ rw (e, steal) (omega (arith, moved-busy s i _ (scanning targets) at refl))
    | inr (q, e) ↦ rw (e, steal) (stolen-busy s i j targets (steal_half q) at)
  ]
  act-busy s i (moving []) free at = omega (arith, moved-busy s i _ top at refl)
  act-busy s i (moving (t ∷ ts)) free at = elim (Option-cases (get_elem? s.queues i)) [
    | inl e ↦ rw (e, push_local) (omega arith)
    | inr (q, e) ↦ rw (e, push_local) (omega (arith, moved-busy s i _ (moving ts) at refl))
  ]
  act-busy s i exited free at = omega arith

  -- A turn outside a task releases nothing.
  pub turn-busy :
      (s : Scheduler T) (i : ℕ) (o : Option (Pc T))
      → get_elem? s.workers i ≡ o
      → is_free o ≡ true
      → busy s ≤ busy (turn s i)
  unfolding turn turn_at
  turn-busy s i none at free = rw (at, turn_at) (omega arith)
  turn-busy s i (some pc) at free = rw (at, turn_at) (act-busy s i pc (free_pc pc free) at)

  -- A panic takes the worker with the task.
  crash_at-busy :
      (s : Scheduler T) (i : ℕ) (o : Option (Pc T))
      → get_elem? s.workers i ≡ o
      → busy (crash_at s i o) ≡ busy s
  unfolding crash_at
  crash_at-busy s i (some (running task)) at = omega (arith, total-set hold s.workers i exited at)
  crash_at-busy s i o at = refl

  pub crash-busy : (s : Scheduler T) (i : ℕ) → busy (crash s i) ≡ busy s
  unfolding crash
  crash-busy s i = crash_at-busy s i (get_elem? s.workers i) refl

  pub spawn-busy : (s : Scheduler T) (task : T) → busy (spawn s task) ≡ busy s
  unfolding spawn spawn_at
  spawn-busy s task = elim (Option-cases (get_elem? s.queues (spawn_index s))) [
    | inl e ↦ rw (e, spawn_at) refl
    | inr (q, e) ↦ rw (e, spawn_at) refl
  ]

module _ {ℓ} {T : Type ℓ} where
  abbrev alive : Pc T → ℕ
  alive exited = 0
  alive pc = 1

  -- The threads that have not ended, and those that ended in a panic.
  abbrev pub crew : Scheduler T → ℕ
  crew s = total alive s.workers + total (λ _. 1) s.panicked

  alive-le : (pc : Pc T) → alive pc ≤ 1
  alive-le exited = omega arith
  alive-le top = omega arith
  alive-le popping = omega arith
  alive-le (running t) = omega arith
  alive-le (scanning js) = omega arith
  alive-le (moving ts) = omega arith

  moved-crew :
      (s : Scheduler T) (i : ℕ) (pc pc' : Pc T)
      → get_elem? s.workers i ≡ some pc
      → alive pc ≡ 1
      → total alive (set s.workers i pc') ≤ total alive s.workers
  moved-crew s i pc pc' at one =
      omega (arith, total-set alive s.workers i pc' at, one, alive-le pc')

  popped-crew :
      (s : Scheduler T) (i : ℕ) (r : Option T × RunQueue T)
      → get_elem? s.workers i ≡ some popping
      → crew (popped s i r) ≤ crew s
  unfolding popped
  popped-crew s i (none, q) at = omega (arith, moved-crew s i popping _ at refl)
  popped-crew s i (some task, q) at = omega (arith, moved-crew s i popping _ at refl)

  stolen-crew :
      (s : Scheduler T) (i j : ℕ) (targets : List ℕ) (r : List T × RunQueue T)
      → get_elem? s.workers i ≡ some (scanning (j ∷ targets))
      → crew (stolen s i j targets r) ≤ crew s
  unfolding stolen
  stolen-crew s i j targets ([], q) at = omega (arith, moved-crew s i _ _ at refl)
  stolen-crew s i j targets (t ∷ ts, q) at = omega (arith, moved-crew s i _ _ at refl)

  act-crew :
      (s : Scheduler T) (i : ℕ) (pc : Pc T)
      → get_elem? s.workers i ≡ some pc
      → crew (act s i pc) ≤ crew s
  unfolding act pop_local steal push_local
  act-crew s i (running t) at = omega (arith, moved-crew s i _ top at refl)
  act-crew s i top at =
      omega (arith, moved-crew s i top (if s.stop then exited else popping) at refl)
  act-crew s i popping at = elim (Option-cases (get_elem? s.queues i)) [
    | inl e ↦ rw (e, pop_local) (omega arith)
    | inr (q, e) ↦ rw (e, pop_local) (popped-crew s i (pop q) at)
  ]
  act-crew s i (scanning []) at = omega (arith, moved-crew s i _ top at refl)
  act-crew s i (scanning (j ∷ targets)) at = elim (Option-cases (get_elem? s.queues j)) [
    | inl e ↦ rw (e, steal) (omega (arith, moved-crew s i _ (scanning targets) at refl))
    | inr (q, e) ↦ rw (e, steal) (stolen-crew s i j targets (steal_half q) at)
  ]
  act-crew s i (moving []) at = omega (arith, moved-crew s i _ top at refl)
  act-crew s i (moving (t ∷ ts)) at = elim (Option-cases (get_elem? s.queues i)) [
    | inl e ↦ rw (e, push_local) (omega arith)
    | inr (q, e) ↦ rw (e, push_local) (omega (arith, moved-crew s i _ (moving ts) at refl))
  ]
  act-crew s i exited at = omega arith

  turn-crew : (s : Scheduler T) (i : ℕ) → crew (turn s i) ≤ crew s
  unfolding turn turn_at
  turn-crew s i = elim (Option-cases (get_elem? s.workers i)) [
    | inl e ↦ rw (e, turn_at) (omega arith)
    | inr (pc, e) ↦ rw (e, turn_at) (act-crew s i pc e)
  ]

  crash_at-crew :
      (s : Scheduler T) (i : ℕ) (o : Option (Pc T))
      → get_elem? s.workers i ≡ o
      → crew (crash_at s i o) ≡ crew s
  unfolding crash_at
  crash_at-crew s i (some (running task)) at = omega (arith, total-set alive s.workers i exited at)
  crash_at-crew s i o at = refl

  spawn-crew : (s : Scheduler T) (task : T) → crew (spawn s task) ≡ crew s
  unfolding spawn spawn_at
  spawn-crew s task = elim (Option-cases (get_elem? s.queues (spawn_index s))) [
    | inl e ↦ rw (e, spawn_at) refl
    | inr (q, e) ↦ rw (e, spawn_at) refl
  ]

  -- No event brings a thread back.
  pub run-crew : (s : Scheduler T) (es : List (Event T)) → crew (run s es) ≤ crew s
  unfolding run step crash request_stop
  run-crew s [] = omega arith
  run-crew s (turns i ∷ es) = omega (arith, turn-crew s i, run-crew (turn s i) es)
  run-crew s (panics i ∷ es) =
      omega (arith, crash_at-crew s i (get_elem? s.workers i) refl, run-crew (step s (panics i)) es)
  run-crew s (spawns task ∷ es) = omega (arith, spawn-crew s task, run-crew (spawn s task) es)
  run-crew s (stops ∷ es) = omega (arith, run-crew (step s stops) es)

  hold-le : (pc : Pc T) → hold (λ _. 1) pc ≤ alive pc
  hold-le exited = omega arith
  hold-le top = omega arith
  hold-le popping = omega arith
  hold-le (running t) = omega arith
  hold-le (scanning js) = omega arith
  hold-le (moving ts) = omega arith

  holds-le : (pcs : List (Pc T)) → total (hold (λ _. 1)) pcs ≤ total alive pcs
  holds-le [] = omega arith
  holds-le (pc ∷ pcs) = omega (arith, hold-le pc, holds-le pcs)

module _ {ℓ} where
  alive-new : (T : Type ℓ) (n : ℕ) → total alive (replicate {A = Pc T} n top) ≡ n
  alive-new T zero = refl
  alive-new T (suc n) = omega (arith, alive-new T n)

module _ {ℓ} {T : Type ℓ} where
  -- In every run of a new scheduler, the tasks that run and those that have panicked are together at
  -- most as many as the workers.
  pub run-busy-le : (n : ℕ) (es : List (Event T)) → busy (λ _. 1) (run (new n) es) ≤ n
  unfolding new
  run-busy-le n es =
      omega (arith, run-crew (new n) es, alive-new T n, holds-le (run (new n) es).workers)
