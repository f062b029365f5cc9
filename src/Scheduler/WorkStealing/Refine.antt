-- ===== src/Scheduler/WorkStealing/Refine.antt =====
-- The work-stealing scheduler does what the pool of tasks without order does.
use runact.Prelude.{
  sym, subst, length, ◌<◌, none, Option, ℕ, ◌≡◌, refl, ap, ◌∙◌, inl, inr, false, some, List, [],
  ◌∷◌, arith, get_elem?, Option-cases,
}
use runact.Scheduler.RunQueue.{RunQueue, pop, steal_half}
use runact.Scheduler.TaskPool.{fail, submit, finish, done, Runs, bag, put, TaskPool, pool}
use runact.Scheduler.WorkStealing.{
  spawn_index, panics, turns, spawn_at, request_stop, crash, spawn, turn_at, step, run, turn,
  crash_at, Pc, top, popping, running, scanning, moving, exited, Scheduler, popped, pop_local,
  stolen, steal, push_local, act, Event, spawns, stops,
}
use runact.Scheduler.WorkStealing.Conservation.{spawn-known, step-length, turn-known, known}
use runact.Scheduler.WorkStealing.View.{view, over, is_running, submitted, more-view, put-live}

module _ {ℓ} {T : Type ℓ} where
  popped-over : (s : Scheduler T) (i : ℕ) (r : Option T × RunQueue T) → over (popped s i r) ≡ over s
  unfolding popped
  popped-over s i (none, q) = refl
  popped-over s i (some task, q) = refl

  stolen-over :
      (s : Scheduler T) (i j : ℕ) (targets : List ℕ) (r : List T × RunQueue T)
      → over (stolen s i j targets r) ≡ over s
  unfolding stolen
  stolen-over s i j targets ([], q) = refl
  stolen-over s i j targets (t ∷ ts, q) = refl

  -- Only a task that returns changes what is over.
  act-over :
      (s : Scheduler T) (i : ℕ) (pc : Pc T) → is_running pc ≡ false → over (act s i pc) ≡ over s
  unfolding act pop_local steal push_local
  act-over s i (running t) e = absurd (cc)
  act-over s i popping e = elim (Option-cases (get_elem? s.queues i)) [
    | inl e ↦ rw (e, pop_local)
    | inr (q, e) ↦ rw (e, pop_local) (popped-over s i (pop q))
  ]
  act-over s i (scanning (j ∷ targets)) e = elim (Option-cases (get_elem? s.queues j)) [
    | inl e ↦ rw (e, steal)
    | inr (q, e) ↦ rw (e, steal) (stolen-over s i j targets (steal_half q))
  ]
  act-over s i (moving (t ∷ ts)) e = elim (Option-cases (get_elem? s.queues i)) [
    | inl e ↦ rw (e, push_local)
    | inr (q, e) ↦ rw (e, push_local)
  ]
  act-over s i top e = refl
  act-over s i (scanning []) e = refl
  act-over s i (moving []) e = refl
  act-over s i exited e = refl

  turn-act :
      (s : Scheduler T) (i : ℕ) (pc : Pc T)
      → get_elem? s.workers i ≡ some pc
      → turn s i ≡ act s i pc
  unfolding turn turn_at
  turn-act s i pc at = ap (turn_at s i) at

  -- A run of the pool that starts where the scheduler is after a turn starts where it was before.
  stutter-Runs :
      (s : Scheduler T) (i : ℕ) (pc : Pc T) {ts : List T} {end : TaskPool T}
      → get_elem? s.workers i ≡ some pc
      → is_running pc ≡ false
      → Runs ts (view (act s i pc)) end
      → Runs ts (view s) end
  stutter-Runs s i pc {ts} {end} at idle rest =
      subst (λ p. Runs ts p end)
        (more-view s (act s i pc) []
          (λ w. ap (known w) (sym (turn-act s i pc at)) ∙ omega (arith, turn-known w s i))
          (act-over s i pc idle))
        rest

  act-Runs :
      (s : Scheduler T) (i : ℕ) (pc : Pc T) {ts : List T} {end : TaskPool T}
      → get_elem? s.workers i ≡ some pc
      → Runs ts (view (act s i pc)) end
      → Runs ts (view s) end
  unfolding act put
  act-Runs s i (running t) {ts} {end} at rest =
      subst (λ b. Runs ts (pool b (bag s.finished) (bag s.panicked)) end)
        (sym (put-live s i t top at refl)) (finish t rest)
  act-Runs s i top at rest = stutter-Runs s i top at refl rest
  act-Runs s i popping at rest = stutter-Runs s i popping at refl rest
  act-Runs s i (scanning js) at rest = stutter-Runs s i (scanning js) at refl rest
  act-Runs s i (moving us) at rest = stutter-Runs s i (moving us) at refl rest
  act-Runs s i exited at rest = stutter-Runs s i exited at refl rest

  turn-Runs :
      (s : Scheduler T) (i : ℕ) {ts : List T} {end : TaskPool T}
      → Runs ts (view (turn s i)) end
      → Runs ts (view s) end
  unfolding turn turn_at
  turn-Runs s i {ts} {end} rest = elim (Option-cases (get_elem? s.workers i)) [
    | inl e ↦ subst (λ o. Runs ts (view (turn_at s i o)) end) e rest
    | inr (pc, e) ↦ act-Runs s i pc e (subst (λ o. Runs ts (view (turn_at s i o)) end) e rest)
  ]

  crash-Runs :
      (s : Scheduler T) (i : ℕ) (o : Option (Pc T)) {ts : List T} {end : TaskPool T}
      → get_elem? s.workers i ≡ o
      → Runs ts (view (crash_at s i o)) end
      → Runs ts (view s) end
  unfolding crash_at put
  crash-Runs s i (some (running task)) {ts} {end} at rest =
      subst (λ b. Runs ts (pool b (bag s.finished) (bag s.panicked)) end)
        (sym (put-live s i task exited at refl)) (fail task rest)
  crash-Runs s i pc at rest = rest

  spawn-over : (s : Scheduler T) (task : T) → over (spawn s task) ≡ over s
  unfolding spawn spawn_at
  spawn-over s task = elim (Option-cases (get_elem? s.queues (spawn_index s))) [
    | inl e ↦ rw (e, spawn_at)
    | inr (q, e) ↦ rw (e, spawn_at)
  ]

  spawn-Runs :
      (s : Scheduler T) (task : T) {ts : List T} {end : TaskPool T}
      → 0 < length s.queues
      → Runs ts (view (spawn s task)) end
      → Runs (task ∷ ts) (view s) end
  unfolding put
  spawn-Runs s task {ts} {end} some_queue rest = submit task (
      subst (λ p. Runs ts p end)
        (more-view s (spawn s task) (task ∷ [])
          (λ w. omega (arith, spawn-known w s task some_queue)) (spawn-over s task))
        rest)

  still : (s : Scheduler T) (e : Event T) → 0 < length s.queues → 0 < length (step s e).queues
  still s e h = omega (arith, step-length s e)

  -- In every interleaving of worker turns, task panics, `spawn` calls and the stop request, the
  -- scheduler with at least one queue is a run of the pool of tasks without order, with
  -- exactly the same submissions in their order: a run in which, after any submission, some
  -- unfinished task returns or panics, whatever the queues, the round robin and the stealing do.
  pub run-Runs :
      (s : Scheduler T) (es : List (Event T))
      → 0 < length s.queues
      → Runs (submitted es) (view s) (view (run s es))
  unfolding run step crash request_stop
  run-Runs s [] h = done
  run-Runs s (turns i ∷ es) h = turn-Runs s i (run-Runs (turn s i) es (still s (turns i) h))
  run-Runs s (panics i ∷ es) h =
      crash-Runs s i (get_elem? s.workers i) refl
        (run-Runs (step s (panics i)) es (still s (panics i) h))
  run-Runs s (spawns task ∷ es) h =
      spawn-Runs s task h (run-Runs (spawn s task) es (still s (spawns task) h))
  run-Runs s (stops ∷ es) h = run-Runs (request_stop s) es h
