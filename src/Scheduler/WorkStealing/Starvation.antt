-- ===== src/Scheduler/WorkStealing/Starvation.antt =====
-- What stealing does not reach: the last task of a queue whose own worker is busy or has ended.
use native.Mathlib.Decide.{ℕ_discrete}
use runact.Prelude.{
  ℕ, ◌≡◌, ◌≢◌, refl, sym, ◌∙◌, inl, inr, none, some, Option, List, [], ◌∷◌, arith, length,
  get_elem?, set, get_elem?-set_ne, All, Option-cases,
}
use runact.Scheduler.RunQueue.{RunQueue, push, pop, steal_half, steal_half_small}
use runact.Scheduler.WorkStealing.{
  Pc, top, popping, running, scanning, moving, exited, Scheduler, popped, pop_local, stolen, steal,
  push_local, act, turn, turn_at, crash, crash_at, request_stop, Event, turns, panics, spawns,
  stops, step, run,
}

-- An event that is neither a turn of worker `i` nor a call of `spawn`.
abbrev pub Avoids {ℓ} : {T : Type ℓ} → ℕ → Event T → Type 0
Avoids i (turns j) = j ≢ i
Avoids i (panics j) = Unit
Avoids i (spawns task) = ⊥
Avoids i stops = Unit

-- An event other than a call of `spawn`.
abbrev pub NoSpawn {ℓ} : {T : Type ℓ} → Event T → Type 0
NoSpawn (spawns task) = ⊥
NoSpawn _ = Unit

module _ {ℓ} {T : Type ℓ} (i : ℕ) (q : RunQueue T) (lone : length q.queue ≡ 1) where
  abbrev Holds : Scheduler T → Type ℓ
  Holds s = get_elem? s.queues i ≡ some q

  popped-Holds :
      (s : Scheduler T) (j : ℕ) (r : Option T × RunQueue T) → j ≢ i → Holds s → Holds (popped s j r)
  unfolding popped
  popped-Holds s j (none, p) ne h = h
  popped-Holds s j (some task, p) ne h = get_elem?-set_ne s.queues p ne ∙ h

  stolen-other :
      (s : Scheduler T) (i' j : ℕ) (targets : List ℕ) (r : List T × RunQueue T)
      → j ≢ i
      → Holds s
      → Holds (stolen s i' j targets r)
  unfolding stolen
  stolen-other s i' j targets ([], p) ne h = h
  stolen-other s i' j targets (t ∷ ts, p) ne h = get_elem?-set_ne s.queues p ne ∙ h

  -- A queue of one task gives nothing to a thief.
  stolen-Holds :
      (s : Scheduler T) (i' j : ℕ) (targets : List ℕ) (p : RunQueue T)
      → get_elem? s.queues j ≡ some p
      → Holds s
      → Holds (stolen s i' j targets (steal_half p))
  unfolding stolen
  stolen-Holds s i' j targets p e h = elim (ℕ_discrete j i) [
    | yes same ↦
        let own : get_elem? s.queues i ≡ some p = rw same at e in
        let one : p ≡ q = cc own in rw (one, steal_half_small q (omega arith), stolen) h
    | no ne ↦ stolen-other s i' j targets (steal_half p) ne h
  ]

  act-Holds : (s : Scheduler T) (j : ℕ) (pc : Pc T) → j ≢ i → Holds s → Holds (act s j pc)
  unfolding act pop_local steal push_local
  act-Holds s j top ne h = h
  act-Holds s j popping ne h = elim (Option-cases (get_elem? s.queues j)) [
    | inl e ↦ rw (e, pop_local) h
    | inr (p, e) ↦ rw (e, pop_local) (popped-Holds s j (pop p) ne h)
  ]
  act-Holds s j (scanning (k ∷ targets)) ne h = elim (Option-cases (get_elem? s.queues k)) [
    | inl e ↦ rw (e, steal) h
    | inr (p, e) ↦ rw (e, steal) (stolen-Holds s j k targets p e h)
  ]
  act-Holds s j (moving (t ∷ ts)) ne h = elim (Option-cases (get_elem? s.queues j)) [
    | inl e ↦ rw (e, push_local) h
    | inr (p, e) ↦ rw (e, push_local) (get_elem?-set_ne s.queues (push p t) ne ∙ h)
  ]
  act-Holds s j (running task) ne h = h
  act-Holds s j (scanning []) ne h = h
  act-Holds s j (moving []) ne h = h
  act-Holds s j exited ne h = h

  turn-Holds : (s : Scheduler T) (j : ℕ) → j ≢ i → Holds s → Holds (turn s j)
  unfolding turn turn_at
  turn-Holds s j ne h = elim (Option-cases (get_elem? s.workers j)) [
    | inl e ↦ rw (e, turn_at) h
    | inr (pc, e) ↦ rw (e, turn_at) (act-Holds s j pc ne h)
  ]

  crash_at-Holds :
      (s : Scheduler T) (j : ℕ) (pc : Option (Pc T)) → Holds s → Holds (crash_at s j pc)
  unfolding crash_at
  crash_at-Holds s j (some (running task)) h = h
  crash_at-Holds s j pc h = h

  step-Holds : (s : Scheduler T) (e : Event T) → Avoids i e → Holds s → Holds (step s e)
  unfolding step crash request_stop
  step-Holds s (turns j) ne h = turn-Holds s j ne h
  step-Holds s (panics j) ne h = crash_at-Holds s j (get_elem? s.workers j) h
  step-Holds s (spawns task) ne h = absurd ne
  step-Holds s stops ne h = h

  -- A queue that holds one task keeps it, whatever the other workers do, for as long as its own
  -- worker makes no access (it is inside a task) and nothing is spawned: no idle worker steals it.
  pub lone-run :
      (s : Scheduler T) (es : List (Event T))
      → get_elem? s.queues i ≡ some q
      → All (Avoids i) es
      → get_elem? (run s es).queues i ≡ some q
  unfolding run
  lone-run s [] h avoids = h
  lone-run s (e ∷ es) h avoids = lone-run (step s e) es (step-Holds s e avoids.0 h) avoids.1

module _ {ℓ} {T : Type ℓ} (i : ℕ) where
  abbrev HasExited : Scheduler T → Type ℓ
  HasExited s = get_elem? s.workers i ≡ some exited

  goto-HasExited :
      (ws : List (Pc T)) (j : ℕ) (pc : Pc T)
      → j ≢ i
      → get_elem? ws i ≡ some exited
      → get_elem? (set ws j pc) i ≡ some exited
  goto-HasExited ws j pc ne h = get_elem?-set_ne ws pc ne ∙ h

  popped-HasExited :
      (s : Scheduler T) (j : ℕ) (r : Option T × RunQueue T)
      → j ≢ i
      → HasExited s
      → HasExited (popped s j r)
  unfolding popped
  popped-HasExited s j (none, p) ne h = goto-HasExited s.workers j _ ne h
  popped-HasExited s j (some task, p) ne h = goto-HasExited s.workers j _ ne h

  stolen-HasExited :
      (s : Scheduler T) (j k : ℕ) (targets : List ℕ) (r : List T × RunQueue T)
      → j ≢ i
      → HasExited s
      → HasExited (stolen s j k targets r)
  unfolding stolen
  stolen-HasExited s j k targets ([], p) ne h = goto-HasExited s.workers j _ ne h
  stolen-HasExited s j k targets (t ∷ ts, p) ne h = goto-HasExited s.workers j _ ne h

  act-HasExited :
      (s : Scheduler T) (j : ℕ) (pc : Pc T) → j ≢ i → HasExited s → HasExited (act s j pc)
  unfolding act pop_local steal push_local
  act-HasExited s j top ne h = goto-HasExited s.workers j _ ne h
  act-HasExited s j popping ne h = elim (Option-cases (get_elem? s.queues j)) [
    | inl e ↦ rw (e, pop_local) h
    | inr (p, e) ↦ rw (e, pop_local) (popped-HasExited s j (pop p) ne h)
  ]
  act-HasExited s j (scanning (k ∷ targets)) ne h = elim (Option-cases (get_elem? s.queues k)) [
    | inl e ↦ rw (e, steal) (goto-HasExited s.workers j _ ne h)
    | inr (p, e) ↦ rw (e, steal) (stolen-HasExited s j k targets (steal_half p) ne h)
  ]
  act-HasExited s j (moving (t ∷ ts)) ne h = elim (Option-cases (get_elem? s.queues j)) [
    | inl e ↦ rw (e, push_local) h
    | inr (p, e) ↦ rw (e, push_local) (goto-HasExited s.workers j _ ne h)
  ]
  act-HasExited s j (running task) ne h = goto-HasExited s.workers j _ ne h
  act-HasExited s j (scanning []) ne h = goto-HasExited s.workers j _ ne h
  act-HasExited s j (moving []) ne h = goto-HasExited s.workers j _ ne h
  act-HasExited s j exited ne h = h

  -- A thread that has ended makes no access.
  turn-exited : (s : Scheduler T) → HasExited s → turn s i ≡ s
  unfolding turn turn_at act
  turn-exited s h = rw h

  turn-HasExited : (s : Scheduler T) (j : ℕ) → HasExited s → HasExited (turn s j)
  unfolding turn turn_at
  turn-HasExited s j h = elim (ℕ_discrete j i) [
    | yes same ↦ rw (same, h, turn_at, act) h
    | no ne ↦ elim (Option-cases (get_elem? s.workers j)) [
      | inl e ↦ rw (e, turn_at) h
      | inr (pc, e) ↦ rw (e, turn_at) (act-HasExited s j pc ne h)
    ]
  ]

  crash_at-HasExited :
      (s : Scheduler T) (j : ℕ) (pc : Option (Pc T))
      → get_elem? s.workers j ≡ pc
      → HasExited s
      → HasExited (crash_at s j pc)
  unfolding crash_at
  crash_at-HasExited s j (some (running task)) at h = elim (ℕ_discrete j i) [
    | yes same ↦ absurd (running≢exited (sym (rw same at at) ∙ h))
    | no ne ↦ goto-HasExited s.workers j _ ne h
  ]
    where
      running≢exited : some (running task) ≡ some exited → ⊥
      running≢exited e = cc
  crash_at-HasExited s j pc at h = h

  step-HasExited : (s : Scheduler T) (e : Event T) → NoSpawn e → HasExited s → HasExited (step s e)
  unfolding step crash request_stop
  step-HasExited s (turns j) ns h = turn-HasExited s j h
  step-HasExited s (panics j) ns h = crash_at-HasExited s j (get_elem? s.workers j) refl h
  step-HasExited s (spawns task) ns h = absurd ns
  step-HasExited s stops ns h = h

  step_exited-Holds :
      (q : RunQueue T) (s : Scheduler T) (e : Event T)
      → length q.queue ≡ 1
      → NoSpawn e
      → HasExited s
      → get_elem? s.queues i ≡ some q
      → get_elem? (step s e).queues i ≡ some q
  unfolding step
  step_exited-Holds q s (turns j) lone ns out h = elim (ℕ_discrete j i) [
    | yes same ↦ rw (same, turn-exited s out) h
    | no ne ↦ turn-Holds i q lone s j ne h
  ]
  step_exited-Holds q s (panics j) lone ns out h = step-Holds i q lone s (panics j) tt h
  step_exited-Holds q s (spawns task) lone ns out h = absurd ns
  step_exited-Holds q s stops lone ns out h = step-Holds i q lone s stops tt h

  -- Once the thread of worker i has ended (its task panicked, say) with one task in its queue, that
  -- task stays there, not run by anyone, in every continuation in which nothing more is spawned.
  pub exited-lone-run :
      (q : RunQueue T) (s : Scheduler T) (es : List (Event T))
      → length q.queue ≡ 1
      → get_elem? s.workers i ≡ some exited
      → get_elem? s.queues i ≡ some q
      → All NoSpawn es
      → get_elem? (run s es).queues i ≡ some q
  unfolding run
  exited-lone-run q s [] lone out h ns = h
  exited-lone-run q s (e ∷ es) lone out h ns =
      exited-lone-run q (step s e) es lone (step-HasExited s e ns.0 out)
        (step_exited-Holds q s e lone ns.0 out h) ns.1
