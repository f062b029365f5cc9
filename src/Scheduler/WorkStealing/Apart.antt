-- ===== src/Scheduler/WorkStealing/Apart.antt =====
-- What the events of other threads leave of a worker thread, and of the stop flag.
use runact.Prelude.{
  get_elem?-set_ne, Option-cases, ℕ, ◌+◌, ◌≡◌, ◌≢◌, refl, inl, inr, Option, none, some, List, [],
  ◌∷◌, get_elem?, set, ◌==◌, if◌then◌else◌, arith,
}
use runact.Scheduler.RunQueue.{RunQueue, pop, steal_half}
use runact.Scheduler.WorkStealing.{
  Pc, top, popping, running, scanning, moving, exited, Scheduler, spawn, spawn_at, spawn_index,
  popped, pop_local, stolen, steal, push_local, act, turn, turn_at, crash, crash_at, Event, turns,
  panics, spawns, stops,
}

-- How often thread `i` makes an access.
abbrev pub own_turns {ℓ} : {T : Type ℓ} → ℕ → List (Event T) → ℕ
own_turns i [] = 0
own_turns i (turns j ∷ es) = (if j == i then 1 else 0) + own_turns i es
own_turns i (_ ∷ es) = own_turns i es

pub own_turns-cons {ℓ} :
    {T : Type ℓ} (i : ℕ) (e : Event T) (es : List (Event T))
    → own_turns i (e ∷ es) ≡ own_turns i (e ∷ []) + own_turns i es
own_turns-cons i (turns j) es = omega arith
own_turns-cons i (panics j) es = omega arith
own_turns-cons i (spawns task) es = omega arith
own_turns-cons i stops es = omega arith

module _ {ℓ} {T : Type ℓ} (i : ℕ) where
  -- The thread stands where it stood, and the stop flag is what it was.
  pub record Apart (s s' : Scheduler T) : Type ℓ where
    pub place : get_elem? s'.workers i ≡ get_elem? s.workers i
    pub stop : s'.stop ≡ s.stop

  same : (s : Scheduler T) → Apart s s
  same s = record { place = refl; stop = refl }

  -- Another thread goes on.
  goes :
      (s : Scheduler T) (j : ℕ) (pc : Pc T) (qs : List (RunQueue T)) (done failed : List T)
      → j ≢ i
      → Apart s (record s {
        queues = qs;
        workers = set s.workers j pc;
        finished = done;
        panicked = failed;
      })
  goes s j pc qs done failed ne = record { place = get_elem?-set_ne s.workers pc ne; stop = refl }

  popped-Apart :
      (s : Scheduler T) (j : ℕ) (r : Option T × RunQueue T) → j ≢ i → Apart s (popped s j r)
  unfolding popped
  popped-Apart s j (none, q) ne = goes s j _ s.queues s.finished s.panicked ne
  popped-Apart s j (some task, q) ne = goes s j _ _ s.finished s.panicked ne

  stolen-Apart :
      (s : Scheduler T) (j k : ℕ) (targets : List ℕ) (r : List T × RunQueue T)
      → j ≢ i
      → Apart s (stolen s j k targets r)
  unfolding stolen
  stolen-Apart s j k targets ([], q) ne = goes s j _ s.queues s.finished s.panicked ne
  stolen-Apart s j k targets (t ∷ ts, q) ne = goes s j _ _ s.finished s.panicked ne

  act-Apart : (s : Scheduler T) (j : ℕ) (pc : Pc T) → j ≢ i → Apart s (act s j pc)
  unfolding act pop_local steal push_local
  act-Apart s j top ne = goes s j _ s.queues s.finished s.panicked ne
  act-Apart s j popping ne = elim (Option-cases (get_elem? s.queues j)) [
    | inl e ↦ rw (e, pop_local) (same s)
    | inr (q, e) ↦ rw (e, pop_local) (popped-Apart s j (pop q) ne)
  ]
  act-Apart s j (running task) ne = goes s j _ s.queues _ s.panicked ne
  act-Apart s j (scanning []) ne = goes s j _ s.queues s.finished s.panicked ne
  act-Apart s j (scanning (k ∷ targets)) ne = elim (Option-cases (get_elem? s.queues k)) [
    | inl e ↦ rw (e, steal) (goes s j _ s.queues s.finished s.panicked ne)
    | inr (q, e) ↦ rw (e, steal) (stolen-Apart s j k targets (steal_half q) ne)
  ]
  act-Apart s j (moving []) ne = goes s j _ s.queues s.finished s.panicked ne
  act-Apart s j (moving (t ∷ ts)) ne = elim (Option-cases (get_elem? s.queues j)) [
    | inl e ↦ rw (e, push_local) (same s)
    | inr (q, e) ↦ rw (e, push_local) (goes s j _ _ s.finished s.panicked ne)
  ]
  act-Apart s j exited ne = same s

  pub turn-Apart : (s : Scheduler T) (j : ℕ) → j ≢ i → Apart s (turn s j)
  unfolding turn turn_at
  turn-Apart s j ne = elim (Option-cases (get_elem? s.workers j)) [
    | inl e ↦ rw (e, turn_at) (same s)
    | inr (pc, e) ↦ rw (e, turn_at) (act-Apart s j pc ne)
  ]

  crash_at-Apart : (s : Scheduler T) (j : ℕ) (o : Option (Pc T)) → j ≢ i → Apart s (crash_at s j o)
  unfolding crash_at
  crash_at-Apart s j (some (running task)) ne = goes s j exited s.queues s.finished _ ne
  crash_at-Apart s j o ne = same s

  pub crash-Apart : (s : Scheduler T) (j : ℕ) → j ≢ i → Apart s (crash s j)
  unfolding crash
  crash-Apart s j ne = crash_at-Apart s j (get_elem? s.workers j) ne

  spawn_at-Apart :
      (s : Scheduler T) (task : T) (idx : ℕ) (o : Option (RunQueue T))
      → Apart s (spawn_at s task idx o)
  unfolding spawn_at
  spawn_at-Apart s task idx none = same s
  spawn_at-Apart s task idx (some q) = record { place = refl; stop = refl }

  pub spawn-Apart : (s : Scheduler T) (task : T) → Apart s (spawn s task)
  unfolding spawn
  spawn-Apart s task = spawn_at-Apart s task (spawn_index s) (get_elem? s.queues (spawn_index s))
