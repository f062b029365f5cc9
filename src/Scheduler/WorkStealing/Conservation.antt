-- ===== src/Scheduler/WorkStealing/Conservation.antt =====
-- No interleaving of the worker threads loses a task or makes one up.
use runact.Prelude.{
  get_elem?-some, none, Option, length-set, ℕ, ◌+◌, ◌<◌, ◌≡◌, refl, ap, inl, inr, true, false, some,
  List, [], ◌∷◌, ◌++◌, arith, length, get_elem?, set, total, total-append, total-set, Option-cases,
  if◌then◌else◌,
}
use runact.Scheduler.RunQueue.{RunQueue, push, pop, pop_front, steal_half, steal_half-splits}
use runact.Scheduler.WorkStealing.{
  Pc, top, popping, running, scanning, moving, exited, Scheduler, spawn, spawn_at, spawn_index,
  request_stop, popped, pop_local, stolen, steal, push_local, act, turn, turn_at, crash, crash_at,
  Event, turns, panics, spawns, stops, step, run,
}

module _ {ℓ} {T : Type ℓ} (w : T → ℕ) where
  abbrev pub load : RunQueue T → ℕ
  load q = total w q.queue

  -- The tasks that a thread holds outside every queue.
  abbrev pub in_hand : Pc T → ℕ
  in_hand (running task) = w task
  in_hand (moving ts) = total w ts
  in_hand _ = 0

  -- The weight of every task that the scheduler knows of: queued, in a thread's hands, or over.
  abbrev pub known : Scheduler T → ℕ
  known s = total load s.queues + total in_hand s.workers + total w s.finished + total w s.panicked

  abbrev pub spawned : List (Event T) → ℕ
  spawned [] = 0
  spawned (spawns task ∷ es) = w task + spawned es
  spawned (_ ∷ es) = spawned es

  popped-known :
      (s : Scheduler T) (i : ℕ) (q : RunQueue T)
      → get_elem? s.workers i ≡ some popping
      → get_elem? s.queues i ≡ some q
      → (ts : List T) → q.queue ≡ ts
      → known (popped s i (pop_front ts)) ≡ known s
  unfolding popped pop_front
  popped-known s i q at here [] e = omega (arith, total-set in_hand s.workers i _ at)
  popped-known s i q at here (t ∷ ts) e = omega (
    arith,
    ap (total w) e,
    total-set in_hand s.workers i (running t) at,
    total-set load s.queues i (record { queue = ts }) here,
  )

  stolen-known :
      (s : Scheduler T) (i j : ℕ) (targets : List ℕ) (q : RunQueue T)
      → get_elem? s.workers i ≡ some (scanning (j ∷ targets))
      → get_elem? s.queues j ≡ some q
      → (ts : List T) (q' : RunQueue T) → ts ++ q'.queue ≡ q.queue
      → known (stolen s i j targets (ts, q')) ≡ known s
  unfolding stolen
  stolen-known s i j targets q at here [] q' e =
      omega (arith, total-set in_hand s.workers i (scanning targets) at)
  stolen-known s i j targets q at here (t ∷ ts) q' e = omega (
    arith,
    ap (total w) e,
    total-append w ts q'.queue,
    total-set in_hand s.workers i (moving (t ∷ ts)) at,
    total-set load s.queues j q' here,
  )

  act-known :
      (s : Scheduler T) (i : ℕ) (pc : Pc T)
      → get_elem? s.workers i ≡ some pc
      → known (act s i pc) ≡ known s
  unfolding act pop_local steal push_local pop push
  act-known s i top at =
      elim s.stop
        as (λ b.
          known (record s { workers = set s.workers i (if b then exited else popping) })
          ≡ known s) [
            | true ↦ omega (arith, total-set in_hand s.workers i exited at)
            | false ↦ omega (arith, total-set in_hand s.workers i popping at)
          ]
  act-known s i popping at = elim (Option-cases (get_elem? s.queues i)) [
    | inl e ↦ rw (e, pop_local)
    | inr (q, e) ↦ rw (e, pop_local) (popped-known s i q at e q.queue refl)
  ]
  act-known s i (running t) at = omega (arith, total-set in_hand s.workers i top at)
  act-known s i (scanning []) at = omega (arith, total-set in_hand s.workers i top at)
  act-known s i (scanning (j ∷ targets)) at = elim (Option-cases (get_elem? s.queues j)) [
    | inl e ↦ rw (e, steal) (omega (arith, total-set in_hand s.workers i (scanning targets) at))
    | inr (q, e) ↦
        rw (e, steal)
          (stolen-known s i j targets q at e (steal_half q).0 (steal_half q).1
            (steal_half-splits q).0)
  ]
  act-known s i (moving []) at = omega (arith, total-set in_hand s.workers i top at)
  act-known s i (moving (t ∷ ts)) at = elim (Option-cases (get_elem? s.queues i)) [
    | inl e ↦ rw (e, push_local)
    | inr (q, e) ↦
        rw (e, push_local)
          (omega (
            arith,
            total-append w q.queue (t ∷ []),
            total-set in_hand s.workers i (moving ts) at,
            total-set load s.queues i (push q t) e,
          ))
  ]
  act-known s i exited at = refl

  pub turn-known : (s : Scheduler T) (i : ℕ) → known (turn s i) ≡ known s
  unfolding turn turn_at
  turn-known s i = elim (Option-cases (get_elem? s.workers i)) [
    | inl e ↦ rw (e, turn_at)
    | inr (pc, e) ↦ rw (e, turn_at) (act-known s i pc e)
  ]

  crash_at-known :
      (s : Scheduler T) (i : ℕ) (pc : Option (Pc T))
      → get_elem? s.workers i ≡ pc
      → known (crash_at s i pc) ≡ known s
  unfolding crash_at
  crash_at-known s i (some (running task)) at =
      omega (arith, total-set in_hand s.workers i exited at)
  crash_at-known s i pc at = refl

  pub spawn-known :
      (s : Scheduler T) (task : T) → 0 < length s.queues → known (spawn s task) ≡ known s + w task
  unfolding spawn spawn_at push spawn_index
  spawn-known s task some_queue =
      let (q, e) = get_elem?-some s.queues (spawn_index s) (omega arith) in
      rw (e, spawn_at)
        (omega (
          arith,
          total-append w q.queue (task ∷ []),
          total-set load s.queues (spawn_index s) (push q task) e,
        ))

  -- One event leaves the weight of all known tasks as it is, but for a task that is spawned.
  pub step-known :
      (s : Scheduler T) (e : Event T)
      → 0 < length s.queues
      → known (step s e) ≡ known s + spawned (e ∷ [])
  unfolding step crash request_stop
  step-known s (turns i) h = omega (arith, turn-known s i)
  step-known s (panics i) h = omega (arith, crash_at-known s i (get_elem? s.workers i) refl)
  step-known s (spawns task) h = omega (arith, spawn-known s task h)
  step-known s stops h = omega arith

module _ {ℓ} {T : Type ℓ} where
  popped-length :
      (s : Scheduler T) (i : ℕ) (r : Option T × RunQueue T)
      → length (popped s i r).queues ≡ length s.queues
  unfolding popped
  popped-length s i (none, q) = refl
  popped-length s i (some task, q) = length-set s.queues i q

  stolen-length :
      (s : Scheduler T) (i j : ℕ) (targets : List ℕ) (r : List T × RunQueue T)
      → length (stolen s i j targets r).queues ≡ length s.queues
  unfolding stolen
  stolen-length s i j targets ([], q) = refl
  stolen-length s i j targets (t ∷ ts, q) = length-set s.queues j q

  act-length : (s : Scheduler T) (i : ℕ) (pc : Pc T) → length (act s i pc).queues ≡ length s.queues
  unfolding act pop_local steal push_local
  act-length s i popping = elim (Option-cases (get_elem? s.queues i)) [
    | inl e ↦ rw (e, pop_local)
    | inr (q, e) ↦ rw (e, pop_local) (popped-length s i (pop q))
  ]
  act-length s i (scanning (j ∷ targets)) = elim (Option-cases (get_elem? s.queues j)) [
    | inl e ↦ rw (e, steal)
    | inr (q, e) ↦ rw (e, steal) (stolen-length s i j targets (steal_half q))
  ]
  act-length s i (moving (t ∷ ts)) = elim (Option-cases (get_elem? s.queues i)) [
    | inl e ↦ rw (e, push_local)
    | inr (q, e) ↦ rw (e, push_local) (length-set s.queues i (push q t))
  ]
  act-length s i (scanning []) = refl
  act-length s i (moving []) = refl
  act-length s i pc = refl

  pub turn-length : (s : Scheduler T) (i : ℕ) → length (turn s i).queues ≡ length s.queues
  unfolding turn turn_at
  turn-length s i = elim (Option-cases (get_elem? s.workers i)) [
    | inl e ↦ rw (e, turn_at)
    | inr (pc, e) ↦ rw (e, turn_at) (act-length s i pc)
  ]

  crash_at-queues :
      (s : Scheduler T) (i : ℕ) (pc : Option (Pc T)) → (crash_at s i pc).queues ≡ s.queues
  unfolding crash_at
  crash_at-queues s i (some (running task)) = refl
  crash_at-queues s i pc = refl

  spawn-length : (s : Scheduler T) (task : T) → length (spawn s task).queues ≡ length s.queues
  unfolding spawn spawn_at
  spawn-length s task = elim (Option-cases (get_elem? s.queues (spawn_index s))) [
    | inl e ↦ rw (e, spawn_at)
    | inr (q, e) ↦ rw (e, spawn_at) (length-set s.queues (spawn_index s) (push q task))
  ]

  pub step-length : (s : Scheduler T) (e : Event T) → length (step s e).queues ≡ length s.queues
  unfolding step crash request_stop
  step-length s (turns i) = turn-length s i
  step-length s (panics i) = ap length (crash_at-queues s i (get_elem? s.workers i))
  step-length s (spawns task) = spawn-length s task
  step-length s stops = refl

module _ {ℓ} {T : Type ℓ} (w : T → ℕ) where
  pub spawned-cons :
      (e : Event T) (es : List (Event T)) → spawned w (e ∷ es) ≡ spawned w (e ∷ []) + spawned w es
  spawned-cons (spawns task) es = omega arith
  spawned-cons (turns i) es = omega arith
  spawned-cons e es = omega arith

  -- In every interleaving of worker turns, task panics, `spawn` calls and the stop request, on a
  -- scheduler with at least one queue: for every weight w of tasks, the weight of the tasks that
  -- are queued, held by a thread, returned or panicked grows by exactly the weight of the tasks
  -- spawned. So no task is lost, run twice or made up, also while tasks are being stolen.
  pub run-known :
      (s : Scheduler T) (es : List (Event T))
      → 0 < length s.queues
      → known w (run s es) ≡ known w s + spawned w es
  unfolding run
  run-known s [] h = omega arith
  run-known s (e ∷ es) h =
      omega (arith, step-known w s e h, step-length s e, run-known (step s e) es, spawned-cons e es)
