-- ===== src/Scheduler/WorkStealing/View.antt =====
-- The scheduler seen as a pool of tasks without order, and the moves that this view does not see.
use mathlib.Core.Quot
use runact.Prelude.{
  Bool, ℕ, ◌+◌, ◌≡◌, refl, ap, ◌∙◌, true, false, some, List, [], ◌∷◌, ◌++◌, arith, get_elem?, set,
  total, total-append, total-set,
}
use runact.Scheduler.RunQueue.{RunQueue}
use runact.Scheduler.TaskPool.{bag, put, TaskPool, pool}
use runact.Scheduler.WorkStealing.{
  Pc, top, popping, running, scanning, moving, exited, Scheduler, Event, spawns,
}
use runact.Scheduler.WorkStealing.Conservation.{load, in_hand, known}

module _ {ℓ} {T : Type ℓ} where
  abbrev pub held : Pc T → List T
  held (running task) = task ∷ []
  held (moving ts) = ts
  held _ = []

  abbrev pub queued_tasks : List (RunQueue T) → List T
  queued_tasks [] = []
  queued_tasks (q ∷ qs) = q.queue ++ queued_tasks qs

  abbrev pub held_tasks : List (Pc T) → List T
  held_tasks [] = []
  held_tasks (pc ∷ pcs) = held pc ++ held_tasks pcs

  -- The tasks that are queued or with a thread.
  abbrev pub live : Scheduler T → List T
  live s = queued_tasks s.queues ++ held_tasks s.workers

  -- The abstract state: the places of the tasks, their order and the threads forgotten.
  abbrev pub view : Scheduler T → TaskPool T
  view s = pool (bag (live s)) (bag s.finished) (bag s.panicked)

  abbrev pub submitted : List (Event T) → List T
  submitted [] = []
  submitted (spawns task ∷ es) = task ∷ submitted es
  submitted (_ ∷ es) = submitted es

module _ {ℓ} {T : Type ℓ} (w : T → ℕ) where
  total-held : (pc : Pc T) → total w (held pc) ≡ in_hand w pc
  total-held top = refl
  total-held popping = refl
  total-held (running t) = omega arith
  total-held (scanning js) = refl
  total-held (moving ts) = refl
  total-held exited = refl

  total-queued_tasks : (qs : List (RunQueue T)) → total w (queued_tasks qs) ≡ total (load w) qs
  total-queued_tasks [] = refl
  total-queued_tasks (q ∷ qs) =
      omega (arith, total-append w q.queue (queued_tasks qs), total-queued_tasks qs)

  total-held_tasks : (pcs : List (Pc T)) → total w (held_tasks pcs) ≡ total (in_hand w) pcs
  total-held_tasks [] = refl
  total-held_tasks (pc ∷ pcs) =
      omega (arith, total-append w (held pc) (held_tasks pcs), total-held pc, total-held_tasks pcs)

  total-live :
      (s : Scheduler T) → total w (live s) ≡ total (load w) s.queues + total (in_hand w) s.workers
  total-live s = omega (
    arith,
    total-append w (queued_tasks s.queues) (held_tasks s.workers),
    total-queued_tasks s.queues,
    total-held_tasks s.workers,
  )

module _ {ℓ} {T : Type ℓ} where
  -- What is over, in the two ways.
  abbrev pub over : Scheduler T → List T × List T
  over s = (s.finished, s.panicked)

  abbrev pub is_running : Pc T → Bool
  is_running (running task) = true
  is_running pc = false

  -- Nothing is over that was not, and the tasks `extra` came.
  pub more-view :
      (s s' : Scheduler T) (extra : List T)
      → ((w : T → ℕ) → known w s' ≡ known w s + total w extra)
      → over s' ≡ over s
      → view s' ≡ pool (bag (extra ++ live s)) (bag s.finished) (bag s.panicked)
  more-view s s' extra same e =
      let f : s'.finished ≡ s.finished = ap (λ o. o.0) e in
      let p : s'.panicked ≡ s.panicked = ap (λ o. o.1) e in
      let b : bag (live s') ≡ bag (extra ++ live s) = Quot.sound (λ w. omega (
        arith,
        total-live w s,
        total-live w s',
        total-append w extra (live s),
        same w,
        ap (total w) f,
        ap (total w) p,
      )) in
      ap (λ x. pool x (bag s'.finished) (bag s'.panicked)) b
      ∙ ap (λ x. pool (bag (extra ++ live s)) (bag x) (bag s'.panicked)) f
      ∙ ap (λ x. pool (bag (extra ++ live s)) (bag s.finished) (bag x)) p

  -- The task that a worker is running is one of the unfinished.
  pub put-live :
      (s : Scheduler T) (i : ℕ) (t : T) (pc : Pc T)
      → get_elem? s.workers i ≡ some (running t)
      → held pc ≡ []
      → bag (live s) ≡ put t (bag (queued_tasks s.queues ++ held_tasks (set s.workers i pc)))
  unfolding put
  put-live s i t pc at idle = Quot.sound (λ w. omega (
    arith,
    total-live w s,
    total-live w (record s { workers = set s.workers i pc }),
    total-set (in_hand w) s.workers i pc at,
    total-held w pc,
    ap (total w) idle,
  ))
