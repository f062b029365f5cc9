-- ===== src/Runtime/World/Exclusive.antt =====
-- src/runtime.rs: no two workers are in the loop of one actor.
use runact.Prelude.{
  ℕ, suc, zero, ◌<◌, ◌≤◌, ◌≡◌, ◌≢◌, ◌==◌, ==_self, refl, ap, some, List, [], ◌∷◌, length,
  length-replicate, get_elem?, total, total-replicate, total-append, total-ge, total-ge_two,
  if◌then◌else◌, arith,
}
use runact.Any.{Types, Any}
use runact.Channel.{Channels}
use runact.Scheduler.WorkStealing.{Scheduler, running, top}
use runact.Scheduler.WorkStealing
use runact.Scheduler.WorkStealing.Conservation.{known, load, in_hand, spawned, run-known}
use runact.Scheduler.RunQueue
use runact.Runtime.{MessageEnvelope, ActorTask, RuntimeConfig}
use runact.Runtime.World.{Actors}
use runact.Runtime.World.Events.{Event, new, run}
use runact.Runtime.World.Schedule.{opened_by, numbers, Schedule, run-Schedule}

abbrev pub counts : ℕ → ℕ → ℕ
counts m k = if k == m then 1 else 0

-- Whether a task is the loop of mailbox `m`.
abbrev pub loop_of : ℕ → ActorTask → ℕ
loop_of m task = counts m task.mailbox

spawned-loop_of :
    (m : ℕ) (ts : List (WorkStealing.Event ActorTask))
    → spawned (loop_of m) ts ≡ total (counts m) (opened_by ts)
spawned-loop_of m [] = refl
spawned-loop_of m (WorkStealing.spawns task ∷ ts) = omega (arith, spawned-loop_of m ts)
spawned-loop_of m (WorkStealing.turns i ∷ ts) = spawned-loop_of m ts
spawned-loop_of m (WorkStealing.panics i ∷ ts) = spawned-loop_of m ts
spawned-loop_of m (WorkStealing.stops ∷ ts) = spawned-loop_of m ts

numbers-none : (m n : ℕ) → n ≤ m → total (counts m) (numbers n) ≡ 0
numbers-none m zero h = refl
numbers-none m (suc n) h =
    ground
      (arith, total-append (counts m) (numbers n) (n ∷ []), numbers-none m n (omega (arith, h)))

-- Each number is there once.
numbers-once : (m n : ℕ) → total (counts m) (numbers n) ≤ 1
numbers-once m zero = omega arith
numbers-once m (suc n) =
    ground (arith, total-append (counts m) (numbers n) (n ∷ []), numbers-once m n, numbers-none m n)

known-new : (w : ActorTask → ℕ) (n : ℕ) → known w (WorkStealing.new n) ≡ 0
unfolding WorkStealing.new RunQueue.new
known-new w n =
    omega
      (arith, total-replicate (load w) n RunQueue.new refl, total-replicate (in_hand w) n top refl)

-- The loop of a mailbox is a task at most once: queued, in a thread's hands, or over.
Schedule-once :
    (workers n : ℕ) (s : Scheduler ActorTask) (m : ℕ)
    → 0 < workers
    → Schedule (WorkStealing.new workers) n s
    → known (loop_of m) s ≤ 1
unfolding WorkStealing.new
Schedule-once workers n s m some_worker c = omega (
  arith,
  ap (known (loop_of m)) c.ends,
  run-known (loop_of m) (WorkStealing.new workers) c.events
      (omega (arith, some_worker, length-replicate workers (RunQueue.new {T = ActorTask}))),
  known-new (loop_of m) workers,
  spawned-loop_of m c.events,
  ap (total (counts m)) c.addresses,
  numbers-once m n,
)

-- From a new runtime with at least one worker, in every interleaving, with panics and with tasks that
-- are being stolen: two workers that are both in the loop of an actor are in the loops of different
-- mailboxes, so at most one thread handles the messages of an actor; and neither loop has
-- returned or panicked before.
pub run-exclusive :
    {u : Types} (ch : Channels (MessageEnvelope u)) (rch : Channels (Any u)) (A : Actors u)
    (num_workers : ℕ) (config : RuntimeConfig) (es : List (Event A)) (i j : ℕ)
    (task other : ActorTask)
    → 0 < num_workers
    → i ≢ j
    → let s = (run (new {ch = ch} {rch = rch} num_workers config) es).runtime.scheduler in
      get_elem? s.workers i ≡ some (running task)
      → get_elem? s.workers j ≡ some (running other)
      → (other.mailbox ≢ task.mailbox)
        × (total (loop_of task.mailbox) s.finished ≡ 0)
        × (total (loop_of task.mailbox) s.panicked ≡ 0)
run-exclusive ch rch A num_workers config es i j task other some_worker ne at at' =
    let w = run (new {ch = ch} {rch = rch} {A = A} num_workers config) es in
    let s = w.runtime.scheduler in
    let m = task.mailbox in
    let once =
      Schedule-once num_workers (length w.runtime.mailboxes) s m some_worker
        (run-Schedule ch rch A num_workers config es) in
    let mine = total-ge (in_hand (loop_of m)) s.workers i at in
    let both = total-ge_two (in_hand (loop_of m)) s.workers i j ne at at' in
    (
      λ same. ground (arith, once, both, same, ==_self m),
      ground (arith, once, mine, ==_self m),
      ground (arith, once, mine, ==_self m),
    )
