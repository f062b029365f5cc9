-- ===== src/Scheduler/WorkStealing.antt =====
-- src/scheduler/work_stealing.rs: the scheduler and its worker threads. The threads interleave: an
-- `Event` is one shared access of one thread, or a call from outside. A queue operation is one
-- access (it holds the mutex), and between the accesses of a worker any others may come; `Pc` is
-- where a worker stands, with its live locals. `thread::available_parallelism` is the number of
-- workers, an argument of `new`, and at least 1. A task that never returns is a worker that gets no more turns;
-- a task that panics ends its thread, since `worker_loop` does not catch panics.
pub mod Conservation
pub mod Balance
pub mod Starvation
pub mod Apart
pub mod Shutdown
pub mod View
pub mod Refine
pub mod Held
use runact.Prelude.{
  ℕ, zero, suc, ◌+◌, ◌%◌, ◌^◌, Bool, true, false, Option, none, some, List, [], ◌∷◌, length,
  get_elem?, set, replicate, ◌==◌, if◌then◌else◌,
}
use runact.Scheduler.RunQueue.{RunQueue, push, pop, steal_half}
use runact.Scheduler.RunQueue

-- Where a thread in `worker_loop` stands.
pub data Pc {ℓ} (T : Type ℓ) : Type ℓ where
  top : Pc T  -- before `stop.load`
  popping : Pc T  -- before `local_queue.pop()`
  running : T → Pc T  -- inside `task()`
  scanning : List ℕ → Pc T  -- in the loop over `steal_targets`, with the targets left
  moving : List T → Pc T  -- pushing the stolen tasks, with those left
  exited : Pc T  -- the thread has ended

-- The fields of `Scheduler`, its threads, and two lists that only the theorems read: the tasks
-- that have returned and those that have panicked.
pub record Scheduler {ℓ} (T : Type ℓ) : Type ℓ where
  pub queues : List (RunQueue T)
  pub next_worker : ℕ
  pub stop : Bool
  pub workers : List (Pc T)
  pub finished : List T
  pub panicked : List T

module _ {ℓ} {T : Type ℓ} where
  unfoldable pub new : ℕ → Scheduler T
  unfolding RunQueue.new
  new num_workers = record {
    queues = replicate num_workers RunQueue.new;
    next_worker = 0;
    stop = false;
    workers = replicate num_workers top;
    finished = [];
    panicked = [];
  }

  unfoldable pub worker_count : Scheduler T → ℕ
  worker_count s = length s.queues

-- `(i..n)` without `id`: the queues that worker `id` steals from, in the order of the loop.
unfoldable pub others : ℕ → ℕ → ℕ → List ℕ
others id i zero = []
others id i (suc n) = if i == id then others id (i + 1) n else i ∷ others id (i + 1) n

unfoldable pub steal_targets : ℕ → ℕ → List ℕ
unfolding others
steal_targets id num_workers = others id 0 num_workers

module _ {ℓ} {T : Type ℓ} where
  -- `spawn`: round robin over the queues. `AtomicUsize` wraps.
  spawn_at : Scheduler T → T → ℕ → Option (RunQueue T) → Scheduler T
  spawn_at s task idx none = s
  spawn_at s task idx (some q) = record s {
    queues = set s.queues idx (push q task);
    next_worker = (s.next_worker + 1) % 2 ^ 64;
  }

  unfoldable pub spawn_index : Scheduler T → ℕ
  spawn_index s = s.next_worker % length s.queues

  unfoldable pub spawn : Scheduler T → T → Scheduler T
  unfolding spawn_at spawn_index
  spawn s task = spawn_at s task (spawn_index s) (get_elem? s.queues (spawn_index s))

  -- `shutdown` stores the flag; it then joins the threads, which is a matter of their own turns.
  unfoldable pub request_stop : Scheduler T → Scheduler T
  request_stop s = record s { stop = true }

  abbrev goto : Scheduler T → ℕ → Pc T → Scheduler T
  goto s i pc = record s { workers = set s.workers i pc }

  popped : Scheduler T → ℕ → Option T × RunQueue T → Scheduler T
  popped s i (none, q) = goto s i (scanning (steal_targets i (length s.queues)))
  popped s i (some task, q) = record s {
    queues = set s.queues i q;
    workers = set s.workers i (running task);
  }

  pop_local : Scheduler T → ℕ → Option (RunQueue T) → Scheduler T
  unfolding popped
  pop_local s i none = s
  pop_local s i (some q) = popped s i (pop q)

  stolen : Scheduler T → ℕ → ℕ → List ℕ → List T × RunQueue T → Scheduler T
  stolen s i j targets ([], q) = goto s i (scanning targets)
  stolen s i j targets (t ∷ ts, q) = record s {
    queues = set s.queues j q;
    workers = set s.workers i (moving (t ∷ ts));
  }

  steal : Scheduler T → ℕ → ℕ → List ℕ → Option (RunQueue T) → Scheduler T
  unfolding stolen
  steal s i j targets none = goto s i (scanning targets)  -- every target exists
  steal s i j targets (some q) = stolen s i j targets (steal_half q)

  push_local : Scheduler T → ℕ → T → List T → Option (RunQueue T) → Scheduler T
  push_local s i t ts none = s
  push_local s i t ts (some q) = record s {
    queues = set s.queues i (push q t);
    workers = set s.workers i (moving ts);
  }

  -- The next access of worker `i` in `worker_loop`.
  act : Scheduler T → ℕ → Pc T → Scheduler T
  unfolding pop_local steal push_local
  act s i top = goto s i (if s.stop then exited else popping)
  act s i popping = pop_local s i (get_elem? s.queues i)
  act s i (running task) = record s { workers = set s.workers i top; finished = task ∷ s.finished }
  act s i (scanning []) = goto s i top
  act s i (scanning (j ∷ targets)) = steal s i j targets (get_elem? s.queues j)
  act s i (moving []) = goto s i top
  act s i (moving (t ∷ ts)) = push_local s i t ts (get_elem? s.queues i)
  act s i exited = s

  turn_at : Scheduler T → ℕ → Option (Pc T) → Scheduler T
  unfolding act
  turn_at s i none = s
  turn_at s i (some pc) = act s i pc

  unfoldable pub turn : Scheduler T → ℕ → Scheduler T
  unfolding turn_at
  turn s i = turn_at s i (get_elem? s.workers i)

  -- The task that worker `i` runs panics, and unwinds the thread.
  crash_at : Scheduler T → ℕ → Option (Pc T) → Scheduler T
  crash_at s i (some (running task)) = record s {
    workers = set s.workers i exited;
    panicked = task ∷ s.panicked;
  }
  crash_at s i pc = s

  unfoldable pub crash : Scheduler T → ℕ → Scheduler T
  unfolding crash_at
  crash s i = crash_at s i (get_elem? s.workers i)

pub data Event {ℓ} (T : Type ℓ) : Type ℓ where
  turns : ℕ → Event T  -- worker `i` makes its next access
  panics : ℕ → Event T  -- the task of worker `i` panics
  spawns : T → Event T  -- some thread calls `spawn`
  stops : Event T  -- `shutdown` stores the flag

module _ {ℓ} {T : Type ℓ} where
  unfoldable pub step : Scheduler T → Event T → Scheduler T
  unfolding turn crash spawn request_stop
  step s (turns i) = turn s i
  step s (panics i) = crash s i
  step s (spawns task) = spawn s task
  step s stops = request_stop s

  unfoldable pub run : Scheduler T → List (Event T) → Scheduler T
  unfolding step
  run s [] = s
  run s (e ∷ es) = run (step s e) es
