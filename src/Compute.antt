-- ===== src/Compute.antt =====
-- src/compute: the pool of threads for CPU work. The threads interleave: an `Event` is one shared
-- access of one worker, or a call from outside; `Pc` is where a worker stands, with its task. The
-- channels are parameters; the result channels and the cancellation flags are addressed, since a
-- handle and a task share them. `recv_timeout` gives a task, or its 10 ms pass, or it is
-- disconnected.
pub mod Tasks
pub mod Handle
pub mod Events
pub mod Conservation
pub mod Answers
pub mod Typed
pub mod Served
pub mod Delivered
pub mod Skipped
pub mod Cancelled
pub mod InTime
pub mod Roomy
pub mod Apart
pub mod Workers
pub mod Ending
pub mod Shutdown
mod Tests
use Prim.Native.String.{String}
use runact.Prelude.{
  ℕ, zero, suc, ◌+◌, ◌-◌, Bool, true, false, Option, none, some, List, [], ◌∷◌, ◌++◌, length,
  get_elem?, set, replicate, ◌==◌, if◌then◌else◌,
}
use runact.Any.{Types, Any}
use runact.Channel.{Channels, Sent, sent, full, disconnected, Received, got, empty, hung_up}
use runact.Channel.Unbounded.{Unbounded}
use runact.Actor.Error.{Result}
use runact.Compute.Tasks.{
  PanicPayload, str_slice, owned_string, other, Job, returns, panics, ComputeError,
  scheduler_shutdown, ComputeResult, Task, new_id, boxed_job,
}

-- Where a thread in `worker_loop` stands.
pub data Pc (u : Types) : Type 0 where
  top : Pc u  -- before `stop.load`
  receiving : Pc u  -- in `recv_timeout`
  checking : Task u → Pc u  -- before the first `cancelled.load`
  running : Task u → Pc u  -- inside the job
  returned : Task u → Job (Any u) → Pc u  -- before the second `cancelled.load`
  answering : Task u → ComputeResult u → Pc u  -- before `result_sender.send`
  exited : Pc u  -- the thread has ended

pub record ComputeHandle : Type 0 where
  pub receiver : ℕ
  pub cancelled : ℕ

-- The fields of `ComputeScheduler`, its threads and the shared cells; the last four lists are only
-- read by the theorems: the tasks that were accepted, those whose job was run, those answered
-- with their results, and those that went with the last receiver.
pub record ComputeScheduler (u : Types) (q : Unbounded (Task u)) (rch : Channels (ComputeResult u))
    : Type 0 where
  pub sender : Bool
  pub lent : ℕ  -- the clones that actors' contexts hold
  pub tasks : q.Chan
  pub stop : Bool
  pub workers : List (Pc u)
  pub flags : List Bool
  pub results : List rch.Chan
  pub counter : ℕ
  pub accepted : List (Task u)
  pub ran : List (Task u)
  pub answered : List (Task u × ComputeResult u)
  pub discarded : List (Task u)

-- `panic.downcast_ref::<&str>()`, else `::<String>()`, else a fixed text
unfoldable pub panic_message : PanicPayload → String
panic_message (str_slice s) = s
panic_message (owned_string s) = s
panic_message other = "Unknown panic"

unfoldable pub compute_result : {u : Types} → Job (Any u) → ComputeResult u
unfolding panic_message
compute_result (returns v) = ComputeResult.ok v
compute_result (panics p) = ComputeResult.panic (panic_message p)

-- An address that does not exist reads as not cancelled; every task has its flag.
unfoldable pub load_flag : Option Bool → Bool
load_flag none = false
load_flag (some b) = b

module _ {A : Type 0} (q : Unbounded A) where
  -- One clone of the receiver for each worker.
  unfoldable pub clone_receivers : ℕ → q.Chan → q.Chan
  clone_receivers zero c = c
  clone_receivers (suc n) c = clone_receivers n (q.clone_receiver c)

  -- What is queued when a receiver is dropped, if it is the last.
  unfoldable pub left_behind : q.Chan → List A
  left_behind c = if q.receivers c == 1 then q.queued c else []

module _ {u : Types} (rch : Channels (ComputeResult u)) where
  -- A task that is dropped takes its sender with it.
  unfoldable pub drop_result_sender : List rch.Chan → ℕ → Option rch.Chan → List rch.Chan
  drop_result_sender results i none = results
  drop_result_sender results i (some c) = set results i (rch.drop_sender c)

  unfoldable pub drop_tasks : List (Task u) → List rch.Chan → List rch.Chan
  unfolding drop_result_sender
  drop_tasks [] results = results
  drop_tasks (t ∷ ts) results =
      drop_tasks ts (drop_result_sender results t.result_sender (get_elem? results t.result_sender))

module _ {u : Types} {q : Unbounded (Task u)} {rch : Channels (ComputeResult u)} where
  -- The receiver that `new` made is dropped when it returns.
  unfoldable pub new : (max_workers : ℕ) → ComputeScheduler u q rch
  unfolding clone_receivers
  new max_workers = record {
    sender = true;
    lent = 0;
    tasks = q.drop_receiver (clone_receivers q max_workers q.unbounded);
    stop = false;
    workers = replicate max_workers top;
    flags = [];
    results = [];
    counter = 0;
    accepted = [];
    ran = [];
    answered = [];
    discarded = [];
  }

  abbrev pub goto : ComputeScheduler u q rch → ℕ → Pc u → ComputeScheduler u q rch
  goto s i pc = record s { workers = set s.workers i pc }

  unfoldable pub exit : ComputeScheduler u q rch → ℕ → ComputeScheduler u q rch
  unfolding left_behind drop_tasks
  exit s i = record s {
    workers = set s.workers i exited;
    tasks = q.drop_receiver s.tasks;
    discarded = left_behind q s.tasks ++ s.discarded;
    results = drop_tasks rch (left_behind q s.tasks) s.results;
  }

  unfoldable pub received :
      ComputeScheduler u q rch → ℕ → Received (Task u) × q.Chan → ComputeScheduler u q rch
  unfolding exit
  received s i (got t, c) = goto (record s { tasks = c }) i (checking t)
  received s i (empty, c) = goto (record s { tasks = c }) i top
  received s i (hung_up, c) = exit (record s { tasks = c }) i

  -- `let _ = task.result_sender.send(result);` blocks while the channel is full; then the task is
  -- dropped.
  unfoldable pub answer_sent :
      ComputeScheduler u q rch
      → ℕ
      → Task u
      → ComputeResult u
      → Sent × rch.Chan
      → ComputeScheduler u q rch
  answer_sent s i t r (full, c) = s
  answer_sent s i t r (sent, c) = record (goto s i top) {
    results = set s.results t.result_sender (rch.drop_sender c);
    answered = (t, r) ∷ s.answered;
  }
  answer_sent s i t r (disconnected, c) = record (goto s i top) {
    results = set s.results t.result_sender (rch.drop_sender c);
    answered = (t, r) ∷ s.answered;
  }

  -- A task always has its channel.
  unfoldable pub answer :
      ComputeScheduler u q rch
      → ℕ
      → Task u
      → ComputeResult u
      → Option rch.Chan
      → ComputeScheduler u q rch
  unfolding answer_sent
  answer s i t r none = s
  answer s i t r (some c) = answer_sent s i t r (rch.try_send c r)

  -- The next access of worker `i` in `worker_loop`.
  unfoldable pub act : ComputeScheduler u q rch → ℕ → Pc u → ComputeScheduler u q rch
  unfolding exit received answer compute_result load_flag
  act s i top = if s.stop then exit s i else goto s i receiving
  act s i receiving = received s i (q.try_recv s.tasks)
  act s i (checking t) = goto s i (
      if load_flag (get_elem? s.flags t.cancelled)
      then answering t ComputeResult.cancelled
      else running t)
  act s i (running t) = record (goto s i (returned t t.job)) { ran = t ∷ s.ran }
  act s i (returned t job) = goto s i (
      if load_flag (get_elem? s.flags t.cancelled)
      then answering t ComputeResult.cancelled
      else answering t (compute_result job))
  act s i (answering t r) = answer s i t r (get_elem? s.results t.result_sender)
  act s i exited = s

  unfoldable pub turn_at : ComputeScheduler u q rch → ℕ → Option (Pc u) → ComputeScheduler u q rch
  unfolding act
  turn_at s i none = s
  turn_at s i (some pc) = act s i pc

  unfoldable pub turn : ComputeScheduler u q rch → ℕ → ComputeScheduler u q rch
  unfolding turn_at
  turn s i = turn_at s i (get_elem? s.workers i)

  unfoldable pub submitted :
      ComputeScheduler u q rch
      → Task u
      → Bool × q.Chan
      → Result ComputeHandle ComputeError × ComputeScheduler u q rch
  submitted s t (true, c) = (
    Result.ok (record { receiver = t.result_sender; cancelled = t.cancelled }),
    record s { tasks = c; accepted = t ∷ s.accepted },
  )
  submitted s t (false, c) = (Result.err scheduler_shutdown, record s { tasks = c })

  unfoldable pub new_task : ComputeScheduler u q rch → Job (Any u) → Task u
  unfolding new_id
  new_task s job = record {
    id = (new_id s.counter).0;
    job = job;
    result_sender = length s.results;
    cancelled = length s.flags;
  }

  -- The channel, the flag and the task are made, and the task is sent: `spawn` and
  -- `ActorContext::spawn_compute` from there on.
  unfoldable pub submit :
      ComputeScheduler u q rch
      → (t : u.Ty) → Job (u.El t)
      → Result ComputeHandle ComputeError × ComputeScheduler u q rch
  unfolding submitted new_task new_id boxed_job
  submit s t job =
      let task = new_task s (boxed_job u t job) in
      submitted
        (record s {
          results = s.results ++ rch.bounded 1 ∷ [];
          flags = s.flags ++ false ∷ [];
          counter = (new_id s.counter).1;
        })
        task (q.send s.tasks task)

-- What `spawn` does: it returns, or the `unwrap` of the missing sender panics, when the task has got
-- its id.
pub data Spawned (u : Types) (q : Unbounded (Task u)) (rch : Channels (ComputeResult u))
    : Type 0 where
  spawned : Result ComputeHandle ComputeError × ComputeScheduler u q rch → Spawned u q rch
  unwrap_panics : ComputeScheduler u q rch → Spawned u q rch

module _ {u : Types} {q : Unbounded (Task u)} {rch : Channels (ComputeResult u)} where
  unfoldable pub spawn : ComputeScheduler u q rch → (t : u.Ty) → Job (u.El t) → Spawned u q rch
  unfolding submit new_id
  spawn s t job =
      if s.sender
      then spawned (submit s t job)
      else unwrap_panics (record s { counter = (new_id s.counter).1 })

  -- `ActorContext::spawn_compute`: `holds_sender` is that the context has its `compute_sender`.
  unfoldable pub spawn_compute :
      ComputeScheduler u q rch
      → (holds_sender : Bool) (t : u.Ty) → Job (u.El t)
      → Result ComputeHandle ComputeError × ComputeScheduler u q rch
  unfolding submit
  spawn_compute s holds_sender t job =
      if holds_sender then submit s t job else (Result.err scheduler_shutdown, s)

  -- `ComputeHandle::cancel` and `is_cancelled`
  unfoldable pub cancel : ComputeScheduler u q rch → ComputeHandle → ComputeScheduler u q rch
  cancel s h = record s { flags = set s.flags h.cancelled true }

  unfoldable pub is_cancelled : ComputeScheduler u q rch → ComputeHandle → Bool
  unfolding load_flag
  is_cancelled s h = load_flag (get_elem? s.flags h.cancelled)

  -- `sender()`: a clone for the context of an actor; `none` is returned when the sender is gone.
  unfoldable pub sender_clone : ComputeScheduler u q rch → Bool × ComputeScheduler u q rch
  sender_clone s =
      if s.sender
      then (true, record s { tasks = q.clone_sender s.tasks; lent = s.lent + 1 })
      else (false, s)

  -- A context that is dropped takes its clone with it.
  unfoldable pub release : ComputeScheduler u q rch → ComputeScheduler u q rch
  release s =
      if s.lent == 0 then s else record s { tasks = q.drop_sender s.tasks; lent = s.lent - 1 }

  -- `shutdown` stores the flag and drops the sender; it then joins the threads, which is a matter of
  -- their own turns.
  unfoldable pub shutdown : ComputeScheduler u q rch → ComputeScheduler u q rch
  shutdown s = record s {
    stop = true;
    sender = false;
    tasks = if s.sender then q.drop_sender s.tasks else s.tasks;
  }
