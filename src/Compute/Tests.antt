-- ===== src/Compute/Tests.antt =====
-- src/compute: runs of the pool on small inputs, over the list channels of Channel.
use Prim.Native.String.{String}
use mathlib.Core.Bool.{Bool-discrete}
use runact.Prelude.{
  All, arith, get_elem?, some, replicate, ℕ, ◌+◌, ◌≡◌, ◌≤◌, refl, Bool, true, false, some, List, [],
  ◌∷◌, total,
}
use runact.Any.{Types, downcast}
use runact.Channel.Fifo.{fifo, fifo-IsLawful}
use runact.Channel.Unbounded.{ends, ends-IsLawful}
use runact.Actor.Error.{Result}
use runact.Compute.Tasks.{worker_panic, returns, panics, str_slice, ComputeResult, Task}
use runact.Compute.{
  exited, turn, spawn_compute, sender_clone, cancel, ComputeScheduler, ComputeHandle, new, submit,
  unwrap_panics, spawn, shutdown,
}
use runact.Compute.Events.{Event, turns, spawns, submits, cancels, lends, run}
use runact.Compute.Handle.{try_recv, take_result}
use runact.Compute.Conservation.{in_hand, of_answer}
use runact.Compute.Answers.{slot, run-Accounts}
use runact.Compute.Shutdown.{shutdown-exits}
use runact.Compute.InTime.{cancel-Skips}
use runact.Compute.Delivered.{IsReading, submit-IsReading}

abbrev PayloadOf : Bool → Type 0
PayloadOf true = ℕ
PayloadOf false = String

abbrev payloads : Types
payloads = record { Ty = Bool; El = PayloadOf; same = Bool-discrete }

abbrev Pool : Type 0
Pool = ComputeScheduler payloads (ends (Task payloads)) (fifo (ComputeResult payloads))

-- Two workers and four jobs: one answers a number, one panics, one is cancelled before a worker
-- takes it, and one comes from an actor.
abbrev history : List (Event payloads)
history =
    spawns true (returns 7)
    ∷ spawns false (panics (str_slice "boom"))
    ∷ spawns true (returns 9)
    ∷ cancels (record { receiver = 2; cancelled = 2 })
    ∷ lends
    ∷ submits true (returns 11)
    ∷ turns 0
    ∷ turns 0
    ∷ turns 1
    ∷ turns 1
    ∷ turns 0
    ∷ turns 0
    ∷ turns 1
    ∷ turns 0
    ∷ turns 0
    ∷ turns 1
    ∷ []

abbrev start : Pool
start = new 2

abbrev start_after : Pool
start_after = run start history

abbrev work : List (Event payloads)
work = replicate 20 (turns 0)

abbrev last_handle : ComputeHandle
last_handle = record { receiver = 4; cancelled = 4 }

run-Accounts_example :
    let s : Pool = run start history in
    (total (λ t. t.id) s.accepted
      ≡ total (λ t. t.id) s.tasks.items
        + total (in_hand (λ t. t.id)) s.workers
        + total (of_answer (λ t. t.id)) s.answered
        + total (λ t. t.id) s.discarded)
    × (total (of_answer (slot 0)) s.answered ≤ 1)
run-Accounts_example =
    run-Accounts (ends-IsLawful (Task payloads)) (fifo (ComputeResult payloads)) 2 history
      (λ t. t.id) 0

-- The first job has been answered and read.
first_read :
    let s : Pool = run start history in
    try_recv payloads true (take_result s (record { receiver = 0; cancelled = 0 })).0
    ≡ some (Result.ok 7)
unfolding run new try_recv take_result turn spawn_compute sender_clone cancel spawn downcast
first_read = refl

submit-IsReading_example : IsReading payloads true (returns 5) (
    try_recv payloads true
      (take_result
        (run {q = ends (Task payloads)} {rch = fifo (ComputeResult payloads)}
          (submit (run start history) true (returns 5)).1
          work)
        last_handle).0)
unfolding run new submit turn spawn_compute sender_clone cancel spawn
submit-IsReading_example =
    submit-IsReading (ends-IsLawful (Task payloads)) (fifo-IsLawful (ComputeResult payloads)) 2
      history work true (returns 5) last_handle refl

later_read :
    try_recv payloads true
      (take_result (run (submit (run start history) true (returns 5)).1 work) last_handle).0
    ≡ some (Result.ok 5)
unfolding run new submit turn spawn_compute sender_clone cancel spawn try_recv take_result downcast
later_read = refl

-- The pool with the job queued last, and one more that comes after it.
abbrev submitted_pool : Pool
submitted_pool = run (submit start_after true (returns 5)).1 (spawns false (returns "late") ∷ [])

cancel-Skips_example :
    (total (slot 4) (run (cancel submitted_pool last_handle) work).ran ≡ 0)
    × All
        (λ a. a.0.result_sender ≡ 4 → a.1 ≡ ComputeResult.cancelled)
        (run (cancel submitted_pool last_handle) work).answered
unfolding run new submit turn spawn_compute sender_clone cancel spawn
cancel-Skips_example =
    cancel-Skips {rch = fifo (ComputeResult payloads)} (ends-IsLawful (Task payloads)) 2 history
      (spawns false (returns "late") ∷ []) work true (returns 5) last_handle submitted_pool refl
      refl refl refl

-- It is taken, and answered without being run.
skipped :
    try_recv payloads true
      (take_result (run (cancel submitted_pool last_handle) work) last_handle).0
    ≡ some (Result.err (worker_panic "Task cancelled"))
unfolding run new submit turn spawn_compute sender_clone cancel spawn try_recv take_result downcast
skipped = refl

shutdown-exits_example :
    get_elem? (run (shutdown start_after) (replicate 6 (turns 1))).workers 1 ≡ some exited
unfolding new
shutdown-exits_example =
    shutdown-exits (ends-IsLawful (Task payloads)) (fifo-IsLawful (ComputeResult payloads)) 2
      history (replicate 6 (turns 1)) 1 (omega arith) (omega arith)

-- The sender is gone after a shutdown, and the next `spawn` panics.
spawn_after_shutdown :
    spawn (shutdown start) true (returns 1)
    ≡ unwrap_panics (record (shutdown start) { counter = 1 })
unfolding spawn shutdown new
spawn_after_shutdown = refl
