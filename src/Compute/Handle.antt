-- ===== src/Compute/Handle.antt =====
-- src/compute/handle.rs: what the caller of a task gets. A handle is the address of the result channel
-- with that of the flag; its `PhantomData<T>` is the argument `t` of the functions here.
use runact.Prelude.{ℕ, Option, none, some, get_elem?, set}
use runact.Any.{Types, downcast}
use runact.Channel.{Channels, Received, got, empty, hung_up}
use runact.Channel.Unbounded.{Unbounded}
use runact.Actor.Error.{Result}
use runact.Compute.Tasks.{ComputeError, scheduler_shutdown, worker_panic, ComputeResult, Task}
use runact.Compute.{ComputeScheduler, ComputeHandle}

module _ (u : Types) (t : u.Ty) where
  unfoldable pub downcast_result : Option (u.El t) → Result (u.El t) ComputeError
  downcast_result (some v) = Result.ok v
  downcast_result none = Result.err (worker_panic "Type mismatch")

  unfoldable pub map_result : ComputeResult u → Result (u.El t) ComputeError
  unfolding downcast_result
  map_result (ComputeResult.ok value) = downcast_result (downcast u t value)
  map_result (ComputeResult.err e) = Result.err e
  map_result (ComputeResult.panic msg) = Result.err (worker_panic msg)
  map_result ComputeResult.timeout = Result.err (worker_panic "Task timed out")
  map_result ComputeResult.cancelled = Result.err (worker_panic "Task cancelled")

  unfoldable pub try_recv : Received (ComputeResult u) → Option (Result (u.El t) ComputeError)
  unfolding map_result
  try_recv (got r) = some (map_result r)
  try_recv empty = none
  try_recv hung_up = some (Result.err scheduler_shutdown)

  -- `recv` waits for as long as the channel is empty: `none` is that it still waits.
  unfoldable pub recv : Received (ComputeResult u) → Option (Result (u.El t) ComputeError)
  unfolding map_result
  recv (got r) = some (map_result r)
  recv empty = none
  recv hung_up = some (Result.err scheduler_shutdown)

  -- `empty` is a channel that was empty until the time was over.
  unfoldable pub recv_timeout : Received (ComputeResult u) → Result (u.El t) ComputeError
  unfolding map_result
  recv_timeout (got r) = map_result r
  recv_timeout empty = Result.err (worker_panic "Timeout")
  recv_timeout hung_up = Result.err scheduler_shutdown

module _ {u : Types} {q : Unbounded (Task u)} {rch : Channels (ComputeResult u)} where
  unfoldable pub taken :
      ComputeScheduler u q rch
      → ℕ
      → Received (ComputeResult u) × rch.Chan
      → Received (ComputeResult u) × ComputeScheduler u q rch
  taken s i (r, c) = (r, record s { results = set s.results i c })

  -- A handle always has its channel.
  unfoldable pub take_at :
      ComputeScheduler u q rch
      → ℕ
      → Option rch.Chan
      → Received (ComputeResult u) × ComputeScheduler u q rch
  unfolding taken
  take_at s i none = (empty, s)
  take_at s i (some c) = taken s i (rch.try_recv c)

  -- What the receiver of a handle gives at one moment, and the pool with it taken.
  unfoldable pub take_result :
      ComputeScheduler u q rch
      → ComputeHandle
      → Received (ComputeResult u) × ComputeScheduler u q rch
  unfolding take_at
  take_result s h = take_at s h.receiver (get_elem? s.results h.receiver)
