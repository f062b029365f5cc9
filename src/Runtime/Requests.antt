-- ===== src/Runtime/Requests.antt =====
-- src/runtime.rs: `RequestHandle` and `request_blocking`, over the store of reply channels.
use runact.Prelude.{ℕ, Option, none, some, List, get_elem?}
use runact.Any.{Types, Any, downcast}
use runact.Channel.{Channels, Received, got, empty, hung_up}
use runact.Actor.Error.{RuntimeError, runtime_stopped, Result, ok, err}
use runact.Runtime.{RequestHandle}

-- What a receive on a handle does now: it returns, or it blocks.
pub data Reception (u : Types) : Type 0 where
  returned : Result (Any u) RuntimeError → Reception u
  waits : Reception u

module _ {u : Types} (rch : Channels (Any u)) where
  -- `.recv().map_err(|_| RuntimeStopped)`
  unfoldable pub received : Received (Any u) → Reception u
  received (got v) = returned (ok v)
  received empty = waits
  received hung_up = returned (err runtime_stopped)

  -- `.try_recv().map_err(|_| RuntimeStopped)`; also `recv_timeout`, at the time when it returns.
  unfoldable pub received_now : Received (Any u) → Result (Any u) RuntimeError
  received_now (got v) = ok v
  received_now empty = err runtime_stopped
  received_now hung_up = err runtime_stopped

  -- The outcome on the reply channel of a handle; a handle always has its channel.
  unfoldable pub try_recv_at : Option rch.Chan → Received (Any u)
  try_recv_at none = hung_up
  try_recv_at (some c) = (rch.try_recv c).0

  unfoldable pub recv : RequestHandle → List rch.Chan → Reception u
  unfolding received try_recv_at
  recv h replies = received (try_recv_at (get_elem? replies h.receiver))

  unfoldable pub try_recv : RequestHandle → List rch.Chan → Result (Any u) RuntimeError
  unfolding received_now try_recv_at
  try_recv h replies = received_now (try_recv_at (get_elem? replies h.receiver))

  unfoldable pub recv_timeout : RequestHandle → List rch.Chan → Result (Any u) RuntimeError
  unfolding received_now try_recv_at
  recv_timeout h replies = received_now (try_recv_at (get_elem? replies h.receiver))

module _ (u : Types) (t : u.Ty) where
  -- `.downcast::<R>().map(|b| *b).map_err(|_| RuntimeStopped)`
  unfoldable pub downcast_reply : Option (u.El t) → Result (u.El t) RuntimeError
  downcast_reply none = err runtime_stopped
  downcast_reply (some v) = ok v

  unfoldable pub typed_reply : Result (Any u) RuntimeError → Result (u.El t) RuntimeError
  unfolding downcast_reply
  typed_reply (ok v) = downcast_reply (downcast u t v)
  typed_reply (err e) = err e

-- `request_blocking` while it waits for the reply, and when it has returned.
pub data Call (A : Type 0) : Type 0 where
  returned : Result A RuntimeError → Call A
  waits : Call A

module _ {u : Types} (rch : Channels (Any u)) (t : u.Ty) where
  unfoldable pub received_reply : Reception u → Call (u.El t)
  unfolding typed_reply
  received_reply (Reception.returned r) = Call.returned (typed_reply u t r)
  received_reply Reception.waits = Call.waits

  -- The receive of `request_blocking` after its `request` has returned `handle`, with the store as
  -- it is then; with a timeout, when the time is over or the reply is there.
  unfoldable pub await_reply :
      (timeout : Option ℕ) → Result RequestHandle RuntimeError → List rch.Chan → Call (u.El t)
  unfolding received_reply recv recv_timeout typed_reply
  await_reply timeout (err e) replies = Call.returned (err e)
  await_reply none (ok h) replies = received_reply (recv rch h replies)
  await_reply (some duration) (ok h) replies =
      Call.returned (typed_reply u t (recv_timeout rch h replies))
