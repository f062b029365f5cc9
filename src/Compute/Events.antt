-- ===== src/Compute/Events.antt =====
-- src/compute: everything that happens to the pool, in any order: accesses of the workers, and calls
-- through the scheduler, an actor's context and the handles.
use runact.Prelude.{ℕ, Option, none, some, List, [], ◌∷◌, ltb, get_elem?, set}
use runact.Any.{Types}
use runact.Channel.{Channels}
use runact.Channel.Unbounded.{Unbounded}
use runact.Compute.Tasks.{Job, ComputeResult, Task}
use runact.Compute.{
  ComputeScheduler, ComputeHandle, Spawned, spawned, unwrap_panics, turn, spawn, spawn_compute,
  cancel, shutdown, sender_clone, release,
}
use runact.Compute.Handle.{take_result}

pub data Event (u : Types) : Type 0 where
  turns : ℕ → Event u  -- worker `i` makes its next access
  spawns : (t : u.Ty) → Job (u.El t) → Event u  -- `ComputeScheduler::spawn`
  submits : (t : u.Ty) → Job (u.El t) → Event u  -- `ActorContext::spawn_compute`, through a lent sender
  cancels : ComputeHandle → Event u
  drops_handle : ComputeHandle → Event u
  polls : ComputeHandle → Event u  -- `try_recv`, `recv` or `recv_timeout` looks at the channel
  lends releases : Event u  -- an actor's context gets a sender, or is dropped
  shuts_down : Event u

module _ {u : Types} {q : Unbounded (Task u)} {rch : Channels (ComputeResult u)} where
  unfoldable pub after_spawn : ComputeScheduler u q rch → Spawned u q rch → ComputeScheduler u q rch
  after_spawn s (spawned r) = r.1
  after_spawn s (unwrap_panics s') = s'

  -- A handle that is dropped takes the receiver of its result with it.
  unfoldable pub drop_handle :
      ComputeScheduler u q rch → ℕ → Option rch.Chan → ComputeScheduler u q rch
  drop_handle s i none = s
  drop_handle s i (some c) = record s { results = set s.results i (rch.drop_receiver c) }

  unfoldable pub step : ComputeScheduler u q rch → Event u → ComputeScheduler u q rch
  unfolding after_spawn drop_handle
  step s (turns i) = turn s i
  step s (spawns t job) = after_spawn s (spawn s t job)
  step s (submits t job) = (spawn_compute s (ltb 0 s.lent) t job).1
  step s (cancels h) = cancel s h
  step s (drops_handle h) = drop_handle s h.receiver (get_elem? s.results h.receiver)
  step s (polls h) = (take_result s h).1
  step s lends = (sender_clone s).1
  step s releases = release s
  step s shuts_down = shutdown s

  unfoldable pub run : ComputeScheduler u q rch → List (Event u) → ComputeScheduler u q rch
  unfolding step
  run s [] = s
  run s (e ∷ es) = run (step s e) es
