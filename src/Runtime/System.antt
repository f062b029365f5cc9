-- ===== src/Runtime/System.antt =====
-- src/runtime.rs: the runtime with its timers and its compute pool, and the methods that reach them.
use runact.Prelude.{Option, ℕ, Bool, true, false, ◌≡◌, refl}
use runact.Any.{Types, Any}
use runact.Channel.{Channels}
use runact.Channel.Unbounded.{Unbounded}
use runact.Actor.ActorId.{ActorId}
use runact.Actor.ActorId
use runact.Actor.Error.{RuntimeError, Result, ok, err}
use runact.Actor.Context.{ActorContext, spawned_context}
use runact.Compute.Tasks.{Task, ComputeResult}
use runact.Compute.{ComputeScheduler, sender_clone}
use runact.Compute
use runact.Scheduler.WorkStealing.{request_stop}
use runact.Timer
use runact.Timer.Clock.{Clock, start}
use runact.Timer.Clock
use runact.Runtime.{MessageEnvelope, Runtime, RuntimeConfig, begin_shutdown, finish_shutdown}
use runact.Runtime

pub record System (u : Types) (ch : Channels (MessageEnvelope u)) (rch : Channels (Any u))
    (q : Unbounded (Task u)) (cch : Channels (ComputeResult u)) : Type 0 where
  pub runtime : Runtime u ch rch
  pub timers : Clock (Any u)
  pub compute : ComputeScheduler u q cch

module _ {u : Types} {ch : Channels (MessageEnvelope u)} {rch : Channels (Any u)}
    {q : Unbounded (Task u)} {cch : Channels (ComputeResult u)} where
  -- `Runtime::with_config`; `timer_ids` is where the static counter of timer ids stands,
  -- and `latest` the last instant of the platform.
  unfoldable pub with_config :
      (num_workers max_workers timer_ids latest : ℕ) → RuntimeConfig → System u ch rch q cch
  unfolding Runtime.with_config Compute.new
  with_config num_workers max_workers timer_ids latest config = record {
    runtime = Runtime.with_config num_workers config;
    timers = start timer_ids latest;
    compute = Compute.new max_workers;
  }

  spawned_with :
      System u ch rch q cch
      → Result ActorId RuntimeError × Runtime u ch rch
      → Bool × ComputeScheduler u q cch
      → Result ActorContext RuntimeError × System u ch rch q cch
  unfolding spawned_context
  spawned_with s (ok id, rt) (has_compute, compute) =
      (ok (spawned_context has_compute id), record s { runtime = rt; compute = compute })
  spawned_with s (err e, rt) lent = (err e, record s { runtime = rt })

  -- `Runtime::spawn`, with the context that the loop of the actor gets.
  unfoldable pub spawn :
      System u ch rch q cch → Result ActorContext RuntimeError × System u ch rch q cch
  unfolding spawned_with Runtime.spawn sender_clone
  spawn s = spawned_with s (Runtime.spawn s.runtime) (sender_clone s.compute)

  stopped_with :
      System u ch rch q cch
      → Result (Unit {0}) RuntimeError × Runtime u ch rch
      → Result (Unit {0}) RuntimeError × System u ch rch q cch
  unfolding Timer.shutdown Compute.shutdown
  stopped_with s (ok done, rt) = (
    ok done,
    record s {
      runtime = rt;
      timers = record s.timers { service = Timer.shutdown s.timers.service };
      compute = Compute.shutdown s.compute;
    },
  )
  stopped_with s (err e, rt) = (err e, record s { runtime = rt })

  -- `Runtime::shutdown` after the time to drain: a poisoned lock returns before the timers and the
  -- pools are stopped.
  unfoldable pub shutdown :
      System u ch rch q cch → Result (Unit {0}) RuntimeError × System u ch rch q cch
  unfolding stopped_with begin_shutdown finish_shutdown
  shutdown s = stopped_with s (finish_shutdown (begin_shutdown s.runtime))

  -- `Runtime::schedule_timer`, `schedule_interval` and `cancel_timer` hand the call to the timers;
  -- `none` is a panic.
  unfoldable pub schedule_timer :
      (now duration : ℕ)
      → ActorId
      → Any u
      → System u ch rch q cch
      → Option ℕ × System u ch rch q cch
  unfolding Clock.schedule_timer
  schedule_timer now duration target m s =
      let (id, timers) = Clock.schedule_timer now duration target m s.timers in
      (id, record s { timers = timers })

  unfoldable pub schedule_interval :
      (now interval : ℕ)
      → ActorId
      → Any u
      → System u ch rch q cch
      → Option ℕ × System u ch rch q cch
  unfolding Clock.schedule_interval
  schedule_interval now interval target m s =
      let (id, timers) = Clock.schedule_interval now interval target m s.timers in
      (id, record s { timers = timers })

  unfoldable pub cancel_timer :
      (timer_id : ℕ) → System u ch rch q cch → Option (Unit {0}) × System u ch rch q cch
  unfolding Clock.cancel_timer
  cancel_timer timer_id s =
      let (done, timers) = Clock.cancel_timer timer_id s.timers in
      (done, record s { timers = timers })

  -- `Drop for Runtime`: the result of the shutdown is dropped.
  unfoldable pub drop : System u ch rch q cch → System u ch rch q cch
  unfolding shutdown
  drop s = (shutdown s).1

module _ {u : Types} {ch : Channels (MessageEnvelope u)} {rch : Channels (Any u)}
    {q : Unbounded (Task u)} {cch : Channels (ComputeResult u)} where
  -- With sound locks, a shutdown stops the timers and both pools; a spawn after it still succeeds, with
  -- a context that has no compute pool, and with id 1.
  spawn-shutdown_all :
      (s : System u ch rch q cch)
      → s.runtime.senders_poisoned ≡ false
      → s.runtime.actors_poisoned ≡ false
      → ((shutdown s).0 ≡ ok tt)
        × ((shutdown s).1.timers.service.stop ≡ true)
        × ((shutdown s).1.compute.stop ≡ true)
        × ((shutdown s).1.runtime.scheduler.stop ≡ true)
        × ((spawn (shutdown s).1).0 ≡ ok (spawned_context false (ActorId.new 1)))
  unfolding shutdown spawn ActorId.new request_stop
  spawn-shutdown_all s a b = rw (a, b) (refl, refl, refl, refl, refl)

  -- The runtime that is dropped after a shutdown is shut down again, and that changes nothing.
  drop-shutdown :
      (s : System u ch rch q cch)
      → s.runtime.senders_poisoned ≡ false
      → s.runtime.actors_poisoned ≡ false
      → drop (shutdown s).1 ≡ (shutdown s).1
  unfolding shutdown drop request_stop
  drop-shutdown s a b = rw (a, b) refl
