-- ===== src/Runtime/World/Events.antt =====
-- src/runtime.rs: all that happens to a world, in any order.
use runact.Prelude.{ℕ, Option, none, some, List, [], ◌∷◌, get_elem?, set, if◌then◌else◌}
use runact.Any.{Types, Any}
use runact.Channel.{Channels}
use runact.Actor.ActorId.{ActorId}
use runact.Actor.Error.{RuntimeError, Result, ok, err}
use runact.Supervision.Strategy.{RestartStrategy, ChildSpec}
use runact.Runtime.{
  MessageEnvelope, message, Runtime, RuntimeConfig, with_config, find_sender, spawn_supervisor,
  begin_shutdown, finish_shutdown,
}
use runact.Runtime.World.{Actors, World, is_locked, spawn, send, try_blocking, request_to}
use runact.Runtime.World.Steps.{try_held, worker_turn}

pub data Event {u : Types} (A : Actors u) : Type 0 where
  spawns : (k : A.Kind) → A.State k → Event A
  supervises : RestartStrategy → List ChildSpec → Event A
  sends_to : ActorId → Any u → Event A
  tries_blocking : ActorId → Any u → Event A  -- a thread in `send_blocking` tries
  requests_from : ActorId → Any u → Event A
  takes_reply : (reply : ℕ) → Event A  -- the caller of a request takes what has come
  works : (worker : ℕ) (answer : Any u) → Event A
  timer_fires : ActorId → Any u → Event A  -- the timer thread has a due timer
  timer_tries : Event A  -- and tries to send its message
  stops : Event A  -- `shutdown` begins
  clears : Event A  -- `shutdown`, after the time to drain

module _ {u : Types} {ch : Channels (MessageEnvelope u)} {rch : Channels (Any u)} where
  unfoldable pub taken_reply : Runtime u ch rch → ℕ → Option rch.Chan → Runtime u ch rch
  taken_reply rt reply none = rt
  taken_reply rt reply (some c) = record rt { replies = set rt.replies reply (rch.try_recv c).1 }

module _ {u : Types} {ch : Channels (MessageEnvelope u)} {rch : Channels (Any u)}
    {A : Actors u} where
  unfoldable pub new : (num_workers : ℕ) → RuntimeConfig → World ch rch A
  unfolding with_config
  new num_workers config = record {
    runtime = with_config num_workers config;
    loops = [];
    mail = [];
    timer_sending = none;
  }

  -- A timer for an actor that is not in the map is dropped.
  unfoldable pub timer_begins : World ch rch A → Any u → Result ℕ RuntimeError → World ch rch A
  timer_begins w m (err e) = w
  timer_begins w m (ok mailbox) = record w { timer_sending = some (mailbox, message m) }

  unfoldable pub timer_fire :
      World ch rch A → ActorId → Any u → Option (ℕ × MessageEnvelope u) → World ch rch A
  unfolding timer_begins
  timer_fire w target m none = timer_begins w m (find_sender w.runtime target)
  timer_fire w target m (some waiting) = w  -- the thread is in `sender.send`

  -- The result of the `send` is dropped.
  unfoldable pub timer_sent :
      Option (Result (Unit {0}) RuntimeError) × World ch rch A → World ch rch A
  timer_sent (none, w) = w
  timer_sent (some r, w) = record w { timer_sending = none }

  unfoldable pub timer_try : World ch rch A → Option (ℕ × MessageEnvelope u) → World ch rch A
  unfolding timer_sent try_held
  timer_try w none = w
  timer_try w (some (mailbox, e)) =
      timer_sent (try_held w mailbox e (get_elem? w.runtime.mailboxes mailbox))

  unfoldable pub clear : World ch rch A → World ch rch A
  unfolding is_locked finish_shutdown
  clear w = if is_locked w then w else record w { runtime = (finish_shutdown w.runtime).1 }

  unfoldable pub step : World ch rch A → Event A → World ch rch A
  unfolding spawn send try_blocking request_to taken_reply worker_turn timer_fire timer_try clear
      begin_shutdown spawn_supervisor
  step w (spawns k s) = spawn w k s
  step w (supervises strategy children) = record w {
    runtime = (spawn_supervisor w.runtime strategy children).1;
  }
  step w (sends_to target m) = send w target m
  step w (tries_blocking target m) = try_blocking w target m
  step w (requests_from target m) = request_to w target m
  step w (takes_reply reply) = record w {
    runtime = taken_reply w.runtime reply (get_elem? w.runtime.replies reply);
  }
  step w (works i answer) = worker_turn w i answer
  step w (timer_fires target m) = timer_fire w target m w.timer_sending
  step w timer_tries = timer_try w w.timer_sending
  step w stops = record w { runtime = begin_shutdown w.runtime }
  step w clears = clear w

  unfoldable pub run : World ch rch A → List (Event A) → World ch rch A
  unfolding step
  run w [] = w
  run w (e ∷ es) = run (step w e) es
