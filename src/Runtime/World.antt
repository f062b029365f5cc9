-- ===== src/Runtime/World.antt =====
-- src/runtime.rs with src/scheduler/work_stealing.rs and src/actor/context.rs: one machine in which
-- the calls of the runtime, the workers of the scheduler, the loops of the actors, their handlers
-- and the timer thread interleave. A step is one shared access. A handler is a `Script`: what it
-- asks of its context, one call at a time, with what it does on each answer; a panic is its end too.
-- `send_to` and the timer thread hold the read lock of `senders` while they wait for room, and
-- `spawn` and `shutdown` wait for that lock; no other call can see the runtime while they wait, since they
-- take `&mut self`.
pub mod Steps
pub mod Events
pub mod Calls
pub mod Accounts
pub mod Kept
pub mod Delivery
pub mod Moves
pub mod Schedule
pub mod Exclusive
pub mod Occupied
pub mod OccupiedTurns
pub mod Counting
pub mod OccupiedCalls
pub mod Limit
pub mod Stuck
pub mod StuckTurns
pub mod Deadlock
pub mod PureLoops
pub mod Orphans
pub mod Supervisors
pub mod Maps
pub mod Sequential
pub mod Folded
mod Tests
use runact.Prelude.{
  length, ℕ, ◌||◌, Bool, true, false, Option, none, some, List, [], ◌∷◌, ◌++◌, get_elem?, modify,
  set, if◌then◌else◌,
}
use runact.Any.{Types, Any, downcast}
use runact.Channel.{Channels, Sent, sent, full, disconnected, Received, got, empty, hung_up}
use runact.Actor.ActorId.{ActorId}
use runact.Actor.Error.{RuntimeError, runtime_stopped, Result, ok, err}
use runact.Actor.Context.{
  ActorContext, set_reply_sender, spawned_context, Replied, replied, blocked, reply,
}
use runact.Scheduler.Reduction.{ReductionCounter, reset, after_message}
use runact.Scheduler.Reduction
use runact.Scheduler.WorkStealing.{Pc, running, crash}
use runact.Scheduler.WorkStealing
use runact.Runtime.{
  MessageEnvelope, message, request, ActorTask, Runtime, RuntimeConfig, Blocking, returned, waits,
  with_mailbox, find_sender, send_blocking, request_from, begin_shutdown, finish_shutdown,
}
use runact.Runtime
use runact.Runtime.Events.{on_mailbox}

-- What a handler does: it ends with the new state of the actor, or panics, or makes a call.
pub data Script (u : Types) (S : Type 0) : Type 0 where
  returns : S → Script u S
  panics : Script u S
  sends : ActorId → Any u → (Result (Unit {0}) RuntimeError → Script u S) → Script u S
  replies : Any u → (Result (Unit {0}) RuntimeError → Script u S) → Script u S
  calls : (Any u → Script u S) → Script u S  -- timers, compute jobs, and all else outside

-- The actor types of a program.
pub record Actors (u : Types) : Type 1 where
  pub Kind : Type 0
  pub State : Kind → Type 0
  pub Message : Kind → u.Ty
  pub handle : (k : Kind) → u.El (Message k) → ActorContext → State k → Script u (State k)

-- Where the loop of an actor stands; `stopping` is what its load of the stop flag gave.
pub data LoopPc (u : Types) (S : Type 0) : Type 0 where
  top : S → LoopPc u S  -- before `stop.load`
  receiving : (stopping : Bool) → S → LoopPc u S  -- before `try_recv` or `recv_timeout`
  handling : (stopping : Bool) → Script u S → LoopPc u S  -- in `actor.handle`
  sending :  -- in `sender.send` of `send_to`, with the read lock of `senders`
      (stopping : Bool) (mailbox : ℕ)
      → MessageEnvelope u
      → (Result (Unit {0}) RuntimeError → Script u S)
      → LoopPc u S
  leaving : LoopPc u S  -- after `break`
  ended : LoopPc u S  -- returned or unwound, with the receiver dropped

pub record Loop {u : Types} (A : Actors u) : Type 0 where
  pub kind : A.Kind
  pub ctx : ActorContext
  pub pc : LoopPc u (A.State kind)
  pub reductions : ReductionCounter

-- Lists that only the theorems read: the envelopes that a mailbox has accepted, those that its loop
-- has taken out, and those that were dropped with the receiver.
pub record Mail (u : Types) : Type 0 where
  pub accepted : List (MessageEnvelope u)
  pub handled : List (MessageEnvelope u)
  pub lost : List (MessageEnvelope u)

-- The loop and the mail of a mailbox stand at its address. `timer_sending` is the mailbox that the timer
-- thread waits for, with the message.
pub record World {u : Types} (ch : Channels (MessageEnvelope u)) (rch : Channels (Any u))
    (A : Actors u) : Type 0 where
  pub runtime : Runtime u ch rch
  pub loops : List (Loop A)
  pub mail : List (Mail u)
  pub timer_sending : Option (ℕ × MessageEnvelope u)

module _ {u : Types} where
  abbrev pub accept : ℕ → MessageEnvelope u → List (Mail u) → List (Mail u)
  accept mailbox e mail = modify mail mailbox (λ x. record x { accepted = x.accepted ++ e ∷ [] })

  abbrev pub taken : ℕ → MessageEnvelope u → List (Mail u) → List (Mail u)
  taken mailbox e mail = modify mail mailbox (λ x. record x { handled = x.handled ++ e ∷ [] })

  abbrev pub lose : ℕ → List (MessageEnvelope u) → List (Mail u) → List (Mail u)
  lose mailbox es mail = modify mail mailbox (λ x. record x { lost = x.lost ++ es })

  -- A call that returns `Ok` has had its envelope accepted.
  abbrev pub logged :
      {X : Type 0}
      → Result ℕ RuntimeError
      → Result X RuntimeError
      → MessageEnvelope u
      → List (Mail u)
      → List (Mail u)
  logged (ok mailbox) (ok x) e mail = accept mailbox e mail
  logged (ok mailbox) (err x) e mail = mail
  logged (err x) r e mail = mail

  abbrev pub is_sending : {S : Type 0} → LoopPc u S → Bool
  is_sending (sending stopping mailbox e k) = true
  is_sending pc = false

  abbrev pub any_sending : {A : Actors u} → List (Loop A) → Bool
  any_sending [] = false
  any_sending (l ∷ ls) = is_sending l.pc || any_sending ls

  abbrev pub is_waiting : Option (ℕ × MessageEnvelope u) → Bool
  is_waiting none = false
  is_waiting (some x) = true

module _ {u : Types} {A : Actors u} where
  -- `tx` and `ctx` of `spawn`, and the closure that goes to the scheduler.
  unfoldable pub new_loop : (k : A.Kind) → A.State k → ActorId → Loop A
  unfolding spawned_context Reduction.new
  new_loop k s id = record {
    kind = k;
    ctx = spawned_context true id;
    pc = top s;
    reductions = Reduction.new;
  }

module _ {u : Types} {ch : Channels (MessageEnvelope u)} {rch : Channels (Any u)} where
  abbrev pub next_request : Runtime u ch rch → Any u → MessageEnvelope u
  next_request rt payload = request rt.request_counter payload (length rt.replies)

module _ {u : Types} {ch : Channels (MessageEnvelope u)} {rch : Channels (Any u)}
    {A : Actors u} where
  -- Some thread holds the read lock of `senders` and waits.
  unfoldable pub is_locked : World ch rch A → Bool
  is_locked w = is_waiting w.timer_sending || any_sending w.loops

  unfoldable pub spawned_loop :
      World ch rch A
      → (k : A.Kind) → A.State k
      → Result ActorId RuntimeError × Runtime u ch rch
      → World ch rch A
  unfolding new_loop
  spawned_loop w k s (err e, rt) = record w { runtime = rt }
  spawned_loop w k s (ok id, rt) = record w {
    runtime = rt;
    loops = w.loops ++ new_loop k s id ∷ [];
    mail = w.mail ++ record { accepted = []; handled = []; lost = [] } ∷ [];
  }

  unfoldable pub spawn : World ch rch A → (k : A.Kind) → A.State k → World ch rch A
  unfolding is_locked spawned_loop
  spawn w k s = if is_locked w then w else spawned_loop w k s (Runtime.spawn w.runtime)

  unfoldable pub send : World ch rch A → ActorId → Any u → World ch rch A
  send w target m =
      let (r, rt) = Runtime.send w.runtime target m in
      record w { runtime = rt; mail = logged (find_sender w.runtime target) r (message m) w.mail }

  blocking_sent : World ch rch A → ActorId → Any u → Blocking u ch rch → World ch rch A
  blocking_sent w target m waits = w
  blocking_sent w target m (returned r rt) = record w {
    runtime = rt;
    mail = logged (find_sender w.runtime target) r (message m) w.mail;
  }

  -- An external thread in `send_blocking` tries once.
  unfoldable pub try_blocking : World ch rch A → ActorId → Any u → World ch rch A
  unfolding blocking_sent
  try_blocking w target m = blocking_sent w target m (send_blocking w.runtime target m)

  unfoldable pub request_to : World ch rch A → ActorId → Any u → World ch rch A
  request_to w target m =
      let (r, rt) = request_from w.runtime target m in
      record w {
        runtime = rt;
        mail = logged (find_sender w.runtime target) r (next_request w.runtime m) w.mail;
      }
