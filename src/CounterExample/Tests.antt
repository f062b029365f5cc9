-- ===== src/CounterExample/Tests.antt =====
-- examples/counter.rs: counters in a runtime, over the list channels of Channel/Fifo. The program is
-- built without overflow checks, so that its handler always returns.
use runact.Prelude.{
  true, ℕ, ◌+◌, ◌-◌, ◌%◌, ◌^◌, ◌≡◌, refl, false, Option, none, some, List, ◌∷◌, replicate,
}
use runact.Any.{Types, Any, boxed}
use runact.Any.{downcast}
use runact.Prelude.{get_elem?, All-replicate}
use runact.Prelude.HashMap.{lookup, insert}
use runact.Scheduler.RunQueue.{pop, push}
use runact.Runtime.ActorLoop.{next, foldl, readable}
use runact.Runtime.World.Folded.{StartsPure, waiting, run-IsFolded}
use runact.Channel.{Channels}
use runact.Channel.Fifo.{fifo}
use runact.Actor.ActorId.{ActorId}
use runact.Actor.ActorId
use runact.Runtime.{with_config, MessageEnvelope, default_config}
use runact.Runtime.World.{Mail, receiving, Loop, Script, returns, panics, Actors, World}
use runact.Runtime.World.Steps.{worker_turn}
use runact.Runtime.World
use runact.Runtime
use runact.Scheduler.WorkStealing
use runact.Runtime.World.Events.{step, Event, spawns, sends_to, works, new, run}
use runact.Runtime.World.PureLoops.{Pure}
use runact.CounterExample.{
  CounterActor, CounterMessage, increment, decrement, get_value, handle, incremented,
}

Unit_discrete : Discrete (Unit {0})
Unit_discrete a b = yes refl

abbrev messages : Types
messages = record { Ty = Unit {0}; El = λ _. CounterMessage; same = Unit_discrete }

abbrev say : CounterMessage → Any messages
say msg = boxed messages tt msg

abbrev script : Option CounterActor → Script messages CounterActor
script none = panics
script (some actor) = returns actor

-- A kind of counter for each start.
abbrev counters : Actors messages
counters = record {
  Kind = ℕ;
  State = λ _. CounterActor;
  Message = λ _. tt;
  handle = λ _ msg ctx actor. script (handle false msg actor);
}

abbrev answer : CounterMessage → CounterActor → CounterActor
answer increment actor = record { count = (actor.count + 1) % 2 ^ 64 }
answer decrement actor = record { count = actor.count - 1 }
answer get_value actor = actor

handle-answer :
    (msg : CounterMessage) (actor : CounterActor)
    → script (handle false msg actor) ≡ returns (answer msg actor)
unfolding handle incremented
handle-answer increment actor = refl
handle-answer decrement actor = refl
handle-answer get_value actor = refl

abbrev pure_counters : Pure counters
pure_counters = record {
  is_pure = λ start. Unit;
  init = λ start p. record { count = start };
  answer = λ _ p msg reply actor. answer msg actor;
  answers = λ _ p msg ctx actor. handle-answer msg actor;
}

abbrev events : List (Event counters)
events =
    spawns 10 (record { count = 10 })
    ∷ sends_to (ActorId.new 1) (say increment)
    ∷ sends_to (ActorId.new 1) (say decrement)
    ∷ sends_to (ActorId.new 1) (say increment)
    ∷ replicate 12 (works 0 (say get_value))

abbrev boxes : Channels (MessageEnvelope messages)
boxes = fifo (MessageEnvelope messages)

abbrev answers : Channels (Any messages)
answers = fifo (Any messages)

abbrev counted : World boxes answers counters
counted = run (new 1 default_config) events

abbrev eleven : Loop counters
eleven = record {
  kind = 10;
  ctx = record {
    actor_id = record { raw = 1 };
    senders = true;
    reply_sender = none;
    compute_sender = true;
    timer_handle = true;
  };
  pc = receiving false (record { count = 11 });
  reductions = record { count = 3 };
}

run-IsFolded_example :
    (x : Mail messages) × (get_elem? counted.mail 0 ≡ some x)
    × (record { count = 11 }
        ≡ foldl
            (next (pure_counters.answer 10 tt))
            (pure_counters.init 10 tt)
            (readable messages tt x.handled))
unfolding run with_config new step worker_turn World.spawn Runtime.send Runtime.spawn lookup insert
    WorkStealing.spawn pop push downcast handle Unit_discrete
run-IsFolded_example =
    run-IsFolded boxes answers pure_counters 1 default_config events 0 eleven
      (record { count = 11 }) tt
      (
        λ p. refl,
        (
          tt,
          (tt, (tt, All-replicate (StartsPure pure_counters) 12 {x = works 0 (say get_value)} tt)),
        ),
      )
      refl (waiting false)

-- The program's own handler, with overflow checks: the largest count and one more is a panic.
increment-panics : handle true increment (record { count = 2 ^ 64 - 1 }) ≡ none
unfolding handle incremented
increment-panics = refl
