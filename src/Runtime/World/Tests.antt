-- ===== src/Runtime/World/Tests.antt =====
-- src/runtime.rs: worlds on small inputs, over the list channels of Channel/Fifo.
use runact.Prelude.{
  All-replicate, ◌≢◌, ◌≤◌, ◌+◌, ◌==◌, ℕ, suc, ◌≡◌, refl, Bool, true, false, none, some, List, [],
  ◌∷◌, length, replicate, get_elem?, arith, total,
}
use runact.Channel.Fifo.{fifo-IsLawful}
use runact.Actor.ActorId.{ActorId}
use runact.Actor.ActorId
use runact.Scheduler.WorkStealing
use runact.Scheduler.WorkStealing.{running}
use runact.Runtime.{MessageEnvelope, message, RuntimeConfig, ActorTask, with_config}
use runact.Runtime
use runact.Runtime.Tests.{payloads, number, boxes, answers}
use runact.Runtime.World.{
  Script, returns, panics, sends, replies, calls, Actors, World, Mail, spawn, sending, is_locked,
}
use runact.Runtime.World
use runact.Runtime.World.Steps.{worker_turn}
use runact.Prelude.HashMap.{lookup, insert}
use runact.Scheduler.RunQueue.{pop, push}
use runact.Any.{downcast}
use runact.Prelude.{zero}
use runact.Runtime.World.Accounts.{Accounts}
use runact.Runtime.World.Delivery.{run-Accounts_world, run-within-capacity}
use runact.Runtime.World.Schedule.{Schedule, run-Schedule}
use runact.Runtime.World.Occupied.{started}
use runact.Runtime.World.Limit.{is_shutdown, run-started-le}
use runact.Runtime.World.Exclusive.{loop_of, run-exclusive}
use runact.Runtime.World.Supervisors.{IsUnreachable, send-spawn_supervisor}
use runact.Runtime.{spawn_supervisor}
use runact.Supervision.Strategy.{default_strategy}
use runact.Actor.Error.{ok}
use runact.Runtime.World.Events.{supervises}
use runact.Runtime.World.Stuck.{IsFull, Waits, SameGroup}
use runact.Runtime.World.Deadlock.{run-SameGroup}
use runact.Runtime.World.Events.{Event, spawns, sends_to, works, stops, clears, new, run, step}

-- An actor that sends each message to itself twice.
abbrev doubler : Actors payloads
doubler = record {
  Kind = Unit {0};
  State = λ _. ℕ;
  Message = λ _. true;
  handle = λ _ n ctx s.
      sends ctx.actor_id (number n) (λ _. sends ctx.actor_id (number n) (λ _. returns (s + n)));
}

abbrev config : RuntimeConfig
config = record { mailbox_capacity = 1; shutdown_timeout = 0 }

abbrev work : ℕ → List (Event doubler)
work n = replicate n (works 0 (number 0))

abbrev events : List (Event doubler)
events = spawns tt 0 ∷ sends_to (ActorId.new 1) (number 7) ∷ work 7

abbrev reached : World boxes answers doubler
reached = run (new 2 config) events

-- The mailbox of the actor, which is full, and what became of its messages.
abbrev seven : MessageEnvelope payloads
seven = message (number 7)

abbrev full_box : boxes.Chan
full_box = record { items = seven ∷ []; bound = 1; open_end = true; senders = 1 }

abbrev mail_so_far : Mail payloads
mail_so_far = record { accepted = seven ∷ seven ∷ []; handled = seven ∷ []; lost = [] }

run-Accounts_world_example :
    (x : Mail payloads) × (get_elem? reached.mail 0 ≡ some x) × Accounts boxes 1 full_box x
unfolding run with_config new step worker_turn World.spawn Runtime.send Runtime.spawn lookup insert
    WorkStealing.spawn pop push downcast
run-Accounts_world_example =
    run-Accounts_world boxes answers doubler 2 config events 0 full_box
      (fifo-IsLawful (MessageEnvelope payloads)) (omega arith) refl

run-within-capacity_example : length full_box.items ≤ 1
unfolding run with_config new step worker_turn World.spawn Runtime.send Runtime.spawn lookup insert
    WorkStealing.spawn pop push downcast
run-within-capacity_example =
    run-within-capacity boxes answers doubler 2 config events 0 full_box
      (fifo-IsLawful (MessageEnvelope payloads)) (omega arith) refl

mail_so_far-reached : get_elem? reached.mail 0 ≡ some mail_so_far
unfolding run with_config new step worker_turn World.spawn Runtime.send Runtime.spawn lookup insert
    WorkStealing.spawn pop push downcast
mail_so_far-reached = refl

run-Schedule_example :
    Schedule (WorkStealing.new 2) (length reached.runtime.mailboxes) reached.runtime.scheduler
run-Schedule_example = run-Schedule boxes answers doubler 2 config events

run-started-le_example : total started reached.mail ≤ 2
run-started-le_example =
    run-started-le boxes answers doubler 2 config events (fifo-IsLawful (MessageEnvelope payloads))
      (
        refl,
        (
          refl,
          All-replicate (λ (e : Event doubler). is_shutdown e ≡ false) 7 {x = works 0 (number 0)}
              refl,
        ),
      )

-- Two actors, each with a worker.
abbrev two_events : List (Event doubler)
two_events =
    spawns tt 0
    ∷ spawns tt 0
    ∷ works 0 (number 0)
    ∷ works 1 (number 0)
    ∷ works 0 (number 0)
    ∷ works 1 (number 0)
    ∷ []

abbrev both : World boxes answers doubler
both = run (new 2 config) two_events

abbrev first_task : ActorTask
first_task = record { id = ActorId.new 1; mailbox = 0 }

abbrev second_task : ActorTask
second_task = record { id = ActorId.new 2; mailbox = 1 }

run-exclusive_example :
    let s = both.runtime.scheduler in
    (second_task.mailbox ≢ first_task.mailbox)
    × (total (loop_of 0) s.finished ≡ 0)
    × (total (loop_of 0) s.panicked ≡ 0)
unfolding run with_config new step worker_turn World.spawn Runtime.send Runtime.spawn lookup insert
    WorkStealing.spawn pop push downcast ActorId.new
run-exclusive_example =
    run-exclusive boxes answers doubler 2 config two_events 0 1 first_task second_task (omega arith)
      (omega arith) refl refl

-- The actor alone is a group that waits for itself.
abbrev alone : ℕ → Bool
alone m = m == 0

filled : (m : ℕ) → alone m ≡ true → IsFull boxes reached.runtime.mailboxes m
unfolding run with_config new step worker_turn World.spawn Runtime.send Runtime.spawn lookup insert
    WorkStealing.spawn pop push downcast
filled zero d = record {
  chan = full_box;
  box = refl;
  alive = refl;
  pos = omega arith;
  over = omega arith;
}
filled (suc m) d = absurd (ground arith)

Waits-alone : (m : ℕ) → alone m ≡ true → Waits alone reached.loops m
unfolding run with_config new step worker_turn World.spawn Runtime.send Runtime.spawn lookup insert
    WorkStealing.spawn pop push downcast
Waits-alone zero d = record {
  loop = record {
    kind = tt;
    ctx = record {
      actor_id = record { raw = 1 };
      senders = true;
      reply_sender = none;
      compute_sender = true;
      timer_handle = true;
    };
    pc = sending false 0 seven (λ _. returns 7);
    reductions = record { count = 0 };
  };
  here = refl;
  stopping = false;
  target = 0;
  in_group = refl;
  envelope = seven;
  next = λ _. returns 7;
  stands = refl;
}
Waits-alone (suc m) d = absurd (ground arith)

abbrev later : List (Event doubler)
later = stops ∷ spawns tt 0 ∷ clears ∷ work 3

run-SameGroup_example :
    SameGroup alone reached (run reached later) × (is_locked (run reached later) ≡ true)
run-SameGroup_example =
    run-SameGroup alone reached later 0 (fifo-IsLawful (MessageEnvelope payloads)) refl
      (record { filled = filled; waits = Waits-alone })

-- After the supervisor another actor is spawned, and a message is sent to the supervisor.
abbrev later_events : List (Event doubler)
later_events = spawns tt 0 ∷ sends_to (ActorId.new 2) (number 7) ∷ []

send-spawn_supervisor_example :
    ((spawn_supervisor reached.runtime default_strategy []).0 ≡ ok (ActorId.new 2))
    × IsUnreachable
        (run (step reached (supervises default_strategy [])) later_events)
        (ActorId.new 2)
unfolding run with_config new step worker_turn World.spawn Runtime.send Runtime.spawn lookup insert
    WorkStealing.spawn pop push downcast
send-spawn_supervisor_example =
    send-spawn_supervisor boxes answers doubler 2 config events later_events default_strategy []
      (omega arith) (refl, (refl, tt))
