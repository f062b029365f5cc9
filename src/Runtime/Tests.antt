-- ===== src/Runtime/Tests.antt =====
-- src/runtime.rs: runs of the runtime on small inputs, over the list channels of Channel/Fifo.
use Prim.Native.String.{String}
use mathlib.Core.Bool.{Bool-discrete}
use runact.Prelude.{
  ◌≢◌, ◌+◌, ℕ, ◌≡◌, refl, Bool, true, false, Option, none, some, List, [], ◌∷◌, get_elem?, arith,
}
use runact.Any.{Types, Any, boxed}
use runact.Channel.{Channels}
use runact.Channel.Fifo.{fifo, fifo-IsLawful}
use runact.Actor.ActorId.{ActorId}
use runact.Actor.ActorId
use runact.Actor.Error.{ok, err, mailbox_full}
use runact.Scheduler.Reduction
use runact.Prelude.HashMap.{lookup, insert}
use runact.Runtime.{
  RequestHandle, inspect_actor, MessageEnvelope, message, request, RuntimeConfig, Runtime,
  with_config, spawn, send, request_from,
}
use runact.Runtime.Events.{Event, spawned, sent_to, run}
use runact.Runtime.Ids.{spawn-fresh}
use runact.Runtime.Routing.{
  Delivers, requesting, RoutesTo, at_capacity, send-Delivers, send-refused, request_from-Delivers,
}
use runact.Actor.Context.{ActorContext, replied, blocked, reply}
use runact.Actor.Context
use runact.Runtime.Requests.{Reception, recv}
use runact.Runtime.Replies.{IsFresh, reply-reply}
use runact.Runtime.Answered.{replier, Served, request_from-Served}
use runact.Runtime.ActorLoop.{turn, goes_on, drain, stops, Drained, LoopState, drain-Drained}

abbrev pub PayloadOf : Bool → Type 0
PayloadOf true = ℕ
PayloadOf false = String

abbrev pub payloads : Types
payloads = record { Ty = Bool; El = PayloadOf; same = Bool-discrete }

abbrev pub number : ℕ → Any payloads
number n = boxed payloads true n

abbrev word : String → Any payloads
word s = boxed payloads false s

abbrev pub boxes : Channels (MessageEnvelope payloads)
boxes = fifo (MessageEnvelope payloads)

abbrev pub answers : Channels (Any payloads)
answers = fifo (Any payloads)

abbrev config : RuntimeConfig
config = record { mailbox_capacity = 2; shutdown_timeout = 0 }

abbrev events : List (Event payloads)
events =
    spawned ∷ spawned ∷ sent_to (ActorId.new 2) (number 7) ∷ sent_to (ActorId.new 2) (word "x") ∷ []

abbrev started : Runtime payloads boxes answers
started = run (with_config 2 config) events

refused : (send started (ActorId.new 2) (number 8)).0 ≡ err (mailbox_full (ActorId.new 2))
unfolding run with_config spawn send lookup insert
refused = refl

spawn-fresh_example :
    ((spawn started).0 ≡ ok (ActorId.new 3))
    × (lookup 3 started.actors ≡ none)
    × (inspect_actor (spawn started).1 (ActorId.new 3)
        ≡ ok (some (record { id = ActorId.new 3; name = none; mailbox_depth = 0 })))
    × ((k : ℕ) → k ≢ 3 → lookup k (spawn started).1.actors ≡ lookup k started.actors)
unfolding run with_config spawn send lookup insert ActorId.new
spawn-fresh_example = spawn-fresh boxes answers 2 config events started (omega arith) refl

-- The mailbox of the first actor, which is empty, and that of the second, which is full.
abbrev empty_box : boxes.Chan
empty_box = record { items = []; bound = 2; open_end = true; senders = 1 }

abbrev full_box : boxes.Chan
full_box = record {
  items = message (number 7) ∷ message (word "x") ∷ [];
  bound = 2;
  open_end = true;
  senders = 1;
}

first_route : RoutesTo started (ActorId.new 1) 0 empty_box
unfolding run with_config spawn send lookup insert ActorId.new
first_route = record { unpoisoned = refl; routed = refl; opened = refl }

second_route : RoutesTo started (ActorId.new 2) 1 full_box
unfolding run with_config spawn send lookup insert ActorId.new
second_route = record { unpoisoned = refl; routed = refl; opened = refl }

send-Delivers_example :
    ((send started (ActorId.new 1) (number 4)).0 ≡ ok tt)
    × Delivers started 0 empty_box (message (number 4)) (send started (ActorId.new 1) (number 4)).1
send-Delivers_example =
    send-Delivers (fifo-IsLawful (MessageEnvelope payloads)) started (ActorId.new 1) (number 4) 0
      empty_box first_route refl (omega arith)

send-refused_example :
    (send started (ActorId.new 2) (number 8) ≡ (err (mailbox_full (ActorId.new 2)), started))
    × (request_from started (ActorId.new 2) (number 8) ≡ (
      err (mailbox_full (ActorId.new 2)),
      record started { request_counter = 1; replies = answers.bounded 1 ∷ [] },
    ))
unfolding run with_config spawn send request_from lookup insert
send-refused_example =
    send-refused (fifo-IsLawful (MessageEnvelope payloads)) started (ActorId.new 2) (number 8)
      (mailbox_full (ActorId.new 2))
      (at_capacity 1 full_box second_route refl (omega arith) (omega arith))

request_from-Delivers_example :
    let r = request_from started (ActorId.new 1) (number 4) in
    (r.0 ≡ ok (record { id = 0; receiver = 0 }))
    × (r.1.request_counter ≡ 1)
    × (r.1.replies ≡ answers.bounded 1 ∷ [])
    × Delivers (requesting started) 0 empty_box (request 0 (number 4) 0) r.1
unfolding run with_config spawn send request_from lookup insert
request_from-Delivers_example =
    request_from-Delivers (fifo-IsLawful (MessageEnvelope payloads)) started (ActorId.new 1)
      (number 4) 0 empty_box first_route refl (omega arith)

-- An actor that adds up the numbers that it is sent.
abbrev add_up : ℕ → Option ℕ → ℕ × boxes.Chan → ℕ × boxes.Chan
add_up m reply (total, c) = (total + m, c)

abbrev adding : LoopState boxes ℕ
adding = record { actor = 3; mailbox = full_box; reply_sender = none; reductions = Reduction.new }

drain-Drained_example :
    (w : LoopState boxes ℕ) × (drain true add_up 3 adding ≡ stops w)
    × Drained true add_up
        (λ m reply total. total + m)
        (λ m reply total c. refl)
        full_box.items
        adding
        w
drain-Drained_example =
    drain-Drained true add_up (λ m reply total. total + m) (λ m reply total c. refl)
      (fifo-IsLawful (MessageEnvelope payloads)) full_box.items adding refl

-- A handler that has a request to answer, with its new reply channel.
abbrev asked : ActorContext
asked = Context.set_reply_sender (some 0) (Context.new (ActorId.new 1))

abbrev new_replies : List answers.Chan
new_replies = answers.bounded 1 ∷ []

first_reply : IsFresh answers new_replies 0
first_reply = record {
  channel = answers.bounded 1;
  stored = refl;
  unused = refl;
  one = refl;
  awaited = refl;
}

reply-reply_example :
    (replies' : List answers.Chan) × (reply answers asked (number 5) new_replies
      ≡ replied (ok tt) replies')
    × (recv answers (record { id = 9; receiver = 0 }) replies' ≡ Reception.returned (ok (number 5)))
    × (reply answers asked (word "again") replies' ≡ blocked)
unfolding Context.set_reply_sender
reply-reply_example =
    reply-reply (fifo-IsLawful (Any payloads)) asked 0 (number 5) (word "again") new_replies 9 refl
      first_reply

-- An actor that counts its requests, and answers each with the text "done".
abbrev counting : ℕ → ℕ → String × ℕ
counting m count = ("done", count + 1)

request_from-Served_example :
    let result = request_from started (ActorId.new 1) (number 4) in
    (handle : RequestHandle) × (now : boxes.Chan) × (w : LoopState boxes (ℕ × List answers.Chan))
    × (result.0 ≡ ok handle)
    × (get_elem? result.1.mailboxes 0 ≡ some now)
    × (turn true (replier boxes answers true false counting) false (record {
      actor = (0, result.1.replies);
      mailbox = now;
      reply_sender = none;
      reductions = Reduction.new;
    })
        ≡ goes_on w)
    × Served boxes answers true false counting 4 0 handle w
request_from-Served_example =
    request_from-Served (fifo-IsLawful (MessageEnvelope payloads)) (fifo-IsLawful (Any payloads))
      true false counting started (ActorId.new 1) 0 empty_box first_route refl refl (omega arith) 4
      0 false none Reduction.new
