-- ===== src/SupervisorTests.antt =====
-- src/supervision/supervisor_actor.rs, its tests: the supervisor as an actor of a runtime, next to
-- `TestCounter` actors. The handler reads the clock by calls outside, twice; a `sleep` is turns
-- of the worker that runs the supervisor, at one instant. The channels are the lists of
-- Channel/Fifo, and there are two workers.
pub mod Scenarios
use runact.Prelude.{
  refl, zero, suc, ℕ, ◌*◌, ◌^◌, Bool, true, false, Option, none, some, List, [], ◌∷◌, ◌++◌,
  replicate, get_elem?,
}
use runact.Any.{Types, Any, boxed, downcast}
use runact.Channel.{Channels, Received, got, empty, hung_up}
use runact.Channel.Fifo.{fifo}
use runact.Actor.Context.{ActorContext}
use runact.Supervision.SupervisorActor.{
  SupervisorMessage, get_status, ChildStatus, SupervisorActor, Handled, handled, panicked, handle,
  TestCounterMessage, TestCounter, handle_counter,
}
use runact.Runtime.{MessageEnvelope, default_config}
use runact.Runtime.World.{Script, returns, panics, replies, calls, Actors, World}
use runact.Runtime.World.Events.{Event, works, new, run}

-- The types of the boxed values: the two message types, `Vec<ChildStatus>`, and `u64` with instants.
pub data ValueType : Type 0 where
  supervisor_message_type counter_message_type statuses_type number_type : ValueType

unfoldable pub ValueType_discrete : Discrete ValueType
ValueType_discrete supervisor_message_type supervisor_message_type = yes refl
ValueType_discrete supervisor_message_type counter_message_type = no (λ e. cc)
ValueType_discrete supervisor_message_type statuses_type = no (λ e. cc)
ValueType_discrete supervisor_message_type number_type = no (λ e. cc)
ValueType_discrete counter_message_type supervisor_message_type = no (λ e. cc)
ValueType_discrete counter_message_type counter_message_type = yes refl
ValueType_discrete counter_message_type statuses_type = no (λ e. cc)
ValueType_discrete counter_message_type number_type = no (λ e. cc)
ValueType_discrete statuses_type supervisor_message_type = no (λ e. cc)
ValueType_discrete statuses_type counter_message_type = no (λ e. cc)
ValueType_discrete statuses_type statuses_type = yes refl
ValueType_discrete statuses_type number_type = no (λ e. cc)
ValueType_discrete number_type supervisor_message_type = no (λ e. cc)
ValueType_discrete number_type counter_message_type = no (λ e. cc)
ValueType_discrete number_type statuses_type = no (λ e. cc)
ValueType_discrete number_type number_type = yes refl

abbrev pub ValueOf : ValueType → Type 0
ValueOf supervisor_message_type = SupervisorMessage
ValueOf counter_message_type = TestCounterMessage
ValueOf statuses_type = List ChildStatus
ValueOf number_type = ℕ

abbrev pub values : Types
values = record { Ty = ValueType; El = ValueOf; same = ValueType_discrete }

abbrev pub supervisor_message : SupervisorMessage → Any values
supervisor_message msg = boxed values supervisor_message_type msg

abbrev pub instant : ℕ → Any values
instant now = boxed values number_type now

unfoldable read_instant : Option ℕ → ℕ
read_instant none = 0
read_instant (some now) = now

-- `ctx.reply(statuses)`, whose result is dropped.
unfoldable answered : Handled → Script values SupervisorActor
answered panicked = panics
answered (handled none s) = returns s
answered (handled (some statuses) s) =
    replies (boxed values statuses_type statuses) (λ r. returns s)

unfoldable pub supervisor_script :
    SupervisorActor → SupervisorMessage → Script values SupervisorActor
unfolding answered handle read_instant downcast
supervisor_script s msg = calls (λ elapsed_at. calls (λ now. answered (
    handle s msg (read_instant (downcast values number_type elapsed_at))
      (read_instant (downcast values number_type now)))))

counter_answered : Option ℕ × TestCounter → Script values TestCounter
counter_answered (none, c) = returns c
counter_answered (some count, c) = replies (boxed values number_type count) (λ r. returns c)

unfoldable pub counter_script : TestCounter → TestCounterMessage → Script values TestCounter
unfolding counter_answered handle_counter
counter_script c msg = counter_answered (handle_counter c msg)

abbrev pub StateOf : Bool → Type 0
StateOf true = SupervisorActor
StateOf false = TestCounter

abbrev pub message_of : Bool → ValueType
message_of true = supervisor_message_type
message_of false = counter_message_type

unfoldable pub handle_of :
    (k : Bool) → ValueOf (message_of k) → ActorContext → StateOf k → Script values (StateOf k)
unfolding supervisor_script counter_script
handle_of true msg ctx s = supervisor_script s msg
handle_of false msg ctx c = counter_script c msg

abbrev pub actors : Actors values
actors = record { Kind = Bool; State = StateOf; Message = message_of; handle = handle_of }

abbrev pub boxes : Channels (MessageEnvelope values)
boxes = fifo (MessageEnvelope values)

abbrev pub answers : Channels (Any values)
answers = fifo (Any values)

-- `thread::sleep`: the worker of the supervisor makes its turns at the instant `now`.
abbrev pub sleep_until : (now : ℕ) → List (Event actors)
sleep_until now = replicate 12 (works 0 (instant now))

abbrev received_statuses : Received (Any values) → Option (List ChildStatus)
received_statuses (got a) = downcast values statuses_type a
received_statuses empty = none
received_statuses hung_up = none

abbrev recv_statuses : Option answers.Chan → Option (List ChildStatus)
recv_statuses none = none
recv_statuses (some c) = received_statuses (answers.try_recv c).0

-- The reply to request `id`, as `recv_timeout` and `downcast` give it.
abbrev pub statuses_at : World boxes answers actors → (id : ℕ) → Option (List ChildStatus)
statuses_at w id = recv_statuses (get_elem? w.runtime.replies id)

abbrev pub after : List (Event actors) → World boxes answers actors
after events = run (new 2 default_config) events
