-- ===== src/Runtime/Events.antt =====
-- src/runtime.rs: everything that happens to a runtime, in any order: calls of its methods, and the
-- actor loops that take messages from their mailboxes or end.
use runact.Prelude.{ℕ, Option, none, some, List, [], ◌∷◌, get_elem?}
use runact.Any.{Types, Any}
use runact.Channel.{Channels}
use runact.Actor.ActorId.{ActorId}
use runact.Supervision.Strategy.{RestartStrategy, ChildSpec}
use runact.Runtime.{
  MessageEnvelope, Runtime, with_mailbox, spawn, spawn_supervisor, send, request_from,
  begin_shutdown, finish_shutdown,
}

pub data Event (u : Types) : Type 0 where
  spawned : Event u
  supervised : RestartStrategy → List ChildSpec → Event u
  sent_to requested_from : ActorId → Any u → Event u
  received ended : (mailbox : ℕ) → Event u
  stopping shut_down : Event u

module _ {u : Types} {ch : Channels (MessageEnvelope u)} {rch : Channels (Any u)} where
  -- The loop of an actor takes an envelope, or ends and drops its receiver.
  unfoldable pub on_mailbox :
      (ch.Chan → ch.Chan) → Runtime u ch rch → ℕ → Option ch.Chan → Runtime u ch rch
  on_mailbox f rt mailbox none = rt
  on_mailbox f rt mailbox (some c) = with_mailbox rt mailbox (f c)

  unfoldable pub step : Runtime u ch rch → Event u → Runtime u ch rch
  unfolding on_mailbox
  step rt spawned = (spawn rt).1
  step rt (supervised strategy children) = (spawn_supervisor rt strategy children).1
  step rt (sent_to target m) = (send rt target m).1
  step rt (requested_from target m) = (request_from rt target m).1
  step rt (received mailbox) =
      on_mailbox (λ c. (ch.try_recv c).1) rt mailbox (get_elem? rt.mailboxes mailbox)
  step rt (ended mailbox) = on_mailbox ch.drop_receiver rt mailbox (get_elem? rt.mailboxes mailbox)
  step rt stopping = begin_shutdown rt
  step rt shut_down = (finish_shutdown rt).1

  unfoldable pub run : Runtime u ch rch → List (Event u) → Runtime u ch rch
  unfolding step
  run rt [] = rt
  run rt (e ∷ es) = run (step rt e) es
