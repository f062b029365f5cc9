-- ===== src/Runtime/World/Maps.antt =====
-- src/runtime.rs: the turns of the workers leave the maps of actors and senders as they are.
use runact.Prelude.{ℕ, ◌≡◌, refl, Bool, true, false, Option, none, some, get_elem?}
use runact.Any.{Types, Any}
use runact.Channel.{Channels, Sent, sent, full, disconnected, Received, got, empty, hung_up}
use runact.Actor.Error.{RuntimeError, Result, ok, err}
use runact.Actor.Context.{Replied, replied, blocked}
use runact.Scheduler.WorkStealing.{Scheduler, Pc, running}
use runact.Runtime.{MessageEnvelope, ActorTask}
use runact.Runtime.Counted.{SameActors}
use runact.Runtime.World.{
  Script, returns, panics, sends, replies, calls, LoopPc, top, handling, sending, leaving, ended,
  receiving, Loop, Actors, World,
}
use runact.Runtime.World.Steps.{
  held_sent, try_held, sent_on, begin_send, replied_on, received_on, try_received, dropped,
  loop_act, loop_turn, worker_act,
}

module _ {u : Types} {ch : Channels (MessageEnvelope u)} {rch : Channels (Any u)}
    {A : Actors u} where
  abbrev pub Same : World ch rch A → World ch rch A → Type 0
  Same w w' = SameActors w.runtime w'.runtime

  pub same :
      (w w' : World ch rch A)
      → w'.runtime.actors ≡ w.runtime.actors
      → w'.runtime.senders ≡ w.runtime.senders
      → w'.runtime.actors_poisoned ≡ w.runtime.actors_poisoned
      → w'.runtime.senders_poisoned ≡ w.runtime.senders_poisoned
      → Same w w'
  same w w' a b c d = record {
    same_actors = a;
    same_senders = b;
    same_actors_poisoned = c;
    same_senders_poisoned = d;
  }

  held_sent-Same :
      (w : World ch rch A) (i : ℕ) (e : MessageEnvelope u) (p : Sent × ch.Chan)
      → Same w (held_sent w i e p).1
  unfolding held_sent
  held_sent-Same w i e (sent, c) = same w (held_sent w i e (sent, c)).1 refl refl refl refl
  held_sent-Same w i e (full, c) = same w w refl refl refl refl
  held_sent-Same w i e (disconnected, c) = same w w refl refl refl refl

  pub try_held-Same :
      (w : World ch rch A) (i : ℕ) (e : MessageEnvelope u) (o : Option ch.Chan)
      → Same w (try_held w i e o).1
  unfolding try_held
  try_held-Same w i e none = same w w refl refl refl refl
  try_held-Same w i e (some c) = held_sent-Same w i e (ch.try_send c e)

  sent_on-Same :
      (w : World ch rch A) (m : ℕ) (l : Loop A) (stopping : Bool)
      (k : Result (Unit {0}) RuntimeError → Script u (A.State l.kind))
      (p : Option (Result (Unit {0}) RuntimeError) × World ch rch A)
      → Same w p.1
      → Same w (sent_on m l stopping k p)
  unfolding sent_on
  sent_on-Same w m l stopping k (none, w') h = h
  sent_on-Same w m l stopping k (some r, w') h = h

  begin_send-Same :
      (w : World ch rch A) (m : ℕ) (l : Loop A) (stopping : Bool) (msg : Any u)
      (k : Result (Unit {0}) RuntimeError → Script u (A.State l.kind))
      (found : Result ℕ RuntimeError)
      → Same w (begin_send w m l stopping msg k found)
  unfolding begin_send
  begin_send-Same w m l stopping msg k (err e) = same w w refl refl refl refl
  begin_send-Same w m l stopping msg k (ok i) = same w w refl refl refl refl

  replied_on-Same :
      (w : World ch rch A) (m : ℕ) (l : Loop A) (stopping : Bool)
      (k : Result (Unit {0}) RuntimeError → Script u (A.State l.kind)) (r : Replied rch)
      → Same w (replied_on w m l stopping k r)
  unfolding replied_on
  replied_on-Same w m l stopping k blocked = same w w refl refl refl refl
  replied_on-Same w m l stopping k (replied r chans) =
      same w (replied_on w m l stopping k (replied r chans)) refl refl refl refl

  received_on-Same :
      (w : World ch rch A) (m : ℕ) (l : Loop A) (stopping : Bool) (s : A.State l.kind)
      (p : Received (MessageEnvelope u) × ch.Chan)
      → Same w (received_on w m l stopping s p)
  unfolding received_on
  received_on-Same w m l stopping s (got e, c) =
      same w (received_on w m l stopping s (got e, c)) refl refl refl refl
  received_on-Same w m l true s (empty, c) = same w w refl refl refl refl
  received_on-Same w m l false s (empty, c) = same w w refl refl refl refl
  received_on-Same w m l stopping s (hung_up, c) = same w w refl refl refl refl

  try_received-Same :
      (w : World ch rch A) (m : ℕ) (l : Loop A) (stopping : Bool) (s : A.State l.kind)
      (o : Option ch.Chan)
      → Same w (try_received w m l stopping s o)
  unfolding try_received
  try_received-Same w m l stopping s none = same w w refl refl refl refl
  try_received-Same w m l stopping s (some c) = received_on-Same w m l stopping s (ch.try_recv c)

  dropped-Same :
      (w : World ch rch A) (m : ℕ) (l : Loop A) (scheduler : Scheduler ActorTask)
      (o : Option ch.Chan)
      → Same w (dropped w m l scheduler o)
  unfolding dropped
  dropped-Same w m l scheduler none = same w w refl refl refl refl
  dropped-Same w m l scheduler (some c) =
      same w (dropped w m l scheduler (some c)) refl refl refl refl

  loop_act-Same :
      (w : World ch rch A) (i : ℕ) (answer : Any u) (m : ℕ) (l : Loop A)
      (pc : LoopPc u (A.State l.kind))
      → Same w (loop_act w i answer m l pc)
  unfolding loop_act
  loop_act-Same w i answer m l (top s) = same w w refl refl refl refl
  loop_act-Same w i answer m l (receiving stopping s) =
      try_received-Same w m l stopping s (get_elem? w.runtime.mailboxes m)
  loop_act-Same w i answer m l (handling stopping (returns s)) = same w w refl refl refl refl
  loop_act-Same w i answer m l (handling stopping panics) =
      dropped-Same w m l _ (get_elem? w.runtime.mailboxes m)
  loop_act-Same w i answer m l (handling stopping (sends target msg k)) =
      begin_send-Same w m l stopping msg k _
  loop_act-Same w i answer m l (handling stopping (replies msg k)) =
      replied_on-Same w m l stopping k _
  loop_act-Same w i answer m l (handling stopping (calls k)) = same w w refl refl refl refl
  loop_act-Same w i answer m l (sending stopping mailbox e k) =
      let o = get_elem? w.runtime.mailboxes mailbox in
      sent_on-Same w m l stopping k (try_held w mailbox e o) (try_held-Same w mailbox e o)
  loop_act-Same w i answer m l leaving = dropped-Same w m l _ (get_elem? w.runtime.mailboxes m)
  loop_act-Same w i answer m l ended = same w w refl refl refl refl

  loop_turn-Same :
      (w : World ch rch A) (i : ℕ) (answer : Any u) (m : ℕ) (o : Option (Loop A))
      → Same w (loop_turn w i answer m o)
  unfolding loop_turn
  loop_turn-Same w i answer m none = same w w refl refl refl refl
  loop_turn-Same w i answer m (some l) = loop_act-Same w i answer m l l.pc

  pub worker_act-Same :
      (w : World ch rch A) (i : ℕ) (answer : Any u) (o : Option (Pc ActorTask))
      → Same w (worker_act w i answer o)
  unfolding worker_act
  worker_act-Same w i answer (some (running task)) =
      loop_turn-Same w i answer task.mailbox (get_elem? w.loops task.mailbox)
  worker_act-Same w i answer pc = same w (worker_act w i answer pc) refl refl refl refl
