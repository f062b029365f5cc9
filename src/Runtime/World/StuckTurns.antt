-- ===== src/Runtime/World/StuckTurns.antt =====
-- src/runtime.rs: what the other workers do changes nothing for actors that wait for each other.
use runact.Prelude.{
  length-set, ℕ, ◌≡◌, ◌∙◌, refl, sym, subst, inl, inr, Bool, Bool-cases, true, false, Option, none,
  some, get_elem?, set, Option-cases,
}
use runact.Any.{Types, Any}
use runact.Channel.{Channels, IsLawful, Received, got, empty, hung_up}
use runact.Actor.Error.{RuntimeError, Result, ok, err}
use runact.Actor.Context.{Replied, replied, blocked}
use runact.Scheduler.WorkStealing.{Scheduler, Pc, running}
use runact.Runtime.{MessageEnvelope, ActorTask}
use runact.Runtime.World.{
  Script, returns, panics, sends, replies, calls, LoopPc, top, handling, sending, leaving, ended,
  receiving, Loop, Actors, World,
}
use runact.Runtime.World.Steps.{
  try_held, sent_on, begin_send, replied_on, received_on, try_received, dropped, loop_act,
  loop_turn, worker_act,
}
use runact.Runtime.World.Stuck.{
  IsStuck, SameGroup, same_group, set_apart, try_held-SameGroup, waiting-stays,
}

module _ {u : Types} {ch : Channels (MessageEnvelope u)} {rch : Channels (Any u)} {A : Actors u}
    (D : ℕ → Bool) where
  -- A loop outside the group goes on.
  goes-SameGroup :
      (w w' : World ch rch A) (m : ℕ) (l : Loop A)
      → D m ≡ false
      → SameGroup D w w'
      → SameGroup D w (record w' { loops = set w'.loops m l })
  goes-SameGroup w w' m l out s = record {
    loops = λ k d. set_apart D w'.loops m l out k d ∙ s.loops k d;
    boxes = s.boxes;
    count = length-set w'.loops m l ∙ s.count;
    senders = s.senders;
  }

  sent_on-SameGroup :
      (w : World ch rch A) (m : ℕ) (l : Loop A) (stopping : Bool)
      (k : Result (Unit {0}) RuntimeError → Script u (A.State l.kind))
      (p : Option (Result (Unit {0}) RuntimeError) × World ch rch A)
      → D m ≡ false
      → SameGroup D w p.1
      → SameGroup D w (sent_on m l stopping k p)
  unfolding sent_on
  sent_on-SameGroup w m l stopping k (none, w') out s = s
  sent_on-SameGroup w m l stopping k (some r, w') out s = goes-SameGroup w w' m _ out s

  begin_send-SameGroup :
      (w : World ch rch A) (m : ℕ) (l : Loop A) (stopping : Bool) (msg : Any u)
      (k : Result (Unit {0}) RuntimeError → Script u (A.State l.kind))
      (found : Result ℕ RuntimeError)
      → D m ≡ false
      → SameGroup D w (begin_send w m l stopping msg k found)
  unfolding begin_send
  begin_send-SameGroup w m l stopping msg k (err e) out =
      goes-SameGroup w w m _ out (same_group D w)
  begin_send-SameGroup w m l stopping msg k (ok i) out = goes-SameGroup w w m _ out (same_group D w)

  replied_on-SameGroup :
      (w : World ch rch A) (m : ℕ) (l : Loop A) (stopping : Bool)
      (k : Result (Unit {0}) RuntimeError → Script u (A.State l.kind)) (r : Replied rch)
      → D m ≡ false
      → SameGroup D w (replied_on w m l stopping k r)
  unfolding replied_on
  replied_on-SameGroup w m l stopping k blocked out = same_group D w
  replied_on-SameGroup w m l stopping k (replied r chans) out = record {
    loops = set_apart D w.loops m _ out;
    boxes = λ k d. refl;
    count = length-set w.loops m _;
    senders = refl;
  }

  received_on-SameGroup :
      (w : World ch rch A) (m : ℕ) (l : Loop A) (stopping : Bool) (s : A.State l.kind)
      (p : Received (MessageEnvelope u) × ch.Chan)
      → D m ≡ false
      → SameGroup D w (received_on w m l stopping s p)
  unfolding received_on
  received_on-SameGroup w m l stopping s (got e, c) out = record {
    loops = set_apart D w.loops m _ out;
    boxes = set_apart D w.runtime.mailboxes m c out;
    count = length-set w.loops m _;
    senders = refl;
  }
  received_on-SameGroup w m l true s (empty, c) out = goes-SameGroup w w m _ out (same_group D w)
  received_on-SameGroup w m l false s (empty, c) out = goes-SameGroup w w m _ out (same_group D w)
  received_on-SameGroup w m l stopping s (hung_up, c) out =
      goes-SameGroup w w m _ out (same_group D w)

  try_received-SameGroup :
      (w : World ch rch A) (m : ℕ) (l : Loop A) (stopping : Bool) (s : A.State l.kind)
      (o : Option ch.Chan)
      → D m ≡ false
      → SameGroup D w (try_received w m l stopping s o)
  unfolding try_received
  try_received-SameGroup w m l stopping s none out = same_group D w
  try_received-SameGroup w m l stopping s (some c) out =
      received_on-SameGroup w m l stopping s (ch.try_recv c) out

  dropped-SameGroup :
      (w : World ch rch A) (m : ℕ) (l : Loop A) (scheduler : Scheduler ActorTask)
      (o : Option ch.Chan)
      → D m ≡ false
      → SameGroup D w (dropped w m l scheduler o)
  unfolding dropped
  dropped-SameGroup w m l scheduler none out = same_group D w
  dropped-SameGroup w m l scheduler (some c) out = record {
    loops = set_apart D w.loops m _ out;
    boxes = set_apart D w.runtime.mailboxes m _ out;
    count = length-set w.loops m _;
    senders = refl;
  }

  module _ (lawful : IsLawful ch) where
    loop_act-SameGroup :
        (w : World ch rch A) (i : ℕ) (answer : Any u) (m : ℕ) (l : Loop A)
        (pc : LoopPc u (A.State l.kind))
        → D m ≡ false
        → IsStuck D w
        → SameGroup D w (loop_act w i answer m l pc)
    unfolding loop_act
    loop_act-SameGroup w i answer m l (top s) out h = goes-SameGroup w w m _ out (same_group D w)
    loop_act-SameGroup w i answer m l (receiving stopping s) out h =
        try_received-SameGroup w m l stopping s (get_elem? w.runtime.mailboxes m) out
    loop_act-SameGroup w i answer m l (handling stopping (returns s)) out h =
        goes-SameGroup w w m _ out (same_group D w)
    loop_act-SameGroup w i answer m l (handling stopping panics) out h =
        dropped-SameGroup w m l _ (get_elem? w.runtime.mailboxes m) out
    loop_act-SameGroup w i answer m l (handling stopping (sends target msg k)) out h =
        begin_send-SameGroup w m l stopping msg k _ out
    loop_act-SameGroup w i answer m l (handling stopping (replies msg k)) out h =
        replied_on-SameGroup w m l stopping k _ out
    loop_act-SameGroup w i answer m l (handling stopping (calls k)) out h =
        goes-SameGroup w w m _ out (same_group D w)
    loop_act-SameGroup w i answer m l (sending stopping mailbox e k) out h =
        sent_on-SameGroup w m l stopping k
          (try_held w mailbox e (get_elem? w.runtime.mailboxes mailbox)) out
          (try_held-SameGroup D lawful w mailbox e h)
    loop_act-SameGroup w i answer m l leaving out h =
        dropped-SameGroup w m l _ (get_elem? w.runtime.mailboxes m) out
    loop_act-SameGroup w i answer m l ended out h = same_group D w

    loop_turn-SameGroup :
        (w : World ch rch A) (i : ℕ) (answer : Any u) (m : ℕ)
        → IsStuck D w
        → SameGroup D w (loop_turn w i answer m (get_elem? w.loops m))
    unfolding loop_turn
    loop_turn-SameGroup w i answer m h = elim (Bool-cases (D m)) [
      | inl d ↦
          subst (SameGroup D w) (sym (waiting-stays D lawful w i answer m h d)) (same_group D w)
      | inr out ↦ elim (Option-cases (get_elem? w.loops m)) [
        | inl missing ↦ rw missing (same_group D w)
        | inr (l, found) ↦ rw found (loop_act-SameGroup w i answer m l l.pc out h)
      ]
    ]

    pub worker_act-SameGroup :
        (w : World ch rch A) (i : ℕ) (answer : Any u) (o : Option (Pc ActorTask))
        → IsStuck D w
        → SameGroup D w (worker_act w i answer o)
    unfolding worker_act
    worker_act-SameGroup w i answer (some (running task)) h =
        loop_turn-SameGroup w i answer task.mailbox h
    worker_act-SameGroup w i answer o h = record {
      loops = λ m d. refl;
      boxes = λ m d. refl;
      count = refl;
      senders = refl;
    }
