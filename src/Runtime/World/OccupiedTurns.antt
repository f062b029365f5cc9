-- ===== src/Runtime/World/OccupiedTurns.antt =====
-- src/runtime.rs: the turns of the workers, before a shutdown, let no worker go.
use runact.Prelude.{
  ℕ, ◌<◌, ◌≤◌, ◌≡◌, ==_self, refl, ap, sym, subst, inl, inr, Bool, true, false, Option, none, some,
  [], ◌∷◌, ◌++◌, get_elem?, All-set, All-get_elem?, Holds-some, List-cases, Option-cases, total-ge,
  arith,
}
use runact.Any.{Types, Any}
use runact.Channel.{Channels, IsLawful, Sent, sent, full, disconnected}
use runact.Actor.Error.{RuntimeError, Result, ok, err}
use runact.Actor.Context.{Replied, replied, blocked}
use runact.Scheduler.WorkStealing.{
  Pc, top, popping, running, scanning, moving, exited, Scheduler, crash,
}
use runact.Scheduler.WorkStealing
use runact.Scheduler.WorkStealing.Held.{busy, hold, is_free, turn-busy, crash-busy}
use runact.Runtime.{MessageEnvelope, message, request, ActorTask}
use runact.Any.{downcast}
use runact.Runtime.World.{
  Script, returns, panics, sends, replies, calls, LoopPc, handling, sending, leaving, ended,
  receiving, Loop, Actors, World, Mail, accept, taken, lose,
}
use runact.Runtime.World
use runact.Runtime.World.Steps.{
  held_sent, try_held, sent_on, begin_send, replied_on, call_if, opened, received_on, try_received,
  dropped, loop_act, loop_turn, worker_act,
}
use runact.Runtime.World.Exclusive.{loop_of}
use runact.Runtime.World.Occupied.{
  is_going, modify-Held, taken-Held, busier-Held, IsOccupied, set_loop-IsOccupied,
}

module _ {u : Types} {A : Actors u} where
  call_if-going :
      (l : Loop A) (s : A.State l.kind) (r : Option ℕ) (msg : Option (u.El (A.Message l.kind)))
      → is_going (call_if l false s r msg).pc ≡ true
  unfolding call_if
  call_if-going l s r none = refl
  call_if-going l s r (some msg) = refl

  opened-going :
      (l : Loop A) (s : A.State l.kind) (e : MessageEnvelope u)
      → is_going (opened l false s e).pc ≡ true
  unfolding opened
  opened-going l s (message payload) =
      call_if-going l s none (downcast u (A.Message l.kind) payload)
  opened-going l s (request id payload r) =
      call_if-going l s (some r) (downcast u (A.Message l.kind) payload)

module _ {u : Types} {ch : Channels (MessageEnvelope u)} {rch : Channels (Any u)} {A : Actors u}
    (lawful : IsLawful ch) where
  held_sent-IsOccupied :
      (w : World ch rch A) (i : ℕ) (e : MessageEnvelope u) (p : Sent × ch.Chan)
      → 0 < ch.senders p.1
      → IsOccupied w
      → IsOccupied (held_sent w i e p).1
  unfolding held_sent
  held_sent-IsOccupied w i e (sent, c) pos h = record {
    on = h.on;
    going = h.going;
    senders = All-set (λ (c : ch.Chan). 0 < ch.senders c) w.runtime.mailboxes i h.senders pos;
    held =
        modify-Held w.mail w.runtime.scheduler i (λ x. record x { accepted = x.accepted ++ e ∷ [] })
          (λ x. omega arith) h.held;
  }
  held_sent-IsOccupied w i e (full, c) pos h = h
  held_sent-IsOccupied w i e (disconnected, c) pos h = h

  pub try_held-IsOccupied :
      (w : World ch rch A) (i : ℕ) (e : MessageEnvelope u)
      → IsOccupied w
      → IsOccupied (try_held w i e (get_elem? w.runtime.mailboxes i)).1
  unfolding try_held
  try_held-IsOccupied w i e h = elim (Option-cases (get_elem? w.runtime.mailboxes i)) [
    | inl missing ↦ rw missing h
    | inr (c, found) ↦
        subst (λ o. IsOccupied (try_held w i e o).1) (sym found)
          (held_sent-IsOccupied w i e (ch.try_send c e)
            (omega (
              arith,
              (lawful.send_same c e).same_senders,
              Holds-some (λ (c : ch.Chan). 0 < ch.senders c) found
                  (All-get_elem? (λ (c : ch.Chan). 0 < ch.senders c) w.runtime.mailboxes i
                    h.senders),
            ))
            h)
  ]

  sent_on-IsOccupied :
      (m : ℕ) (l : Loop A) (stopping : Bool)
      (k : Result (Unit {0}) RuntimeError → Script u (A.State l.kind))
      (p : Option (Result (Unit {0}) RuntimeError) × World ch rch A)
      → IsOccupied p.1
      → IsOccupied (sent_on m l stopping k p)
  unfolding sent_on
  sent_on-IsOccupied m l stopping k (none, w) h = h
  sent_on-IsOccupied m l stopping k (some r, w) h = set_loop-IsOccupied w m _ refl h

  begin_send-IsOccupied :
      (w : World ch rch A) (m : ℕ) (l : Loop A) (stopping : Bool) (msg : Any u)
      (k : Result (Unit {0}) RuntimeError → Script u (A.State l.kind))
      (found : Result ℕ RuntimeError)
      → IsOccupied w
      → IsOccupied (begin_send w m l stopping msg k found)
  unfolding begin_send
  begin_send-IsOccupied w m l stopping msg k (err e) h = set_loop-IsOccupied w m _ refl h
  begin_send-IsOccupied w m l stopping msg k (ok i) h = set_loop-IsOccupied w m _ refl h

  replied_on-IsOccupied :
      (w : World ch rch A) (m : ℕ) (l : Loop A) (stopping : Bool)
      (k : Result (Unit {0}) RuntimeError → Script u (A.State l.kind)) (r : Replied rch)
      → IsOccupied w
      → IsOccupied (replied_on w m l stopping k r)
  unfolding replied_on
  replied_on-IsOccupied w m l stopping k blocked h = h
  replied_on-IsOccupied w m l stopping k (replied r chans) h = record {
    on = h.on;
    going = (set_loop-IsOccupied w m (record l { pc = handling stopping (k r) }) refl h).going;
    senders = h.senders;
    held = h.held;
  }

  -- A loop that has read the flag as unset goes on, whatever it receives.
  received_on-IsOccupied :
      (w : World ch rch A) (m : ℕ) (l : Loop A) (s : A.State l.kind) (c : ch.Chan)
      → get_elem? w.runtime.mailboxes m ≡ some c
      → 1 ≤ busy (loop_of m) w.runtime.scheduler
      → IsOccupied w
      → IsOccupied (received_on w m l false s (ch.try_recv c))
  unfolding received_on
  received_on-IsOccupied w m l s c at mine h =
      let pos =
        Holds-some (λ (c : ch.Chan). 0 < ch.senders c) at
          (All-get_elem? (λ (c : ch.Chan). 0 < ch.senders c) w.runtime.mailboxes m h.senders) in
      elim (List-cases (ch.queued c)) [
        | inl none_queued ↦
            subst (λ p. IsOccupied (received_on w m l false s p))
              (sym (lawful.recv_empty c none_queued pos)) (set_loop-IsOccupied w m _ refl h)
        | inr (e, rest, front) ↦
            let law = lawful.recv_got c e rest front in
            let c' = (ch.try_recv c).1 in
            subst (λ r. IsOccupied (received_on w m l false s (r, c'))) (sym law.0)
              (record {
                on = h.on;
                going = (set_loop-IsOccupied w m (opened l false s e) (opened-going l s e) h).going;
                senders =
                    All-set (λ (c : ch.Chan). 0 < ch.senders c) w.runtime.mailboxes m h.senders
                      (omega (arith, law.2.same_senders, pos));
                held = taken-Held w.mail w.runtime.scheduler m e mine h.held;
              })
      ]

  try_received-IsOccupied :
      (w : World ch rch A) (m : ℕ) (l : Loop A) (s : A.State l.kind)
      → 1 ≤ busy (loop_of m) w.runtime.scheduler
      → IsOccupied w
      → IsOccupied (try_received w m l false s (get_elem? w.runtime.mailboxes m))
  unfolding try_received
  try_received-IsOccupied w m l s mine h = elim (Option-cases (get_elem? w.runtime.mailboxes m)) [
    | inl missing ↦ rw missing h
    | inr (c, found) ↦
        subst (λ o. IsOccupied (try_received w m l false s o)) (sym found)
          (received_on-IsOccupied w m l s c found mine h)
  ]

  -- A panic takes the worker.
  crashed-IsOccupied :
      (w : World ch rch A) (i m : ℕ) (l : Loop A)
      → IsOccupied w
      → IsOccupied (dropped w m l (crash w.runtime.scheduler i) (get_elem? w.runtime.mailboxes m))
  unfolding dropped
  crashed-IsOccupied w i m l h = elim (Option-cases (get_elem? w.runtime.mailboxes m)) [
    | inl missing ↦ rw missing h
    | inr (c, found) ↦
        subst (λ o. IsOccupied (dropped w m l (crash w.runtime.scheduler i) o)) (sym found)
          (record {
            on = h.on;
            going = (set_loop-IsOccupied w m (record l { pc = ended }) refl h).going;
            senders =
                All-set (λ (c : ch.Chan). 0 < ch.senders c) w.runtime.mailboxes m h.senders
                  (omega (
                    arith,
                    (lawful.drop_gone c).3,
                    Holds-some (λ (c : ch.Chan). 0 < ch.senders c) found
                        (All-get_elem? (λ (c : ch.Chan). 0 < ch.senders c) w.runtime.mailboxes m
                          h.senders),
                  ));
            held =
                busier-Held _ w.runtime.scheduler (crash w.runtime.scheduler i)
                  (λ k. omega (arith, crash-busy (loop_of k) w.runtime.scheduler i))
                  (modify-Held w.mail w.runtime.scheduler m
                    (λ x. record x { lost = x.lost ++ ch.queued c }) (λ x. omega arith) h.held);
          })
  ]

  loop_act-IsOccupied :
      (w : World ch rch A) (i : ℕ) (answer : Any u) (m : ℕ) (l : Loop A)
      (pc : LoopPc u (A.State l.kind))
      → is_going pc ≡ true
      → 1 ≤ busy (loop_of m) w.runtime.scheduler
      → IsOccupied w
      → IsOccupied (loop_act w i answer m l pc)
  unfolding loop_act
  loop_act-IsOccupied w i answer m l (World.top s) go mine h =
      set_loop-IsOccupied w m _ (ap (λ b. is_going {u = u} (receiving b s)) h.on) h
  loop_act-IsOccupied w i answer m l (receiving true s) go mine h = absurd (cc)
  loop_act-IsOccupied w i answer m l (receiving false s) go mine h =
      try_received-IsOccupied w m l s mine h
  loop_act-IsOccupied w i answer m l (handling stopping (returns s)) go mine h =
      set_loop-IsOccupied w m _ refl h
  loop_act-IsOccupied w i answer m l (handling stopping panics) go mine h =
      crashed-IsOccupied w i m l h
  loop_act-IsOccupied w i answer m l (handling stopping (sends target msg k)) go mine h =
      begin_send-IsOccupied w m l stopping msg k _ h
  loop_act-IsOccupied w i answer m l (handling stopping (replies msg k)) go mine h =
      replied_on-IsOccupied w m l stopping k _ h
  loop_act-IsOccupied w i answer m l (handling stopping (calls k)) go mine h =
      set_loop-IsOccupied w m _ refl h
  loop_act-IsOccupied w i answer m l (sending stopping mailbox e k) go mine h =
      sent_on-IsOccupied m l stopping k
        (try_held w mailbox e (get_elem? w.runtime.mailboxes mailbox))
        (try_held-IsOccupied w mailbox e h)
  loop_act-IsOccupied w i answer m l leaving go mine h = absurd (cc)
  loop_act-IsOccupied w i answer m l ended go mine h = h

  loop_turn-IsOccupied :
      (w : World ch rch A) (i : ℕ) (answer : Any u) (m : ℕ) (o : Option (Loop A))
      → get_elem? w.loops m ≡ o
      → 1 ≤ busy (loop_of m) w.runtime.scheduler
      → IsOccupied w
      → IsOccupied (loop_turn w i answer m o)
  unfolding loop_turn
  loop_turn-IsOccupied w i answer m none at mine h = h
  loop_turn-IsOccupied w i answer m (some l) at mine h =
      loop_act-IsOccupied w i answer m l l.pc
        (Holds-some (λ (l : Loop A). is_going l.pc ≡ true) at
          (All-get_elem? (λ (l : Loop A). is_going l.pc ≡ true) w.loops m h.going))
        mine h

  free-IsOccupied :
      (w : World ch rch A) (i : ℕ) (o : Option (Pc ActorTask))
      → get_elem? w.runtime.scheduler.workers i ≡ o
      → is_free o ≡ true
      → IsOccupied w
      → IsOccupied (record w {
        runtime = record w.runtime { scheduler = WorkStealing.turn w.runtime.scheduler i };
      })
  free-IsOccupied w i o at free h = record {
    on = h.on;
    going = h.going;
    senders = h.senders;
    held =
        busier-Held w.mail w.runtime.scheduler (WorkStealing.turn w.runtime.scheduler i)
          (λ k. turn-busy (loop_of k) w.runtime.scheduler i o at free) h.held;
  }

  pub worker_act-IsOccupied :
      (w : World ch rch A) (i : ℕ) (answer : Any u) (o : Option (Pc ActorTask))
      → get_elem? w.runtime.scheduler.workers i ≡ o
      → IsOccupied w
      → IsOccupied (worker_act w i answer o)
  unfolding worker_act
  worker_act-IsOccupied w i answer (some (running task)) at h =
      let m = task.mailbox in
      loop_turn-IsOccupied w i answer m (get_elem? w.loops m) refl
        (ground (arith, total-ge (hold (loop_of m)) w.runtime.scheduler.workers i at, ==_self m)) h
  worker_act-IsOccupied w i answer none at h = free-IsOccupied w i none at refl h
  worker_act-IsOccupied w i answer (some top) at h = free-IsOccupied w i (some top) at refl h
  worker_act-IsOccupied w i answer (some popping) at h = free-IsOccupied w i _ at refl h
  worker_act-IsOccupied w i answer (some (scanning js)) at h = free-IsOccupied w i _ at refl h
  worker_act-IsOccupied w i answer (some (moving ts)) at h = free-IsOccupied w i _ at refl h
  worker_act-IsOccupied w i answer (some exited) at h = free-IsOccupied w i _ at refl h
