-- ===== src/Runtime/World/Kept.antt =====
-- src/runtime.rs: the turns of the workers keep the account of every mailbox.
use runact.Prelude.{
  ℕ, ◌<◌, ◌≡◌, sym, subst, inl, inr, Bool, true, false, Option, none, some, get_elem?, Both-set,
  Both-get_elem?, Option-cases, List-cases, arith,
}
use runact.Any.{Types, Any}
use runact.Channel.{Channels, IsLawful, Sent, empty, hung_up, recv_none}
use runact.Channel.Outcome.{Outcome, enters, no_room, gone, try_send-Outcome}
use runact.Actor.Error.{RuntimeError, Result, ok, err}
use runact.Actor.Context.{Replied, replied, blocked}
use runact.Scheduler.WorkStealing.{Pc, running, Scheduler}
use runact.Runtime.{MessageEnvelope, ActorTask}
use runact.Runtime.World.{
  Script, returns, panics, sends, replies, calls, LoopPc, handling, sending, leaving, ended,
  receiving, Loop, Actors, World, Mail, accept, taken, lose, logged, is_locked, spawned_loop,
  try_blocking, request_to, next_request,
}
use runact.Runtime.World
use runact.Runtime.World.Steps.{
  held_sent, try_held, sent_on, begin_send, replied_on, received_on, try_received, dropped,
  loop_act, loop_turn, worker_act,
}
use runact.Runtime.World.Accounts.{Holds, Kept, enters-Holds, got-Holds, drop-Holds}

module _ {u : Types} {ch : Channels (MessageEnvelope u)} {rch : Channels (Any u)} {A : Actors u}
    (lawful : IsLawful ch) {n : ℕ} (pos : 0 < n) where
  pub record IsKept (w : World ch rch A) : Type 0 where
    pub configured : w.runtime.mailbox_capacity ≡ n
    pub accounts : Kept lawful pos w.runtime.mailboxes w.mail

  abbrev pub After : {X : Type 0} → X × World ch rch A → Type 0
  After p = IsKept p.1

  held_sent-IsKept :
      (w : World ch rch A) (i : ℕ) (c : ch.Chan) (e : MessageEnvelope u) (p : Sent × ch.Chan)
      → get_elem? w.runtime.mailboxes i ≡ some c
      → Outcome ch c e p
      → IsKept w
      → After (held_sent w i e p)
  unfolding held_sent
  held_sent-IsKept w i c e (_, _) at (enters c' alive room adds ends) k = record {
    configured = k.configured;
    accounts =
        Both-set (Holds ch n) w.runtime.mailboxes w.mail i _ at
          (enters-Holds lawful pos c c' e alive room adds ends) k.accounts;
  }
  held_sent-IsKept w i c e p at no_room k = k
  held_sent-IsKept w i c e p at (gone shut) k = k

  pub try_held-IsKept :
      (w : World ch rch A) (i : ℕ) (e : MessageEnvelope u)
      → IsKept w
      → After (try_held w i e (get_elem? w.runtime.mailboxes i))
  unfolding try_held
  try_held-IsKept w i e k = elim (Option-cases (get_elem? w.runtime.mailboxes i)) [
    | inl missing ↦ rw missing k
    | inr (c, found) ↦
        let (x, at, a) =
          Both-get_elem? (Holds ch n) w.runtime.mailboxes w.mail i found k.accounts in
        subst (λ o. After (try_held w i e o)) (sym found)
          (held_sent-IsKept w i c e (ch.try_send c e) found
            (try_send-Outcome lawful c e (omega (arith, a.accounts.capacity, pos))) k)
  ]

  sent_on-IsKept :
      (m : ℕ) (l : Loop A) (stopping : Bool)
      (k : Result (Unit {0}) RuntimeError → Script u (A.State l.kind))
      (p : Option (Result (Unit {0}) RuntimeError) × World ch rch A)
      → After p
      → IsKept (sent_on m l stopping k p)
  unfolding sent_on
  sent_on-IsKept m l stopping k (none, w) h = h
  sent_on-IsKept m l stopping k (some r, w) h = record {
    configured = h.configured;
    accounts = h.accounts;
  }

  begin_send-IsKept :
      (w : World ch rch A) (m : ℕ) (l : Loop A) (stopping : Bool) (msg : Any u)
      (k : Result (Unit {0}) RuntimeError → Script u (A.State l.kind))
      (found : Result ℕ RuntimeError)
      → IsKept w
      → IsKept (begin_send w m l stopping msg k found)
  unfolding begin_send
  begin_send-IsKept w m l stopping msg k (err e) h = record {
    configured = h.configured;
    accounts = h.accounts;
  }
  begin_send-IsKept w m l stopping msg k (ok i) h = record {
    configured = h.configured;
    accounts = h.accounts;
  }

  replied_on-IsKept :
      (w : World ch rch A) (m : ℕ) (l : Loop A) (stopping : Bool)
      (k : Result (Unit {0}) RuntimeError → Script u (A.State l.kind)) (r : Replied rch)
      → IsKept w
      → IsKept (replied_on w m l stopping k r)
  unfolding replied_on
  replied_on-IsKept w m l stopping k blocked h = h
  replied_on-IsKept w m l stopping k (replied r chans) h = record {
    configured = h.configured;
    accounts = h.accounts;
  }

  nothing_received-IsKept :
      (w : World ch rch A) (m : ℕ) (l : Loop A) (stopping : Bool) (s : A.State l.kind) (c : ch.Chan)
      → IsKept w
      → IsKept (received_on w m l stopping s (empty, c))
        × IsKept (received_on w m l stopping s (hung_up, c))
  unfolding received_on
  nothing_received-IsKept w m l true s c h = (
    record { configured = h.configured; accounts = h.accounts },
    record { configured = h.configured; accounts = h.accounts },
  )
  nothing_received-IsKept w m l false s c h = (
    record { configured = h.configured; accounts = h.accounts },
    record { configured = h.configured; accounts = h.accounts },
  )

  received_on-IsKept :
      (w : World ch rch A) (m : ℕ) (l : Loop A) (stopping : Bool) (s : A.State l.kind) (c : ch.Chan)
      → get_elem? w.runtime.mailboxes m ≡ some c
      → IsKept w
      → IsKept (received_on w m l stopping s (ch.try_recv c))
  unfolding received_on
  received_on-IsKept w m l stopping s c at h =
      let idle = nothing_received-IsKept w m l stopping s c h in
      elim (List-cases (ch.queued c)) [
        | inl none_queued ↦ elim (recv_none lawful c none_queued) [
          | inl e ↦ subst (λ p. IsKept (received_on w m l stopping s p)) (sym e) idle.0
          | inr e ↦ subst (λ p. IsKept (received_on w m l stopping s p)) (sym e) idle.1
        ]
        | inr (e, rest, front) ↦
            let law = lawful.recv_got c e rest front in
            let c' = (ch.try_recv c).1 in
            subst (λ r. IsKept (received_on w m l stopping s (r, c'))) (sym law.0)
              (record {
                configured = h.configured;
                accounts =
                    Both-set (Holds ch n) w.runtime.mailboxes w.mail m _ at
                      (got-Holds lawful pos c c' e rest front law.1 law.2) h.accounts;
              })
      ]

  dropped-IsKept :
      (w : World ch rch A) (m : ℕ) (l : Loop A) (scheduler : Scheduler ActorTask)
      → IsKept w
      → IsKept (dropped w m l scheduler (get_elem? w.runtime.mailboxes m))
  unfolding dropped
  dropped-IsKept w m l scheduler h = elim (Option-cases (get_elem? w.runtime.mailboxes m)) [
    | inl missing ↦ rw missing h
    | inr (c, found) ↦
        subst (λ o. IsKept (dropped w m l scheduler o)) (sym found)
          (record {
            configured = h.configured;
            accounts =
                Both-set (Holds ch n) w.runtime.mailboxes w.mail m _ found (drop-Holds lawful pos c)
                  h.accounts;
          })
  ]

  loop_act-IsKept :
      (w : World ch rch A) (i : ℕ) (answer : Any u) (m : ℕ) (l : Loop A)
      (pc : LoopPc u (A.State l.kind))
      → IsKept w
      → IsKept (loop_act w i answer m l pc)
  unfolding loop_act try_received
  loop_act-IsKept w i answer m l (World.top s) h = record {
    configured = h.configured;
    accounts = h.accounts;
  }
  loop_act-IsKept w i answer m l (receiving stopping s) h =
      elim (Option-cases (get_elem? w.runtime.mailboxes m)) [
        | inl missing ↦ rw missing h
        | inr (c, found) ↦
            subst (λ o. IsKept (try_received w m l stopping s o)) (sym found)
              (received_on-IsKept w m l stopping s c found h)
      ]
  loop_act-IsKept w i answer m l (handling stopping (returns s)) h = record {
    configured = h.configured;
    accounts = h.accounts;
  }
  loop_act-IsKept w i answer m l (handling stopping panics) h = dropped-IsKept w m l _ h
  loop_act-IsKept w i answer m l (handling stopping (sends target msg k)) h =
      begin_send-IsKept w m l stopping msg k _ h
  loop_act-IsKept w i answer m l (handling stopping (replies msg k)) h =
      replied_on-IsKept w m l stopping k _ h
  loop_act-IsKept w i answer m l (handling stopping (calls k)) h = record {
    configured = h.configured;
    accounts = h.accounts;
  }
  loop_act-IsKept w i answer m l (sending stopping mailbox e k) h =
      sent_on-IsKept m l stopping k (try_held w mailbox e (get_elem? w.runtime.mailboxes mailbox))
        (try_held-IsKept w mailbox e h)
  loop_act-IsKept w i answer m l leaving h = dropped-IsKept w m l _ h
  loop_act-IsKept w i answer m l ended h = h

  loop_turn-IsKept :
      (w : World ch rch A) (i : ℕ) (answer : Any u) (m : ℕ) (o : Option (Loop A))
      → IsKept w
      → IsKept (loop_turn w i answer m o)
  unfolding loop_turn
  loop_turn-IsKept w i answer m none h = h
  loop_turn-IsKept w i answer m (some l) h = loop_act-IsKept w i answer m l l.pc h

  pub worker_act-IsKept :
      (w : World ch rch A) (i : ℕ) (answer : Any u) (o : Option (Pc ActorTask))
      → IsKept w
      → IsKept (worker_act w i answer o)
  unfolding worker_act
  worker_act-IsKept w i answer (some (running task)) h =
      loop_turn-IsKept w i answer task.mailbox (get_elem? w.loops task.mailbox) h
  worker_act-IsKept w i answer pc h = record { configured = h.configured; accounts = h.accounts }
