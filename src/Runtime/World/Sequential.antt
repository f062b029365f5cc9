-- ===== src/Runtime/World/Sequential.antt =====
-- src/runtime.rs with src/actor/trait_def.rs: the state of an actor whose handler makes no calls is the
-- handler folded over the messages that its loop has taken, in the turns of the workers.
use runact.Prelude.{
  ℕ, ◌≡◌, ◌∙◌, refl, ap, subst, Bool, true, false, Option, none, some, get_elem?, set, Both,
  Both-set, Both-set_left, Both-modify,
}
use runact.Any.{Types, Any}
use runact.Channel.{Channels, Sent, sent, full, disconnected, Received, got, empty, hung_up}
use runact.Scheduler.WorkStealing.{Scheduler, Pc, running}
use runact.Runtime.{MessageEnvelope, ActorTask}
use runact.Runtime.World.{
  Script, returns, panics, sends, replies, calls, LoopPc, top, handling, sending, leaving, ended,
  receiving, Loop, Actors, World, Mail,
}
use runact.Actor.Error.{RuntimeError, Result, ok, err}
use runact.Actor.Context.{Replied, replied, blocked}
use runact.Runtime.World.Steps.{
  goto, sent_on, begin_send, replied_on, held_sent, try_held, received_on, try_received, dropped,
  loop_act, loop_turn, worker_act,
}
use runact.Runtime.World.PureLoops.{
  Pure, HasState, folded, IsFolded, Strays, calls-Strays, taken-IsFolded, returns-same,
}

module _ {u : Types} {ch : Channels (MessageEnvelope u)} {rch : Channels (Any u)} {A : Actors u}
    (P : Pure A) where
  abbrev pub IsSequential : World ch rch A → Type 0
  IsSequential w = Both (IsFolded P) w.loops w.mail

  -- The loop at `m` goes on with a state that fits.
  goes-IsSequential :
      (w : World ch rch A) (m : ℕ) (l l' : Loop A)
      → get_elem? w.loops m ≡ some l
      → ((x : Mail u) → IsFolded P l x → IsFolded P l' x)
      → Both (IsFolded P) w.loops w.mail
      → Both (IsFolded P) (set w.loops m l') w.mail
  goes-IsSequential w m l l' at keeps h = Both-set_left (IsFolded P) w.loops w.mail m at keeps h

  received_on-IsSequential :
      (w : World ch rch A) (m : ℕ) (l : Loop A) (stopping : Bool) (s : A.State l.kind)
      (p : Received (MessageEnvelope u) × ch.Chan)
      → get_elem? w.loops m ≡ some l
      → l.pc ≡ receiving stopping s
      → IsSequential w
      → IsSequential (received_on w m l stopping s p)
  unfolding received_on
  received_on-IsSequential w m l stopping s (got e, c) at pc h =
      Both-set (IsFolded P) w.loops w.mail m _ at
        (λ x f.
          taken-IsFolded P l stopping s e x
            (λ p. subst (λ pc. HasState pc (folded P l.kind p x.handled)) pc (f p)))
        h
  received_on-IsSequential w m l true s (empty, c) at pc h =
      goes-IsSequential w m l _ at (λ x f p. tt) h
  received_on-IsSequential w m l false s (empty, c) at pc h =
      goes-IsSequential w m l _ at
        (λ x f p. subst (λ pc. HasState pc (folded P l.kind p x.handled)) pc (f p)) h
  received_on-IsSequential w m l stopping s (hung_up, c) at pc h =
      goes-IsSequential w m l _ at (λ x f p. tt) h

  try_received-IsSequential :
      (w : World ch rch A) (m : ℕ) (l : Loop A) (stopping : Bool) (s : A.State l.kind)
      (o : Option ch.Chan)
      → get_elem? w.loops m ≡ some l
      → l.pc ≡ receiving stopping s
      → IsSequential w
      → IsSequential (try_received w m l stopping s o)
  unfolding try_received
  try_received-IsSequential w m l stopping s none at pc h = h
  try_received-IsSequential w m l stopping s (some c) at pc h =
      received_on-IsSequential w m l stopping s (ch.try_recv c) at pc h

  dropped-IsSequential :
      (w : World ch rch A) (m : ℕ) (l : Loop A) (scheduler : Scheduler ActorTask)
      (o : Option ch.Chan)
      → get_elem? w.loops m ≡ some l
      → IsSequential w
      → IsSequential (dropped w m l scheduler o)
  unfolding dropped
  dropped-IsSequential w m l scheduler none at h = h
  dropped-IsSequential w m l scheduler (some c) at h =
      Both-set (IsFolded P) w.loops w.mail m _ at (λ x f p. tt) h

  held_sent-IsSequential :
      (w : World ch rch A) (i : ℕ) (e : MessageEnvelope u) (p : Sent × ch.Chan)
      → IsSequential w
      → IsSequential (held_sent w i e p).1
  unfolding held_sent
  held_sent-IsSequential w i e (sent, c) h =
      Both-modify (IsFolded P) w.loops w.mail i _ (λ l x f. f) h
  held_sent-IsSequential w i e (full, c) h = h
  held_sent-IsSequential w i e (disconnected, c) h = h

  pub try_held-IsSequential :
      (w : World ch rch A) (i : ℕ) (e : MessageEnvelope u) (o : Option ch.Chan)
      → IsSequential w
      → IsSequential (try_held w i e o).1
  unfolding try_held
  try_held-IsSequential w i e none h = h
  try_held-IsSequential w i e (some c) h = held_sent-IsSequential w i e (ch.try_send c e) h

  Strays-goto :
      (w : World ch rch A) (m : ℕ) (l : Loop A) (pc : LoopPc u (A.State l.kind))
      → get_elem? w.loops m ≡ some l
      → Strays P l
      → IsSequential w
      → IsSequential (goto w m l pc)
  Strays-goto w m l pc at off h = goes-IsSequential w m l _ at (λ x f p. absurd (off x f p)) h

  begin_send-IsSequential :
      (w : World ch rch A) (m : ℕ) (l : Loop A) (stopping : Bool) (msg : Any u)
      (k : Result (Unit {0}) RuntimeError → Script u (A.State l.kind))
      (found : Result ℕ RuntimeError)
      → get_elem? w.loops m ≡ some l
      → Strays P l
      → IsSequential w
      → IsSequential (begin_send w m l stopping msg k found)
  unfolding begin_send
  begin_send-IsSequential w m l stopping msg k (err e) at off h = Strays-goto w m l _ at off h
  begin_send-IsSequential w m l stopping msg k (ok i) at off h = Strays-goto w m l _ at off h

  replied_on-IsSequential :
      (w : World ch rch A) (m : ℕ) (l : Loop A) (stopping : Bool)
      (k : Result (Unit {0}) RuntimeError → Script u (A.State l.kind)) (r : Replied rch)
      → get_elem? w.loops m ≡ some l
      → Strays P l
      → IsSequential w
      → IsSequential (replied_on w m l stopping k r)
  unfolding replied_on
  replied_on-IsSequential w m l stopping k blocked at off h = h
  replied_on-IsSequential w m l stopping k (replied r chans) at off h =
      Strays-goto (record w { runtime = record w.runtime { replies = chans } }) m l _ at off h

  sent_on-IsSequential :
      (m : ℕ) (l : Loop A) (stopping : Bool)
      (k : Result (Unit {0}) RuntimeError → Script u (A.State l.kind))
      (p : Option (Result (Unit {0}) RuntimeError) × World ch rch A)
      → get_elem? p.1.loops m ≡ some l
      → Strays P l
      → IsSequential p.1
      → IsSequential (sent_on m l stopping k p)
  unfolding sent_on
  sent_on-IsSequential m l stopping k (none, w) at off h = h
  sent_on-IsSequential m l stopping k (some r, w) at off h = Strays-goto w m l _ at off h

  held_sent-loops :
      (w : World ch rch A) (i : ℕ) (e : MessageEnvelope u) (p : Sent × ch.Chan)
      → (held_sent w i e p).1.loops ≡ w.loops
  unfolding held_sent
  held_sent-loops w i e (sent, c) = refl
  held_sent-loops w i e (full, c) = refl
  held_sent-loops w i e (disconnected, c) = refl

  try_held-loops :
      (w : World ch rch A) (i : ℕ) (e : MessageEnvelope u) (o : Option ch.Chan)
      → (try_held w i e o).1.loops ≡ w.loops
  unfolding try_held
  try_held-loops w i e none = refl
  try_held-loops w i e (some c) = held_sent-loops w i e (ch.try_send c e)

  loop_act-IsSequential :
      (w : World ch rch A) (i : ℕ) (answer : Any u) (m : ℕ) (l : Loop A)
      (pc : LoopPc u (A.State l.kind))
      → get_elem? w.loops m ≡ some l
      → l.pc ≡ pc
      → IsSequential w
      → IsSequential (loop_act w i answer m l pc)
  unfolding loop_act
  loop_act-IsSequential w i answer m l (top s) at pc h =
      goes-IsSequential w m l _ at
        (λ x f p. subst (λ pc. HasState pc (folded P l.kind p x.handled)) pc (f p)) h
  loop_act-IsSequential w i answer m l (receiving stopping s) at pc h =
      try_received-IsSequential w m l stopping s (get_elem? w.runtime.mailboxes m) at pc h
  loop_act-IsSequential w i answer m l (handling stopping (returns s)) at pc h =
      goes-IsSequential w m l _ at
        (λ x f p. returns-same (subst (λ pc. HasState pc (folded P l.kind p x.handled)) pc (f p))) h
  loop_act-IsSequential w i answer m l (handling stopping panics) at pc h =
      dropped-IsSequential w m l _ (get_elem? w.runtime.mailboxes m) at h
  loop_act-IsSequential w i answer m l (handling stopping (sends target msg k)) at pc h =
      begin_send-IsSequential w m l stopping msg k _ at (calls-Strays P l stopping _ (λ s e. cc) pc)
        h
  loop_act-IsSequential w i answer m l (handling stopping (replies msg k)) at pc h =
      replied_on-IsSequential w m l stopping k _ at (calls-Strays P l stopping _ (λ s e. cc) pc) h
  loop_act-IsSequential w i answer m l (handling stopping (calls k)) at pc h =
      Strays-goto w m l _ at (calls-Strays P l stopping _ (λ s e. cc) pc) h
  loop_act-IsSequential w i answer m l (sending stopping mailbox e k) at pc h =
      let o = get_elem? w.runtime.mailboxes mailbox in
      sent_on-IsSequential m l stopping k (try_held w mailbox e o)
        (ap (λ ls. get_elem? ls m) (try_held-loops w mailbox e o) ∙ at)
        (λ x f p. subst (λ pc. HasState pc (folded P l.kind p x.handled)) pc (f p))
        (try_held-IsSequential w mailbox e o h)
  loop_act-IsSequential w i answer m l leaving at pc h =
      dropped-IsSequential w m l _ (get_elem? w.runtime.mailboxes m) at h
  loop_act-IsSequential w i answer m l ended at pc h = h

  loop_turn-IsSequential :
      (w : World ch rch A) (i : ℕ) (answer : Any u) (m : ℕ) (o : Option (Loop A))
      → get_elem? w.loops m ≡ o
      → IsSequential w
      → IsSequential (loop_turn w i answer m o)
  unfolding loop_turn
  loop_turn-IsSequential w i answer m none at h = h
  loop_turn-IsSequential w i answer m (some l) at h =
      loop_act-IsSequential w i answer m l l.pc at refl h

  pub worker_act-IsSequential :
      (w : World ch rch A) (i : ℕ) (answer : Any u) (o : Option (Pc ActorTask))
      → IsSequential w
      → IsSequential (worker_act w i answer o)
  unfolding worker_act
  worker_act-IsSequential w i answer (some (running task)) h =
      loop_turn-IsSequential w i answer task.mailbox (get_elem? w.loops task.mailbox) refl h
  worker_act-IsSequential w i answer o h = h
