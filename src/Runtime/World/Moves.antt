-- ===== src/Runtime/World/Moves.antt =====
-- src/runtime.rs with src/scheduler/work_stealing.rs: what a call, or a turn of a worker, does to the scheduler.
use runact.Prelude.{
  ℕ, suc, ◌≡◌, ◌∙◌, refl, ap, sym, subst, inl, inr, Bool, true, false, Option, none, some, length,
  length-set, get_elem?, Option-cases,
}
use runact.Any.{Types, Any}
use runact.Channel.{Channels, Sent, sent, full, disconnected, Received, got, empty, hung_up}
use runact.Actor.ActorId.{ActorId}
use runact.Actor.Error.{RuntimeError, Result, ok, err}
use runact.Actor.Context.{Replied, replied, blocked}
use runact.Scheduler.WorkStealing.{
  Pc, top, popping, running, scanning, moving, exited, Scheduler, crash, request_stop, turns,
  panics, stops,
}
use runact.Scheduler.WorkStealing
use runact.Runtime.{
  MessageEnvelope, message, request, ActorTask, Runtime, RuntimeConfig, find_sender, try_send_to,
  try_send_at, try_sent, request_from, open_mailbox, insert_info, begin_shutdown,
}
use runact.Runtime
use runact.Runtime.Routing.{requesting}
use runact.Runtime.World.{
  Script, returns, panics, sends, replies, calls, LoopPc, handling, sending, leaving, ended,
  receiving, Loop, Actors, World, is_locked, spawned_loop, request_to,
}
use runact.Runtime.World
use runact.Runtime.World.Calls.{
  requested-same, SameWork, try_send_to-OnlyMailboxes, request_from-OnlyMailboxes,
}
use runact.Runtime.World.Steps.{
  held_sent, try_held, sent_on, begin_send, replied_on, received_on, try_received, dropped,
  loop_act, loop_turn, worker_act,
}

module _ {ℓ} {T : Type ℓ} where
  -- An event of the scheduler that brings no task.
  abbrev pub is_inner : WorkStealing.Event T → Bool
  is_inner (WorkStealing.spawns task) = false
  is_inner e = true

-- What a step does to a scheduler and the number of mailboxes: nothing, or one access of a worker, a
-- panic or the stop, or the spawn of the loop of a new mailbox.
pub data Moved (n : ℕ) (s : Scheduler ActorTask) : ℕ → Scheduler ActorTask → Type 0 where
  stays : Moved n s n s
  acts :
      (e : WorkStealing.Event ActorTask) → is_inner e ≡ true → Moved n s n (WorkStealing.step s e)
  opens : (task : ActorTask) → task.mailbox ≡ n → Moved n s (suc n) (WorkStealing.spawn s task)

pub stays_as : {n n' : ℕ} {s s' : Scheduler ActorTask} → n' ≡ n → s' ≡ s → Moved n s n' s'
stays_as {n} {n'} {s} {s'} e f =
    subst (λ k. Moved n s k s') (sym e) (subst (Moved n s n) (sym f) stays)

module _ {u : Types} {ch : Channels (MessageEnvelope u)} {rch : Channels (Any u)} where
  abbrev pub RuntimeMoved : Runtime u ch rch → Runtime u ch rch → Type 0
  RuntimeMoved rt rt' =
      Moved (length rt.mailboxes) rt.scheduler (length rt'.mailboxes) rt'.scheduler

  pub SameWork-Moved : {rt rt' : Runtime u ch rch} → SameWork rt rt' → RuntimeMoved rt rt'
  unfolding WorkStealing.step
  SameWork-Moved {rt} {rt'} same = elim same.scheduler [
    | inl e ↦ stays_as (ap length same.mailboxes) e
    | inr e ↦
        subst (λ k. Moved (length rt.mailboxes) rt.scheduler k rt'.scheduler)
          (sym (ap length same.mailboxes))
          (subst (Moved (length rt.mailboxes) rt.scheduler (length rt.mailboxes)) (sym e)
            (acts WorkStealing.stops refl))
  ]

  -- A call that sends opens no mailbox.
  try_sent-length :
      (rt : Runtime u ch rch) (target : ActorId) (i : ℕ) (p : Sent × ch.Chan)
      → length (try_sent rt target i p).1.mailboxes ≡ length rt.mailboxes
  unfolding try_sent
  try_sent-length rt target i (sent, c) = length-set rt.mailboxes i c
  try_sent-length rt target i (full, c) = length-set rt.mailboxes i c
  try_sent-length rt target i (disconnected, c) = length-set rt.mailboxes i c

  try_send_to-length :
      (rt : Runtime u ch rch) (target : ActorId) (e : MessageEnvelope u)
      (found : Result ℕ RuntimeError)
      → length (try_send_to rt target e found).1.mailboxes ≡ length rt.mailboxes
  unfolding try_send_to try_send_at
  try_send_to-length rt target e (err x) = refl
  try_send_to-length rt target e (ok i) = elim (Option-cases (get_elem? rt.mailboxes i)) [
    | inl missing ↦ rw missing refl
    | inr (c, found) ↦ rw found (try_sent-length rt target i (ch.try_send c e))
  ]

  pub send-Moved :
      (rt : Runtime u ch rch) (target : ActorId) (m : Any u)
      → RuntimeMoved rt (Runtime.send rt target m).1
  unfolding Runtime.send
  send-Moved rt target m =
      let found = find_sender rt target in
      stays_as (try_send_to-length rt target (message m) found)
        (ap (λ r. r.scheduler) (try_send_to-OnlyMailboxes rt target (message m) found))

  pub request_from-Moved :
      (rt : Runtime u ch rch) (target : ActorId) (m : Any u)
      → RuntimeMoved rt (request_from rt target m).1
  unfolding request_from find_sender
  request_from-Moved rt target m =
      let found = find_sender rt target in
      let e = request rt.request_counter m (length rt.replies) in
      let p = try_send_to (requesting rt) target e found in
      stays_as
        (ap (λ r. length r.mailboxes) (requested-same rt.request_counter (length rt.replies) p)
          ∙ try_send_to-length (requesting rt) target e found)
        (ap (λ r. r.scheduler) (request_from-OnlyMailboxes rt target m))

module _ {u : Types} {ch : Channels (MessageEnvelope u)} {rch : Channels (Any u)}
    {A : Actors u} where
  abbrev pub WorldMoved : World ch rch A → World ch rch A → Type 0
  WorldMoved w w' = RuntimeMoved w.runtime w'.runtime

  held_sent-Moved :
      (w : World ch rch A) (i : ℕ) (e : MessageEnvelope u) (p : Sent × ch.Chan)
      → WorldMoved w (held_sent w i e p).1
  unfolding held_sent
  held_sent-Moved w i e (sent, c) = stays_as (length-set w.runtime.mailboxes i c) refl
  held_sent-Moved w i e (full, c) = stays
  held_sent-Moved w i e (disconnected, c) = stays

  pub try_held-Moved :
      (w : World ch rch A) (i : ℕ) (e : MessageEnvelope u) (o : Option ch.Chan)
      → WorldMoved w (try_held w i e o).1
  unfolding try_held
  try_held-Moved w i e none = stays
  try_held-Moved w i e (some c) = held_sent-Moved w i e (ch.try_send c e)

  sent_on-Moved :
      (w : World ch rch A) (m : ℕ) (l : Loop A) (stopping : Bool)
      (k : Result (Unit {0}) RuntimeError → Script u (A.State l.kind))
      (p : Option (Result (Unit {0}) RuntimeError) × World ch rch A)
      → WorldMoved w p.1
      → WorldMoved w (sent_on m l stopping k p)
  unfolding sent_on
  sent_on-Moved w m l stopping k (none, w') h = h
  sent_on-Moved w m l stopping k (some r, w') h = h

  begin_send-Moved :
      (w : World ch rch A) (m : ℕ) (l : Loop A) (stopping : Bool) (msg : Any u)
      (k : Result (Unit {0}) RuntimeError → Script u (A.State l.kind))
      (found : Result ℕ RuntimeError)
      → WorldMoved w (begin_send w m l stopping msg k found)
  unfolding begin_send
  begin_send-Moved w m l stopping msg k (err e) = stays
  begin_send-Moved w m l stopping msg k (ok i) = stays

  replied_on-Moved :
      (w : World ch rch A) (m : ℕ) (l : Loop A) (stopping : Bool)
      (k : Result (Unit {0}) RuntimeError → Script u (A.State l.kind)) (r : Replied rch)
      → WorldMoved w (replied_on w m l stopping k r)
  unfolding replied_on
  replied_on-Moved w m l stopping k blocked = stays
  replied_on-Moved w m l stopping k (replied r chans) = stays

  received_on-Moved :
      (w : World ch rch A) (m : ℕ) (l : Loop A) (stopping : Bool) (s : A.State l.kind)
      (p : Received (MessageEnvelope u) × ch.Chan)
      → WorldMoved w (received_on w m l stopping s p)
  unfolding received_on
  received_on-Moved w m l stopping s (got e, c) = stays_as (length-set w.runtime.mailboxes m c) refl
  received_on-Moved w m l true s (empty, c) = stays
  received_on-Moved w m l false s (empty, c) = stays
  received_on-Moved w m l stopping s (hung_up, c) = stays

  try_received-Moved :
      (w : World ch rch A) (m : ℕ) (l : Loop A) (stopping : Bool) (s : A.State l.kind)
      (o : Option ch.Chan)
      → WorldMoved w (try_received w m l stopping s o)
  unfolding try_received
  try_received-Moved w m l stopping s none = stays
  try_received-Moved w m l stopping s (some c) = received_on-Moved w m l stopping s (ch.try_recv c)

  dropped-Moved :
      (w : World ch rch A) (m : ℕ) (l : Loop A) (e : WorkStealing.Event ActorTask)
      (o : Option ch.Chan)
      → is_inner e ≡ true
      → WorldMoved w (dropped w m l (WorkStealing.step w.runtime.scheduler e) o)
  unfolding dropped
  dropped-Moved w m l e none inner = stays
  dropped-Moved w m l e (some c) inner =
      subst
        (λ k.
          Moved (length w.runtime.mailboxes) w.runtime.scheduler k
            (WorkStealing.step w.runtime.scheduler e))
        (sym (length-set w.runtime.mailboxes m (ch.drop_receiver c))) (acts e inner)

  loop_act-Moved :
      (w : World ch rch A) (i : ℕ) (answer : Any u) (m : ℕ) (l : Loop A)
      (pc : LoopPc u (A.State l.kind))
      → WorldMoved w (loop_act w i answer m l pc)
  unfolding loop_act WorkStealing.step
  loop_act-Moved w i answer m l (World.top s) = stays
  loop_act-Moved w i answer m l (receiving stopping s) =
      try_received-Moved w m l stopping s (get_elem? w.runtime.mailboxes m)
  loop_act-Moved w i answer m l (handling stopping (returns s)) = stays
  loop_act-Moved w i answer m l (handling stopping World.panics) =
      dropped-Moved w m l (WorkStealing.panics i) (get_elem? w.runtime.mailboxes m) refl
  loop_act-Moved w i answer m l (handling stopping (sends target msg k)) =
      begin_send-Moved w m l stopping msg k _
  loop_act-Moved w i answer m l (handling stopping (replies msg k)) =
      replied_on-Moved w m l stopping k _
  loop_act-Moved w i answer m l (handling stopping (calls k)) = stays
  loop_act-Moved w i answer m l (sending stopping mailbox e k) =
      let o = get_elem? w.runtime.mailboxes mailbox in
      sent_on-Moved w m l stopping k (try_held w mailbox e o) (try_held-Moved w mailbox e o)
  loop_act-Moved w i answer m l leaving =
      dropped-Moved w m l (WorkStealing.turns i) (get_elem? w.runtime.mailboxes m) refl
  loop_act-Moved w i answer m l ended = stays

  loop_turn-Moved :
      (w : World ch rch A) (i : ℕ) (answer : Any u) (m : ℕ) (o : Option (Loop A))
      → WorldMoved w (loop_turn w i answer m o)
  unfolding loop_turn
  loop_turn-Moved w i answer m none = stays
  loop_turn-Moved w i answer m (some l) = loop_act-Moved w i answer m l l.pc

  pub worker_act-Moved :
      (w : World ch rch A) (i : ℕ) (answer : Any u) (o : Option (Pc ActorTask))
      → WorldMoved w (worker_act w i answer o)
  unfolding worker_act WorkStealing.step
  worker_act-Moved w i answer (some (running task)) =
      loop_turn-Moved w i answer task.mailbox (get_elem? w.loops task.mailbox)
  worker_act-Moved w i answer pc = acts (WorkStealing.turns i) refl
