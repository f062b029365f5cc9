-- ===== src/Runtime/World/Steps.antt =====
-- src/runtime.rs with src/scheduler/work_stealing.rs: the turns of the workers and of the timer
-- thread, and everything that happens to a world.
use runact.Prelude.{ℕ, Bool, true, false, Option, none, some, get_elem?, set, if◌then◌else◌}
use runact.Any.{Types, Any, downcast}
use runact.Channel.{Channels, Sent, sent, full, disconnected, Received, got, empty, hung_up}
use runact.Actor.Error.{RuntimeError, runtime_stopped, Result, ok, err}
use runact.Actor.Context.{ActorContext, set_reply_sender, Replied, replied, blocked, reply}
use runact.Scheduler.Reduction.{ReductionCounter, reset, after_message}
use runact.Scheduler.WorkStealing.{Pc, running, crash}
use runact.Scheduler.WorkStealing
use runact.Runtime.{
  ActorId, MessageEnvelope, message, request, ActorTask, with_mailbox, find_sender,
}
use runact.Runtime.World.{
  Script, returns, panics, sends, replies, calls, Actors, LoopPc, top, receiving, handling, sending,
  leaving, ended, Loop, World, accept, taken, lose,
}

-- After a message, a loop that is not stopping counts it.
unfoldable pub counted : Bool → ReductionCounter → ReductionCounter
unfolding after_message
counted stopping r = if stopping then r else (after_message r).1

module _ {u : Types} {A : Actors u} where
  -- `if let Ok(msg) = payload.downcast() { ctx.set_reply_sender(reply); actor.handle(*msg, ctx) }`
  unfoldable pub call_if :
      (l : Loop A)
      → (stopping : Bool) → A.State l.kind
      → Option ℕ
      → Option (u.El (A.Message l.kind))
      → Loop A
  unfolding counted set_reply_sender
  call_if l stopping s r none = record l { pc = top s; reductions = counted stopping l.reductions }
  call_if l stopping s r (some msg) =
      let ctx = set_reply_sender r l.ctx in
      record l { ctx = ctx; pc = handling stopping (A.handle l.kind msg ctx s) }

  unfoldable pub opened : (l : Loop A) → Bool → A.State l.kind → MessageEnvelope u → Loop A
  unfolding call_if
  opened l stopping s (message payload) =
      call_if l stopping s none (downcast u (A.Message l.kind) payload)
  opened l stopping s (request id payload r) =
      call_if l stopping s (some r) (downcast u (A.Message l.kind) payload)

module _ {u : Types} {ch : Channels (MessageEnvelope u)} {rch : Channels (Any u)}
    {A : Actors u} where
  -- A thread that holds a sender tries `sender.send`; `none` is that it still waits.
  unfoldable pub held_sent :
      World ch rch A
      → ℕ
      → MessageEnvelope u
      → Sent × ch.Chan
      → Option (Result (Unit {0}) RuntimeError) × World ch rch A
  held_sent w mailbox e (sent, c) = (
    some (ok tt),
    record w { runtime = with_mailbox w.runtime mailbox c; mail = accept mailbox e w.mail },
  )
  held_sent w mailbox e (full, c) = (none, w)
  held_sent w mailbox e (disconnected, c) = (some (err runtime_stopped), w)

  unfoldable pub try_held :
      World ch rch A
      → ℕ
      → MessageEnvelope u
      → Option ch.Chan
      → Option (Result (Unit {0}) RuntimeError) × World ch rch A
  unfolding held_sent
  try_held w mailbox e none = (some (err runtime_stopped), w)  -- a sender always has its channel
  try_held w mailbox e (some c) = held_sent w mailbox e (ch.try_send c e)

  -- The loop at address `m` is `l`, and goes to `pc`.
  abbrev pub goto : World ch rch A → ℕ → (l : Loop A) → LoopPc u (A.State l.kind) → World ch rch A
  goto w m l pc = record w { loops = set w.loops m (record l { pc = pc }) }

  -- The message of a `send_to` has gone, or not, or waits.
  unfoldable pub sent_on :
      ℕ
      → (l : Loop A) → Bool
      → (Result (Unit {0}) RuntimeError → Script u (A.State l.kind))
      → Option (Result (Unit {0}) RuntimeError) × World ch rch A
      → World ch rch A
  sent_on m l stopping k (none, w) = w
  sent_on m l stopping k (some r, w) = goto w m l (handling stopping (k r))

  -- `self.senders.as_ref()`, the read lock, and the lookup of the target.
  unfoldable pub context_sender : World ch rch A → ActorContext → ActorId → Result ℕ RuntimeError
  unfolding find_sender
  context_sender w ctx target =
      if ctx.senders then find_sender w.runtime target else err runtime_stopped

  -- `send_to` keeps the read lock when it has found the sender.
  unfoldable pub begin_send :
      World ch rch A
      → ℕ
      → (l : Loop A) → Bool
      → Any u
      → (Result (Unit {0}) RuntimeError → Script u (A.State l.kind))
      → Result ℕ RuntimeError
      → World ch rch A
  begin_send w m l stopping msg k (err e) = goto w m l (handling stopping (k (err e)))
  begin_send w m l stopping msg k (ok mailbox) =
      goto w m l (sending stopping mailbox (message msg) k)

  unfoldable pub replied_on :
      World ch rch A
      → ℕ
      → (l : Loop A) → Bool
      → (Result (Unit {0}) RuntimeError → Script u (A.State l.kind))
      → Replied rch
      → World ch rch A
  replied_on w m l stopping k blocked = w
  replied_on w m l stopping k (replied r chans) =
      goto (record w { runtime = record w.runtime { replies = chans } }) m l
        (handling stopping (k r))

  unfoldable pub received_on :
      World ch rch A
      → ℕ
      → (l : Loop A) → Bool
      → A.State l.kind
      → Received (MessageEnvelope u) × ch.Chan
      → World ch rch A
  unfolding opened
  received_on w m l stopping s (got e, c) = record w {
    runtime = with_mailbox w.runtime m c;
    loops = set w.loops m (opened l stopping s e);
    mail = taken m e w.mail;
  }
  received_on w m l true s (empty, c) = goto w m l leaving
  received_on w m l false s (empty, c) = record w {
    loops = set w.loops m (record l { pc = top s; reductions = reset l.reductions });
  }
  received_on w m l stopping s (hung_up, c) = goto w m l leaving

  unfoldable pub try_received :
      World ch rch A → ℕ → (l : Loop A) → Bool → A.State l.kind → Option ch.Chan → World ch rch A
  unfolding received_on
  try_received w m l stopping s none = w  -- a receiver always has its channel
  try_received w m l stopping s (some c) = received_on w m l stopping s (ch.try_recv c)

  -- The closure drops its receiver, with what is still queued, and worker `i` ends its task or unwinds.
  unfoldable pub dropped :
      World ch rch A
      → ℕ
      → (l : Loop A) → WorkStealing.Scheduler ActorTask
      → Option ch.Chan
      → World ch rch A
  dropped w m l scheduler none = w
  dropped w m l scheduler (some c) = record w {
    runtime = record (with_mailbox w.runtime m (ch.drop_receiver c)) { scheduler = scheduler };
    loops = set w.loops m (record l { pc = ended });
    mail = lose m (ch.queued c) w.mail;
  }

  -- The next access of worker `i` in the loop at address `m`; `answer` is what a call outside gives.
  unfoldable pub loop_act :
      World ch rch A
      → (i : ℕ) → (answer : Any u) → (m : ℕ) → (l : Loop A) → LoopPc u (A.State l.kind)
      → World ch rch A
  unfolding try_received begin_send context_sender sent_on try_held replied_on reply dropped counted
      crash WorkStealing.turn
  loop_act w i answer m l (top s) = goto w m l (receiving w.runtime.stop s)
  loop_act w i answer m l (receiving stopping s) =
      try_received w m l stopping s (get_elem? w.runtime.mailboxes m)
  loop_act w i answer m l (handling stopping (returns s)) = record w {
    loops = set w.loops m (record l { pc = top s; reductions = counted stopping l.reductions });
  }
  loop_act w i answer m l (handling stopping panics) =
      dropped w m l (crash w.runtime.scheduler i) (get_elem? w.runtime.mailboxes m)
  loop_act w i answer m l (handling stopping (sends target msg k)) =
      begin_send w m l stopping msg k (context_sender w l.ctx target)
  loop_act w i answer m l (handling stopping (replies msg k)) =
      replied_on w m l stopping k (reply rch l.ctx msg w.runtime.replies)
  loop_act w i answer m l (handling stopping (calls k)) = goto w m l (handling stopping (k answer))
  loop_act w i answer m l (sending stopping mailbox e k) =
      sent_on m l stopping k (try_held w mailbox e (get_elem? w.runtime.mailboxes mailbox))
  loop_act w i answer m l leaving =
      dropped w m l (WorkStealing.turn w.runtime.scheduler i) (get_elem? w.runtime.mailboxes m)
  loop_act w i answer m l ended = w

  unfoldable pub loop_turn :
      World ch rch A → (i : ℕ) → (answer : Any u) → (m : ℕ) → Option (Loop A) → World ch rch A
  unfolding loop_act
  loop_turn w i answer m none = w
  loop_turn w i answer m (some l) = loop_act w i answer m l l.pc

  -- Inside a task a worker is in the loop of its actor; elsewhere it is in `worker_loop`.
  unfoldable pub worker_act :
      World ch rch A → (i : ℕ) → (answer : Any u) → Option (Pc ActorTask) → World ch rch A
  unfolding loop_turn WorkStealing.turn
  worker_act w i answer (some (running task)) =
      loop_turn w i answer task.mailbox (get_elem? w.loops task.mailbox)
  worker_act w i answer pc = record w {
    runtime = record w.runtime { scheduler = WorkStealing.turn w.runtime.scheduler i };
  }

  unfoldable pub worker_turn : World ch rch A → (i : ℕ) → (answer : Any u) → World ch rch A
  unfolding worker_act
  worker_turn w i answer = worker_act w i answer (get_elem? w.runtime.scheduler.workers i)
