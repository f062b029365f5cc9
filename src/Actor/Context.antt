-- ===== src/Actor/Context.antt =====
-- src/actor/context.rs: what a handler may do. The maps and channels that a context shares with the
-- runtime stand in the runtime; here is whether they are set, which `spawn` does for each. A send
-- on a full channel blocks.
use runact.Prelude.{ℕ, Bool, true, false, Option, none, some, List, get_elem?, set, if◌then◌else◌}
use runact.Any.{Types, Any}
use runact.Channel.{Channels, Sent, sent, full, disconnected}
use runact.Actor.ActorId.{ActorId}
use runact.Actor.Error.{RuntimeError, runtime_stopped, Result, ok, err}
use runact.Runtime.{MessageEnvelope, Runtime, Blocking, returned, send_blocking}

pub record ActorContext : Type 0 where
  pub actor_id : ActorId
  pub senders : Bool
  pub reply_sender : Option ℕ
  pub compute_sender : Bool
  pub timer_handle : Bool

unfoldable pub new : ActorId → ActorContext
new id = record {
  actor_id = id;
  senders = false;
  reply_sender = none;
  compute_sender = false;
  timer_handle = false;
}

unfoldable pub set_senders : ActorContext → ActorContext
set_senders ctx = record ctx { senders = true }

unfoldable pub set_reply_sender : Option ℕ → ActorContext → ActorContext
set_reply_sender reply ctx = record ctx { reply_sender = reply }

unfoldable pub set_compute_sender : ActorContext → ActorContext
set_compute_sender ctx = record ctx { compute_sender = true }

unfoldable pub set_timer_handle : ActorContext → ActorContext
set_timer_handle ctx = record ctx { timer_handle = true }

-- The context that `Runtime::spawn` hands to the loop of the actor; `has_compute` is that
-- `compute.sender()` gives one.
unfoldable pub spawned_context : (has_compute : Bool) → ActorId → ActorContext
unfolding new set_senders set_timer_handle set_compute_sender
spawned_context has_compute id =
    let ctx = set_timer_handle (set_senders (new id)) in
    if has_compute then set_compute_sender ctx else ctx

unfoldable pub is_request : ActorContext → Bool
is_request ctx = elim ctx.reply_sender [ none ↦ false | some reply ↦ true ]

-- What a reply does to the store of reply channels.
pub data Replied {u : Types} (rch : Channels (Any u)) : Type 0 where
  replied : Result (Unit {0}) RuntimeError → List rch.Chan → Replied rch
  blocked : Replied rch

module _ {u : Types} (rch : Channels (Any u)) where
  unfoldable pub sent_reply : List rch.Chan → ℕ → Sent × rch.Chan → Replied rch
  sent_reply replies reply (sent, c) = replied (ok tt) (set replies reply c)
  sent_reply replies reply (full, c) = blocked
  sent_reply replies reply (disconnected, c) = replied (err runtime_stopped) (set replies reply c)

  -- A sender always has its channel.
  unfoldable pub send_reply : List rch.Chan → Any u → ℕ → Option rch.Chan → Replied rch
  unfolding sent_reply
  send_reply replies m reply none = replied (err runtime_stopped) replies
  send_reply replies m reply (some c) = sent_reply replies reply (rch.try_send c m)

  unfoldable pub reply_through : Option ℕ → Any u → List rch.Chan → Replied rch
  unfolding send_reply
  reply_through none m replies = replied (ok tt) replies
  reply_through (some reply) m replies = send_reply replies m reply (get_elem? replies reply)

  unfoldable pub reply : ActorContext → Any u → List rch.Chan → Replied rch
  unfolding reply_through
  reply ctx m replies = reply_through ctx.reply_sender m replies

module _ {u : Types} {ch : Channels (MessageEnvelope u)} {rch : Channels (Any u)} where
  unfoldable pub send_to : ActorContext → Runtime u ch rch → ActorId → Any u → Blocking u ch rch
  unfolding send_blocking
  send_to ctx rt target m =
      if ctx.senders then send_blocking rt target m else returned (err runtime_stopped) rt
