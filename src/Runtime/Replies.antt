-- ===== src/Runtime/Replies.antt =====
-- src/runtime.rs and src/actor/context.rs together: replies, from the handler to the caller.
use runact.Prelude.{
  get_elem?-lt, ◌≤◌, ℕ, ◌<◌, ◌≡◌, refl, ap, ◌∙◌, true, Option, none, some, List, [], ◌∷◌, ◌++◌,
  length, arith, get_elem?, set, get_elem?-set_self,
}
use runact.Any.{Types, Any, boxed, downcast-boxed}
use runact.Channel.{Channels, IsLawful, got, Sent, sent, full, disconnected}
use runact.Actor.Error.{ok}
use runact.Actor.Context.{
  ActorContext, replied, blocked, reply, reply_through, send_reply, sent_reply,
}
use runact.Runtime.{RequestHandle}
use runact.Runtime.Requests.{
  received_reply, downcast_reply, Call, Reception, recv, recv_timeout, received, received_now,
  try_recv_at, typed_reply, await_reply,
}

module _ {u : Types} (rch : Channels (Any u)) where
  -- A reply channel that nobody has used yet, with its receiver.
  pub record IsFresh (replies : List rch.Chan) (i : ℕ) : Type 0 where
    pub channel : rch.Chan
    pub stored : get_elem? replies i ≡ some channel
    pub unused : rch.queued channel ≡ []
    pub one : rch.capacity channel ≡ 1
    pub awaited : rch.receiving channel ≡ true

  -- A channel with one reply in it, which nobody has received yet.
  pub record HoldsReply (replies : List rch.Chan) (i : ℕ) (m : Any u) : Type 0 where
    pub channel : rch.Chan
    pub stored : get_elem? replies i ≡ some channel
    pub holds : rch.queued channel ≡ m ∷ []
    pub one : rch.capacity channel ≡ 1
    pub awaited : rch.receiving channel ≡ true

module _ {u : Types} {rch : Channels (Any u)} (lawful : IsLawful rch) where
  sent_reply_ok :
      (replies : List rch.Chan) (i : ℕ) (p : Sent × rch.Chan)
      → p.0 ≡ sent
      → sent_reply rch replies i p ≡ replied (ok tt) (set replies i p.1)
  unfolding sent_reply
  sent_reply_ok replies i (sent, c) h = refl
  sent_reply_ok replies i (full, c) h = absurd (cc)
  sent_reply_ok replies i (disconnected, c) h = absurd (cc)

  pub reply_through-HoldsReply :
      (replies : List rch.Chan) (i : ℕ) (m : Any u)
      → IsFresh rch replies i
      → (replies' : List rch.Chan) × (reply_through rch (some i) m replies
          ≡ replied (ok tt) replies')
        × HoldsReply rch replies' i m
  unfolding reply_through send_reply
  reply_through-HoldsReply replies i m f =
      let room : length (rch.queued f.channel) < rch.capacity f.channel =
        omega (arith, ap length f.unused, f.one) in
      let law = lawful.send_room f.channel m f.awaited room in
      let c = (rch.try_send f.channel m).1 in
      (
        set replies i c,
        ap (send_reply rch replies m i) f.stored
            ∙ sent_reply_ok replies i (rch.try_send f.channel m) law.0,
        record {
          channel = c;
          stored = get_elem?-set_self replies i c (get_elem?-lt replies i f.stored);
          holds = law.1 ∙ ap (λ q. q ++ m ∷ []) f.unused;
          one = law.2.same_capacity ∙ f.one;
          awaited = law.2.same_receiver ∙ f.awaited;
        },
      )

  try_recv-HoldsReply :
      (replies : List rch.Chan) (i : ℕ) (m : Any u)
      → HoldsReply rch replies i m
      → try_recv_at rch (get_elem? replies i) ≡ got m
  unfolding try_recv_at
  try_recv-HoldsReply replies i m h =
      ap (try_recv_at rch) h.stored ∙ (lawful.recv_got h.channel m [] h.holds).0

  reply_through-blocked :
      (replies : List rch.Chan) (i : ℕ) (m m' : Any u)
      → HoldsReply rch replies i m
      → reply_through rch (some i) m' replies ≡ blocked
  unfolding reply_through send_reply sent_reply
  reply_through-blocked replies i m m' h =
      let over : rch.capacity h.channel ≤ length (rch.queued h.channel) =
        omega (arith, ap length h.holds, h.one) in
      ap (send_reply rch replies m' i) h.stored
      ∙ ap (sent_reply rch replies i)
          (lawful.send_full h.channel m' h.awaited (omega (arith, h.one)) over)

  -- While a handler serves a request whose reply channel is new and awaited, over channels that meet
  -- their documented laws: its first `reply` succeeds, and the caller's `recv` gives that reply; a
  -- second `reply`, before the caller has received, blocks the thread of the actor.
  pub reply-reply :
      (ctx : ActorContext) (i : ℕ) (m m' : Any u) (replies : List rch.Chan) (id : ℕ)
      → ctx.reply_sender ≡ some i
      → IsFresh rch replies i
      → (replies' : List rch.Chan) × (reply rch ctx m replies ≡ replied (ok tt) replies')
        × (recv rch (record { id = id; receiver = i }) replies' ≡ Reception.returned (ok m))
        × (reply rch ctx m' replies' ≡ blocked)
  unfolding reply recv received
  reply-reply ctx i m m' replies id r f =
      let (replies', done, held) = reply_through-HoldsReply replies i m f in
      (
        replies',
        ap (λ o. reply_through rch o m replies) r ∙ done,
        ap (received rch) (try_recv-HoldsReply replies' i m held),
        ap (λ o. reply_through rch o m' replies') r ∙ reply_through-blocked replies' i m m' held,
      )

  pub await_reply-HoldsReply :
      (t : u.Ty) (v : u.El t) (timeout : Option ℕ) (h : RequestHandle) (replies : List rch.Chan)
      → HoldsReply rch replies h.receiver (boxed u t v)
      → await_reply rch t timeout (ok h) replies ≡ Call.returned (ok v)
  unfolding await_reply recv recv_timeout received_now typed_reply received_reply received
  await_reply-HoldsReply t v none h replies held =
      ap (λ o. received_reply rch t (received rch o))
        (try_recv-HoldsReply replies h.receiver (boxed u t v) held)
      ∙ ap (λ o. Call.returned (downcast_reply u t o)) (downcast-boxed u t v)
  await_reply-HoldsReply t v (some duration) h replies held =
      ap (λ o. Call.returned (typed_reply u t (received_now rch o)))
        (try_recv-HoldsReply replies h.receiver (boxed u t v) held)
      ∙ ap (λ o. Call.returned (downcast_reply u t o)) (downcast-boxed u t v)
