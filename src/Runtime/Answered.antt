-- ===== src/Runtime/Answered.antt =====
-- src/runtime.rs and src/actor/context.rs together: a request travels through the mailbox to the
-- handler, and its reply through the reply channel back to the caller.
use runact.Prelude.{
  get_elem?-end_snoc, ℕ, ◌<◌, ◌≡◌, refl, ap, sym, ◌∙◌, subst, Bool, true, false, Option, some, List,
  [], ◌∷◌, ◌++◌, length, arith, get_elem?,
}
use runact.Any.{Types, Any, boxed, downcast-boxed}
use runact.Channel.{Channels, IsLawful}
use runact.Actor.ActorId.{ActorId}
use runact.Actor.Error.{ok}
use runact.Actor.Context.{Replied, replied, blocked, reply_through}
use runact.Runtime.{MessageEnvelope, request, Runtime, RequestHandle, request_from}
use runact.Runtime.Routing.{RoutesTo, request_from-Delivers}
use runact.Runtime.Requests.{Call, await_reply}
use runact.Scheduler.Reduction.{ReductionCounter}
use runact.Runtime.ActorLoop.{
  call_handler, call_if, received_stopping, received_running, counted, LoopState, goes_on, turn,
  deliver,
}
use runact.Runtime.Replies.{IsFresh, reply_through-HoldsReply, await_reply-HoldsReply}

-- The store after a reply; a blocked handler has changed nothing.
abbrev store_after :
    {u : Types} {rch : Channels (Any u)} → Replied rch → List rch.Chan → List rch.Chan
store_after (replied result replies') replies = replies'
store_after blocked replies = replies

module _ {u : Types} (ch : Channels (MessageEnvelope u)) (rch : Channels (Any u)) {S : Type 0}
    (t r : u.Ty) (answer : u.El t → S → u.El r × S) where
  -- The handler of an actor that answers each message of type `t` with one reply of type `r`; it
  -- reaches its own state, and the reply channels.
  abbrev pub replier :
      u.El t → Option ℕ → (S × List rch.Chan) × ch.Chan → (S × List rch.Chan) × ch.Chan
  replier m reply_sender (s, c) = (
    (
      (answer m s.0).1,
      store_after (reply_through rch reply_sender (boxed u r (answer m s.0).0) s.1) s.1,
    ),
    c,
  )

  -- The loop after it has served the request for `m`, and what the caller gets.
  pub record Served (m : u.El t) (s : S) (handle : RequestHandle)
      (w : LoopState ch (S × List rch.Chan)) : Type 0 where
    pub state : w.actor.0 ≡ (answer m s).1
    pub emptied : ch.queued w.mailbox ≡ []
    pub answered :
        (timeout : Option ℕ)
        → await_reply rch r timeout (ok handle) w.actor.1 ≡ Call.returned (ok (answer m s).0)

module _ {u : Types} {ch : Channels (MessageEnvelope u)} {rch : Channels (Any u)} {S : Type 0}
    (lawful : IsLawful ch) (lawful_replies : IsLawful rch) (t r : u.Ty)
    (answer : u.El t → S → u.El r × S) where
  call_handler-Served :
      (m : u.El t) (s : S) (handle : RequestHandle) (w : LoopState ch (S × List rch.Chan))
      → w.actor.0 ≡ s
      → ch.queued w.mailbox ≡ []
      → IsFresh rch w.actor.1 handle.receiver
      → Served ch rch t r answer m s handle
          (call_handler t (replier ch rch t r answer) (some handle.receiver) m w)
  unfolding call_handler
  call_handler-Served m s handle w e empty_box f =
      let v = boxed u r (answer m w.actor.0).0 in
      let (replies', done, held) =
        reply_through-HoldsReply lawful_replies w.actor.1 handle.receiver v f in
      let stored = ap (λ p. store_after p w.actor.1) done in
      record {
        state = ap (λ x. (answer m x).1) e;
        emptied = empty_box;
        answered = λ timeout.
            ap (await_reply rch r timeout (ok handle)) stored
            ∙ await_reply-HoldsReply lawful_replies r (answer m w.actor.0).0 timeout handle replies'
                held
            ∙ ap (λ x. Call.returned (ok (answer m x).0)) e;
      }

  deliver-Served :
      (m : u.El t) (s : S) (handle : RequestHandle) (w : LoopState ch (S × List rch.Chan))
      → w.actor.0 ≡ s
      → ch.queued w.mailbox ≡ []
      → IsFresh rch w.actor.1 handle.receiver
      → Served ch rch t r answer m s handle (
          deliver t (replier ch rch t r answer) (request handle.id (boxed u t m) handle.receiver) w)
  unfolding deliver call_if
  deliver-Served m s handle w e empty_box f =
      subst
        (λ o.
          Served ch rch t r answer m s handle
            (call_if t (replier ch rch t r answer) (some handle.receiver) o w))
        (sym (downcast-boxed u t m)) (call_handler-Served m s handle w e empty_box f)

  turn-Served :
      (stop : Bool) (m : u.El t) (s : S) (handle : RequestHandle)
      (w : LoopState ch (S × List rch.Chan))
      → w.actor.0 ≡ s
      → ch.queued w.mailbox ≡ request handle.id (boxed u t m) handle.receiver ∷ []
      → IsFresh rch w.actor.1 handle.receiver
      → (w' : LoopState ch (S × List rch.Chan)) × (turn t (replier ch rch t r answer) stop w
          ≡ goes_on w')
        × Served ch rch t r answer m s handle w'
  unfolding turn received_stopping received_running counted
  turn-Served true m s handle w e q f =
      let envelope = request handle.id (boxed u t m) handle.receiver in
      let law = lawful.recv_got w.mailbox envelope [] q in
      let w₁ = record w { mailbox = (ch.try_recv w.mailbox).1 } in
      (
        deliver t (replier ch rch t r answer) envelope w₁,
        ap (λ o. received_stopping t (replier ch rch t r answer) w (o, (ch.try_recv w.mailbox).1))
            law.0,
        deliver-Served m s handle w₁ e law.1 f,
      )
  turn-Served false m s handle w e q f =
      let envelope = request handle.id (boxed u t m) handle.receiver in
      let law = lawful.recv_got w.mailbox envelope [] q in
      let w₁ = record w { mailbox = (ch.try_recv w.mailbox).1 } in
      let served = deliver-Served m s handle w₁ e law.1 f in
      (
        counted (deliver t (replier ch rch t r answer) envelope w₁),
        ap (λ o. received_running t (replier ch rch t r answer) w (o, (ch.try_recv w.mailbox).1))
            law.0,
        record { state = served.state; emptied = served.emptied; answered = served.answered },
      )

  -- Over channels that meet their documented laws: a request of type `t` to an idle actor that answers
  -- with type `r` is accepted; one turn of the actor's loop serves it, whether or not the stop flag
  -- is set; then the mailbox is empty again, the actor is in its next state, and
  -- `request_blocking` returns exactly the answer, at its type, with or without a timeout.
  pub request_from-Served :
      (rt : Runtime u ch rch) (target : ActorId) (i : ℕ) (c : ch.Chan)
      → RoutesTo rt target i c
      → ch.receiving c ≡ true
      → ch.queued c ≡ []
      → 0 < ch.capacity c
      → (m : u.El t) (s : S) (stop : Bool) (before : Option ℕ) (reductions : ReductionCounter)
      → let asked = request_from rt target (boxed u t m) in
        (handle : RequestHandle) × (now : ch.Chan) × (w : LoopState ch (S × List rch.Chan))
        × (asked.0 ≡ ok handle)
        × (get_elem? asked.1.mailboxes i ≡ some now)
        × (turn t (replier ch rch t r answer) stop (record {
          actor = (s, asked.1.replies);
          mailbox = now;
          reply_sender = before;
          reductions = reductions;
        })
            ≡ goes_on w)
        × Served ch rch t r answer m s handle w
  request_from-Served rt target i c routes alive idle room m s stop before reductions =
      let asked = request_from rt target (boxed u t m) in
      let handle : RequestHandle = record {
        id = rt.request_counter;
        receiver = length rt.replies;
      } in
      let d =
        request_from-Delivers lawful rt target (boxed u t m) i c routes alive
          (omega (arith, ap length idle, room)) in
      let bounded = lawful_replies.bounded_new 1 in
      let fresh : IsFresh rch asked.1.replies (length rt.replies) = record {
        channel = rch.bounded 1;
        stored =
            ap (λ rs. get_elem? rs (length rt.replies)) d.2
            ∙ get_elem?-end_snoc rt.replies (rch.bounded 1);
        unused = bounded.0;
        one = bounded.1;
        awaited = bounded.2;
      } in
      let w : LoopState ch (S × List rch.Chan) = record {
        actor = (s, asked.1.replies);
        mailbox = d.3.now;
        reply_sender = before;
        reductions = reductions;
      } in
      let (w', went_on, served) =
        turn-Served stop m s handle w refl
          (d.3.appended
            ∙ ap (λ q. q ++ request rt.request_counter (boxed u t m) (length rt.replies) ∷ []) idle)
          fresh in
      (handle, d.3.now, w', d.0, d.3.stored, went_on, served)
