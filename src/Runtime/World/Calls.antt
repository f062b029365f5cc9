-- ===== src/Runtime/World/Calls.antt =====
-- src/runtime.rs: a call that sends changes nothing of a runtime but its mailboxes, and what a
-- blocking one that returns has done is what one that does not block does.
use runact.Prelude.{
  none, some, Option, List, subst, if_cases, length, ℕ, ◌≡◌, ◌⊎◌, refl, ap, sym, inl, inr,
  get_elem?, Option-cases,
}
use runact.Any.{Types, Any}
use runact.Channel.{Channels, Sent, sent, full, disconnected}
use runact.Actor.ActorId.{ActorId}
use runact.Actor.Error.{RuntimeError, Result, ok, err}
use runact.Runtime.{
  MessageEnvelope, message, request, Runtime, Blocking, returned, waits, find_sender, send,
  request_from, requested, send_blocking, blocking_send_to, blocking_send_at, blocking_sent,
  try_send_to, try_send_at, try_sent,
}
use runact.Runtime.Routing.{requesting}
use runact.Runtime.World.{Actors, World, try_blocking}
use runact.Runtime.World
use runact.Runtime.World.Events.{taken_reply}
use runact.Runtime.{spawn_supervisor, finish_supervisor, insert_info, finish_shutdown}
use runact.Scheduler.WorkStealing.{request_stop}
use runact.Supervision.Strategy.{RestartStrategy, ChildSpec}

module _ {u : Types} {ch : Channels (MessageEnvelope u)} {rch : Channels (Any u)} where
  -- `rt'` is `rt` with other mailboxes.
  abbrev pub OnlyMailboxes : Runtime u ch rch → Runtime u ch rch → Type 0
  OnlyMailboxes rt rt' = rt' ≡ record rt { mailboxes = rt'.mailboxes }

  try_sent-OnlyMailboxes :
      (rt : Runtime u ch rch) (target : ActorId) (i : ℕ) (p : Sent × ch.Chan)
      → OnlyMailboxes rt (try_sent rt target i p).1
  unfolding try_sent
  try_sent-OnlyMailboxes rt target i (sent, c) = refl
  try_sent-OnlyMailboxes rt target i (full, c) = refl
  try_sent-OnlyMailboxes rt target i (disconnected, c) = refl

  pub try_send_to-OnlyMailboxes :
      (rt : Runtime u ch rch) (target : ActorId) (e : MessageEnvelope u)
      (found : Result ℕ RuntimeError)
      → OnlyMailboxes rt (try_send_to rt target e found).1
  unfolding try_send_to try_send_at
  try_send_to-OnlyMailboxes rt target e (err x) = refl
  try_send_to-OnlyMailboxes rt target e (ok i) = elim (Option-cases (get_elem? rt.mailboxes i)) [
    | inl missing ↦ rw missing refl
    | inr (c, found) ↦ rw found (try_sent-OnlyMailboxes rt target i (ch.try_send c e))
  ]

  pub requested-same :
      (i j : ℕ) (p : Result (Unit {0}) RuntimeError × Runtime u ch rch) → (requested i j p).1 ≡ p.1
  unfolding requested
  requested-same i j (ok _, rt) = refl
  requested-same i j (err e, rt) = refl

  pub request_from-OnlyMailboxes :
      (rt : Runtime u ch rch) (target : ActorId) (m : Any u)
      → OnlyMailboxes (requesting rt) (request_from rt target m).1
  unfolding request_from
  request_from-OnlyMailboxes rt target m =
      let e = request rt.request_counter m (length rt.replies) in
      let p = try_send_to (requesting rt) target e (find_sender (requesting rt) target) in
      subst (OnlyMailboxes (requesting rt))
        (sym (requested-same rt.request_counter (length rt.replies) p))
        (try_send_to-OnlyMailboxes (requesting rt) target e (find_sender (requesting rt) target))

  BlocksOr : Result (Unit {0}) RuntimeError × Runtime u ch rch → Blocking u ch rch → Type 0
  BlocksOr p b = (b ≡ waits) ⊎ (b ≡ returned p.0 p.1)

  blocking_sent-BlocksOr :
      (rt : Runtime u ch rch) (target : ActorId) (i : ℕ) (p : Sent × ch.Chan)
      → BlocksOr (try_sent rt target i p) (blocking_sent rt i p)
  unfolding try_sent blocking_sent BlocksOr
  blocking_sent-BlocksOr rt target i (sent, c) = inr refl
  blocking_sent-BlocksOr rt target i (full, c) = inl refl
  blocking_sent-BlocksOr rt target i (disconnected, c) = inr refl

  blocking_send_to-BlocksOr :
      (rt : Runtime u ch rch) (target : ActorId) (e : MessageEnvelope u)
      (found : Result ℕ RuntimeError)
      → BlocksOr (try_send_to rt target e found) (blocking_send_to rt e found)
  unfolding try_send_to try_send_at blocking_send_to blocking_send_at BlocksOr
  blocking_send_to-BlocksOr rt target e (err x) = inr refl
  blocking_send_to-BlocksOr rt target e (ok i) = elim (Option-cases (get_elem? rt.mailboxes i)) [
    | inl missing ↦ rw missing (inr refl)
    | inr (c, found) ↦ rw found (blocking_sent-BlocksOr rt target i (ch.try_send c e))
  ]

module _ {u : Types} {ch : Channels (MessageEnvelope u)} {rch : Channels (Any u)}
    {A : Actors u} where
  -- One try of `send_blocking` waits, or does what `send` does.
  pub try_blocking-cases :
      (w : World ch rch A) (target : ActorId) (m : Any u)
      → (try_blocking w target m ≡ w) ⊎ (try_blocking w target m ≡ World.send w target m)
  unfolding try_blocking World.send send send_blocking World.blocking_sent BlocksOr
  try_blocking-cases w target m =
      let found = find_sender w.runtime target in
      elim (blocking_send_to-BlocksOr w.runtime target (message m) found) [
        | inl e ↦ inl (ap (World.blocking_sent w target m) e)
        | inr e ↦ inr (ap (World.blocking_sent w target m) e)
      ]

module _ {u : Types} {ch : Channels (MessageEnvelope u)} {rch : Channels (Any u)} where
  -- A runtime with the same mailboxes, whose scheduler is the same or has been stopped.
  pub record SameWork (rt rt' : Runtime u ch rch) : Type 0 where
    pub capacity : rt'.mailbox_capacity ≡ rt.mailbox_capacity
    pub mailboxes : rt'.mailboxes ≡ rt.mailboxes
    pub stop : rt'.stop ≡ rt.stop
    pub scheduler : (rt'.scheduler ≡ rt.scheduler) ⊎ (rt'.scheduler ≡ request_stop rt.scheduler)

  pub supervisor-SameWork :
      (rt : Runtime u ch rch) (strategy : RestartStrategy) (children : List ChildSpec)
      → SameWork rt (spawn_supervisor rt strategy children).1
  unfolding spawn_supervisor finish_supervisor insert_info
  supervisor-SameWork rt strategy children =
      let P : Result ActorId RuntimeError × Runtime u ch rch → Type 0 = λ p. SameWork rt p.1 in
      let same : SameWork rt rt = record {
        capacity = refl;
        mailboxes = refl;
        stop = refl;
        scheduler = inl refl;
      } in
      if_cases P rt.actors_poisoned (λ _. same)
        (λ _.
          if_cases P rt.actors_poisoned (λ _. same)
            (λ _. record { capacity = refl; mailboxes = refl; stop = refl; scheduler = inl refl }))

  pub finish_shutdown-SameWork : (rt : Runtime u ch rch) → SameWork rt (finish_shutdown rt).1
  unfolding finish_shutdown request_stop
  finish_shutdown-SameWork rt =
      let P : Result (Unit {0}) RuntimeError × Runtime u ch rch → Type 0 = λ p. SameWork rt p.1 in
      if_cases P rt.senders_poisoned
        (λ _. record { capacity = refl; mailboxes = refl; stop = refl; scheduler = inl refl })
        (λ _.
          if_cases P rt.actors_poisoned
            (λ _. record { capacity = refl; mailboxes = refl; stop = refl; scheduler = inl refl })
            (λ _. record { capacity = refl; mailboxes = refl; stop = refl; scheduler = inr refl }))

  pub taken_reply-SameWork :
      (rt : Runtime u ch rch) (i : ℕ) (o : Option rch.Chan) → SameWork rt (taken_reply rt i o)
  unfolding taken_reply
  taken_reply-SameWork rt i none = record {
    capacity = refl;
    mailboxes = refl;
    stop = refl;
    scheduler = inl refl;
  }
  taken_reply-SameWork rt i (some c) = record {
    capacity = refl;
    mailboxes = refl;
    stop = refl;
    scheduler = inl refl;
  }
