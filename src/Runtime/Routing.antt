-- ===== src/Runtime/Routing.antt =====
-- src/runtime.rs: what `send`, `request` and the lookup of a sender do on every branch, over any
-- channels that meet the laws of the interface.
use runact.Prelude.{
  set_same, get_elem?-lt, subst, ℕ, ◌+◌, ◌<◌, ◌≤◌, ◌%◌, ◌^◌, ◌≡◌, ◌≢◌, refl, ap, sym, ◌∙◌, true,
  false, none, some, [], ◌∷◌, ◌++◌, length, get_elem?, get_elem?-set_self, get_elem?-set_ne,
  if_false, if_true,
}
use runact.Prelude.HashMap.{lookup}
use runact.Any.{Types, Any}
use runact.Channel.{Sent, Channels, IsLawful, SameEnds, sent, full, disconnected}
use runact.Actor.ActorId.{ActorId}
use runact.Actor.Error.{
  RuntimeError, actor_not_found, mailbox_full, runtime_stopped, Result, ok, err,
}
use runact.Runtime.{
  MessageEnvelope, message, request, Runtime, with_mailbox, found_sender, find_sender, try_sent,
  try_send_at, try_send_to, send, request_from, requested,
}

module _ {u : Types} {ch : Channels (MessageEnvelope u)} {rch : Channels (Any u)}
    (rt : Runtime u ch rch) (target : ActorId) where
  -- The mailbox of `target` stands at `i`, and is `c`.
  pub record RoutesTo (i : ℕ) (c : ch.Chan) : Type 0 where
    pub unpoisoned : rt.senders_poisoned ≡ false
    pub routed : lookup target.raw rt.senders ≡ some i
    pub opened : get_elem? rt.mailboxes i ≡ some c

  -- Why a message to `target` is refused, and the error that says so.
  pub data Refuses : RuntimeError → Type 0 where
    poisoned : rt.senders_poisoned ≡ true → Refuses runtime_stopped
    unknown :
        rt.senders_poisoned ≡ false
        → lookup target.raw rt.senders ≡ none
        → Refuses (actor_not_found target)
    at_capacity :
        (i : ℕ) (c : ch.Chan)
        → RoutesTo i c
        → ch.receiving c ≡ true
        → 0 < ch.capacity c
        → ch.capacity c ≤ length (ch.queued c)
        → Refuses (mailbox_full target)
    receiver_gone :
        (i : ℕ) (c : ch.Chan) → RoutesTo i c → ch.receiving c ≡ false → Refuses runtime_stopped

module _ {u : Types} {ch : Channels (MessageEnvelope u)} {rch : Channels (Any u)}
    (rt : Runtime u ch rch) where
  -- What a message to a mailbox with room does to the store.
  pub record Delivers (i : ℕ) (c : ch.Chan) (e : MessageEnvelope u) (rt' : Runtime u ch rch)
      : Type 0 where
    pub now : ch.Chan
    pub stored : get_elem? rt'.mailboxes i ≡ some now
    pub appended : ch.queued now ≡ ch.queued c ++ e ∷ []
    pub same_ends : SameEnds ch c now
    pub others : (j : ℕ) → i ≢ j → get_elem? rt'.mailboxes j ≡ get_elem? rt.mailboxes j
    pub only_mailboxes : rt' ≡ record rt { mailboxes = rt'.mailboxes }

module _ {u : Types} {ch : Channels (MessageEnvelope u)} {rch : Channels (Any u)}
    (lawful : IsLawful ch) (rt : Runtime u ch rch) (target : ActorId) where
  find_sender-routed : {i : ℕ} {c : ch.Chan} → RoutesTo rt target i c → find_sender rt target ≡ ok i
  unfolding find_sender found_sender
  find_sender-routed r = if_false _ _ r.unpoisoned ∙ ap (found_sender target) r.routed

  try_send_routed :
      {i : ℕ} {c : ch.Chan} (e : MessageEnvelope u)
      → RoutesTo rt target i c
      → try_send_to rt target e (find_sender rt target) ≡ try_sent rt target i (ch.try_send c e)
  unfolding try_send_to try_send_at
  try_send_routed {i = i} e r =
      ap (try_send_to rt target e) (find_sender-routed r) ∙ ap (try_send_at rt target e i) r.opened

  abbrev answered :
      Result (Unit {0}) RuntimeError
      → Runtime u ch rch
      → Result (Unit {0}) RuntimeError × Runtime u ch rch
  answered x rt' = (x, rt')

  returned_to :
      {i : ℕ} {c : ch.Chan} (x : RuntimeError)
      → RoutesTo rt target i c
      → answered (err x) (with_mailbox rt i c) ≡ answered (err x) rt
  returned_to {i = i} {c = c} x r =
      ap (λ boxes. answered (err x) (record rt { mailboxes = boxes }))
        (set_same rt.mailboxes i c r.opened)

  try_send_to-refused :
      (e : MessageEnvelope u) (x : RuntimeError)
      → Refuses rt target x
      → try_send_to rt target e (find_sender rt target) ≡ (err x, rt)
  unfolding try_send_to try_sent find_sender found_sender
  try_send_to-refused e x (poisoned h) = ap (try_send_to rt target e) (if_true _ _ h)
  try_send_to-refused e x (unknown h h') =
      ap (try_send_to rt target e) (if_false _ _ h ∙ ap (found_sender target) h')
  try_send_to-refused e x (at_capacity i c r alive pos over) =
      try_send_routed e r
      ∙ ap (try_sent rt target i) (lawful.send_full c e alive pos over)
      ∙ returned_to x r
  try_send_to-refused e x (receiver_gone i c r gone) =
      try_send_routed e r ∙ ap (try_sent rt target i) (lawful.send_gone c e gone) ∙ returned_to x r

  try_sent_ok :
      (i : ℕ) (p : Sent × ch.Chan)
      → p.0 ≡ sent
      → try_sent rt target i p ≡ (ok tt, with_mailbox rt i p.1)
  unfolding try_sent
  try_sent_ok i (sent, c) h = refl
  try_sent_ok i (full, c) h = absurd (cc)
  try_sent_ok i (disconnected, c) h = absurd (cc)

  try_send_to-Delivers :
      (e : MessageEnvelope u) (i : ℕ) (c : ch.Chan)
      → RoutesTo rt target i c
      → ch.receiving c ≡ true
      → length (ch.queued c) < ch.capacity c
      → let r = try_send_to rt target e (find_sender rt target) in
        (r.0 ≡ ok tt) × Delivers rt i c e r.1
  try_send_to-Delivers e i c r alive room =
      let law = lawful.send_room c e alive room in
      let done = try_send_routed e r ∙ try_sent_ok i (ch.try_send c e) law.0 in
      let now = (ch.try_send c e).1 in
      (
        ap (λ p. p.0) done,
        record {
          now = now;
          stored =
              ap (λ p. get_elem? p.1.mailboxes i) done
              ∙ get_elem?-set_self rt.mailboxes i now (get_elem?-lt rt.mailboxes i r.opened);
          appended = law.1;
          same_ends = law.2;
          only_mailboxes =
              ap (λ p. p.1) done ∙ sym (ap (λ p. record rt { mailboxes = p.1.mailboxes }) done);
          others = λ j ne.
              ap (λ p. get_elem? p.1.mailboxes j) done ∙ get_elem?-set_ne rt.mailboxes now ne;
        },
      )

module _ {u : Types} {ch : Channels (MessageEnvelope u)} {rch : Channels (Any u)} where
  -- `request` before it looks the target up.
  abbrev pub requesting : Runtime u ch rch → Runtime u ch rch
  requesting rt = record rt {
    request_counter = (rt.request_counter + 1) % 2 ^ 64;
    replies = rt.replies ++ rch.bounded 1 ∷ [];
  }

  requesting-RoutesTo :
      {rt : Runtime u ch rch} {target : ActorId} {i : ℕ} {c : ch.Chan}
      → RoutesTo rt target i c
      → RoutesTo (requesting rt) target i c
  requesting-RoutesTo r = record { unpoisoned = r.unpoisoned; routed = r.routed; opened = r.opened }

  requesting-Refuses :
      {rt : Runtime u ch rch} {target : ActorId} {x : RuntimeError}
      → Refuses rt target x
      → Refuses (requesting rt) target x
  requesting-Refuses (poisoned h) = poisoned h
  requesting-Refuses (unknown h h') = unknown h h'
  requesting-Refuses (at_capacity i c r alive pos over) =
      at_capacity i c (requesting-RoutesTo r) alive pos over
  requesting-Refuses (receiver_gone i c r gone) = receiver_gone i c (requesting-RoutesTo r) gone

  requested_ok :
      (i j : ℕ) (p : Result (Unit {0}) RuntimeError × Runtime u ch rch)
      → p.0 ≡ ok tt
      → requested i j p ≡ (ok (record { id = i; receiver = j }), p.1)
  unfolding requested
  requested_ok i j (ok _, rt') h = refl
  requested_ok i j (err x, rt') h = absurd (cc)

  -- Over channels that meet their documented laws: a `send` to an actor whose mailbox has room and
  -- whose loop still receives succeeds; the message stands last in that mailbox, behind what was
  -- queued, and no other mailbox changes.
  pub send-Delivers :
      IsLawful ch
      → (rt : Runtime u ch rch) (target : ActorId) (m : Any u) (i : ℕ) (c : ch.Chan)
      → RoutesTo rt target i c
      → ch.receiving c ≡ true
      → length (ch.queued c) < ch.capacity c
      → ((send rt target m).0 ≡ ok tt) × Delivers rt i c (message m) (send rt target m).1
  unfolding send
  send-Delivers lawful rt target m i c r alive room =
      try_send_to-Delivers lawful rt target (message m) i c r alive room

  -- For an unknown id, a mailbox at its capacity, a receiver that is gone and a poisoned lock: `send`
  -- returns the error of that reason and leaves the runtime exactly as it was; `request` returns the
  -- same error, and the runtime differs from the one before in two places only: the request counter
  -- has gone up by one, and there is one more reply channel, which is new. So no mailbox changes.
  pub send-refused :
      IsLawful ch
      → (rt : Runtime u ch rch) (target : ActorId) (m : Any u) (x : RuntimeError)
      → Refuses rt target x
      → (send rt target m ≡ (err x, rt))
        × (request_from rt target m ≡ (
          err x,
          record rt {
            request_counter = (rt.request_counter + 1) % 2 ^ 64;
            replies = rt.replies ++ rch.bounded 1 ∷ [];
          },
        ))
  unfolding send request_from requested
  send-refused lawful rt target m x why =
      let e = request rt.request_counter m (length rt.replies) in
      (
        try_send_to-refused lawful rt target (message m) x why,
        ap (requested rt.request_counter (length rt.replies))
            (try_send_to-refused lawful (requesting rt) target e x (requesting-Refuses why)),
      )

  -- A `request` to an actor whose mailbox has room and whose loop still receives succeeds: the handle
  -- carries the value of the counter, which goes up by one, and the address of a reply channel that
  -- is new; the envelope with that id and that address stands last in the mailbox.
  pub request_from-Delivers :
      IsLawful ch
      → (rt : Runtime u ch rch) (target : ActorId) (m : Any u) (i : ℕ) (c : ch.Chan)
      → RoutesTo rt target i c
      → ch.receiving c ≡ true
      → length (ch.queued c) < ch.capacity c
      → let r = request_from rt target m in
        let reply = length rt.replies in
        (r.0 ≡ ok (record { id = rt.request_counter; receiver = reply }))
        × (r.1.request_counter ≡ (rt.request_counter + 1) % 2 ^ 64)
        × (r.1.replies ≡ rt.replies ++ rch.bounded 1 ∷ [])
        × Delivers (requesting rt) i c (request rt.request_counter m reply) r.1
  unfolding request_from requested
  request_from-Delivers lawful rt target m i c r alive room =
      let reply = length rt.replies in
      let e = request rt.request_counter m reply in
      let d =
        try_send_to-Delivers lawful (requesting rt) target e i c (requesting-RoutesTo r) alive
          room in
      let done = requested_ok rt.request_counter reply _ d.0 in
      (
        ap (λ p. p.0) done,
        ap (λ p. p.1.request_counter) done ∙ ap (λ rt'. rt'.request_counter) d.1.only_mailboxes,
        ap (λ p. p.1.replies) done ∙ ap (λ rt'. rt'.replies) d.1.only_mailboxes,
        subst (λ p. Delivers (requesting rt) i c e p.1) (sym done) d.1,
      )
