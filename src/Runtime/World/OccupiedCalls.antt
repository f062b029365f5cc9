-- ===== src/Runtime/World/OccupiedCalls.antt =====
-- src/runtime.rs: sends and requests let no worker go.
use runact.Prelude.{
  ℕ, ◌<◌, ◌∙◌, ap, sym, subst, inl, inr, List, [], ◌∷◌, ◌++◌, length, get_elem?, All, All-set,
  All-get_elem?, Holds-some, Option-cases, arith,
}
use runact.Any.{Types, Any}
use runact.Channel.{Channels, IsLawful, Sent, sent, full, disconnected}
use runact.Actor.ActorId.{ActorId}
use runact.Actor.Error.{RuntimeError, Result, ok, err}
use runact.Scheduler.WorkStealing.{Scheduler}
use runact.Runtime.{
  MessageEnvelope, message, request, ActorTask, Runtime, RuntimeConfig, with_config, find_sender,
  try_send_to, try_send_at, try_sent, request_from, open_mailbox, insert_info, next_id,
}
use runact.Runtime
use runact.Runtime.Routing.{requesting}
use runact.Runtime.World.{
  Loop, Actors, World, Mail, logged, is_locked, spawned_loop, request_to, next_request,
}
use runact.Runtime.World
use runact.Runtime.World.Calls.{
  requested-same, try_send_to-OnlyMailboxes, request_from-OnlyMailboxes,
}
use runact.Runtime.World.Occupied.{Held, modify-Held, IsOccupied}

abbrev pub HasSender : {u : Types} (ch : Channels (MessageEnvelope u)) → ch.Chan → Type 0
HasSender ch c = 0 < ch.senders c

module _ {u : Types} where
  logged-Held :
      {X : Type 0} (found : Result ℕ RuntimeError) (r : Result X RuntimeError)
      (e : MessageEnvelope u) (mail : List (Mail u)) (s : Scheduler ActorTask)
      → Held mail s
      → Held (logged found r e mail) s
  logged-Held (ok i) (ok x) e mail s h =
      modify-Held mail s i (λ x. record x { accepted = x.accepted ++ e ∷ [] }) (λ x. omega arith) h
  logged-Held (ok i) (err x) e mail s h = h
  logged-Held (err x) r e mail s h = h

module _ {u : Types} {ch : Channels (MessageEnvelope u)} {rch : Channels (Any u)}
    (lawful : IsLawful ch) where
  try_sent-HasSender :
      (rt : Runtime u ch rch) (target : ActorId) (i : ℕ) (p : Sent × ch.Chan)
      → HasSender ch p.1
      → All (HasSender ch) rt.mailboxes
      → All (HasSender ch) (try_sent rt target i p).1.mailboxes
  unfolding try_sent
  try_sent-HasSender rt target i (sent, c) pos h = All-set (HasSender ch) rt.mailboxes i h pos
  try_sent-HasSender rt target i (full, c) pos h = All-set (HasSender ch) rt.mailboxes i h pos
  try_sent-HasSender rt target i (disconnected, c) pos h =
      All-set (HasSender ch) rt.mailboxes i h pos

  try_send_to-HasSender :
      (rt : Runtime u ch rch) (target : ActorId) (e : MessageEnvelope u)
      (found : Result ℕ RuntimeError)
      → All (HasSender ch) rt.mailboxes
      → All (HasSender ch) (try_send_to rt target e found).1.mailboxes
  unfolding try_send_to try_send_at
  try_send_to-HasSender rt target e (err x) h = h
  try_send_to-HasSender rt target e (ok i) h = elim (Option-cases (get_elem? rt.mailboxes i)) [
    | inl missing ↦ rw missing h
    | inr (c, found) ↦ rw found (
        try_sent-HasSender rt target i (ch.try_send c e)
          (omega (
            arith,
            (lawful.send_same c e).same_senders,
            Holds-some (HasSender ch) found (All-get_elem? (HasSender ch) rt.mailboxes i h),
          ))
          h)
  ]

module _ {u : Types} {ch : Channels (MessageEnvelope u)} {rch : Channels (Any u)} {A : Actors u}
    (lawful : IsLawful ch) where
  pub send-IsOccupied :
      (w : World ch rch A) (target : ActorId) (m : Any u)
      → IsOccupied w
      → IsOccupied (World.send w target m)
  unfolding World.send Runtime.send
  send-IsOccupied w target m h =
      let found = find_sender w.runtime target in
      let e = message m in
      let p = try_send_to w.runtime target e found in
      let only = try_send_to-OnlyMailboxes w.runtime target e found in
      record {
        on = ap (λ rt. rt.stop) only ∙ h.on;
        going = h.going;
        senders = try_send_to-HasSender lawful w.runtime target e found h.senders;
        held =
            subst (Held (logged found p.0 e w.mail)) (sym (ap (λ rt. rt.scheduler) only))
              (logged-Held found p.0 e w.mail w.runtime.scheduler h.held);
      }

  pub request_to-IsOccupied :
      (w : World ch rch A) (target : ActorId) (m : Any u)
      → IsOccupied w
      → IsOccupied (request_to w target m)
  unfolding request_to request_from find_sender
  request_to-IsOccupied w target m h =
      let rt = requesting w.runtime in
      let found = find_sender rt target in
      let e = next_request w.runtime m in
      let p = try_send_to rt target e found in
      let only = request_from-OnlyMailboxes w.runtime target m in
      let same = requested-same w.runtime.request_counter (length w.runtime.replies) p in
      let r = request_from w.runtime target m in
      record {
        on = ap (λ rt. rt.stop) only ∙ h.on;
        going = h.going;
        senders =
            subst (λ rt. All (HasSender ch) rt.mailboxes) (sym same)
              (try_send_to-HasSender lawful rt target e found h.senders);
        held =
            subst (Held (logged found r.0 e w.mail)) (sym (ap (λ rt. rt.scheduler) only))
              (logged-Held found r.0 e w.mail w.runtime.scheduler h.held);
      }
