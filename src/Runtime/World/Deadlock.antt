-- ===== src/Runtime/World/Deadlock.antt =====
-- src/actor/context.rs with src/runtime.rs: actors that wait for each other in `send_to` wait for ever,
-- and `spawn` and `shutdown` with them.
use runact.Prelude.{
  ℕ, suc, zero, ◌≡◌, ◌∙◌, ◌||◌, refl, ap, sym, subst, inl, inr, Bool, Bool-cases, true, false,
  Option, none, some, List, [], ◌∷◌, length, get_elem?, set_same, Option-cases, if_true, if_cases,
}
use runact.Any.{Types, Any}
use runact.Channel.{Channels, IsLawful, Sent, sent, full, disconnected}
use runact.Actor.ActorId.{ActorId}
use runact.Actor.Error.{runtime_stopped, RuntimeError, Result, ok, err}
use runact.Supervision.Strategy.{RestartStrategy, ChildSpec}
use runact.Runtime.{
  MessageEnvelope, message, request, Runtime, find_sender, try_send_to, try_send_at, try_sent,
  request_from, begin_shutdown, spawn_supervisor, finish_supervisor, insert_info,
}
use runact.Runtime
use runact.Runtime.Routing.{requesting}
use runact.Runtime.World.{
  Loop, Actors, World, any_sending, is_sending, is_waiting, is_locked, request_to, next_request,
}
use runact.Runtime.World
use runact.Runtime.World.Calls.{
  requested-same, try_send_to-OnlyMailboxes, request_from-OnlyMailboxes, try_blocking-cases,
}
use runact.Runtime.World.Steps.{try_held, worker_turn}
use runact.Runtime.World.Events.{
  Event, spawns, supervises, sends_to, tries_blocking, requests_from, takes_reply, works,
  timer_fires, timer_tries, stops, clears, taken_reply, timer_begins, timer_fire, timer_sent,
  timer_try, clear, step, run,
}
use runact.Runtime.World.Stuck.{
  IsFull, IsStuck, SameGroup, same_group, SameGroup-IsStuck, set_apart, try_held-SameGroup,
}
use runact.Runtime.World.StuckTurns.{worker_act-SameGroup}

or_true : (b : Bool) → (b || true) ≡ true
or_true true = refl
or_true false = refl

module _ {u : Types} {A : Actors u} where
  abbrev sending_at : Option (Loop A) → Bool
  sending_at none = false
  sending_at (some l) = is_sending l.pc

  any_sending-get_elem? :
      (ls : List (Loop A)) (m : ℕ) (l : Loop A)
      → get_elem? ls m ≡ some l
      → is_sending l.pc ≡ true
      → any_sending ls ≡ true
  any_sending-get_elem? [] m l at h = absurd (cc)
  any_sending-get_elem? (x ∷ ls) zero l at h = ap (λ b. b || any_sending ls) (ap sending_at at ∙ h)
  any_sending-get_elem? (x ∷ ls) (suc m) l at h =
      ap (λ b. is_sending x.pc || b) (any_sending-get_elem? ls m l at h) ∙ or_true (is_sending x.pc)

-- The mailboxes of the group are the same.
abbrev SameBoxes :
    {C : Type 0} → (ℕ → Bool) → (ch : Channels C) → List ch.Chan → List ch.Chan → Type 0
SameBoxes D ch boxes boxes' = (m : ℕ) → D m ≡ true → get_elem? boxes' m ≡ get_elem? boxes m

module _ {u : Types} {ch : Channels (MessageEnvelope u)} {rch : Channels (Any u)} (D : ℕ → Bool)
    (lawful : IsLawful ch) where
  try_sent-SameBoxes :
      (rt : Runtime u ch rch) (target : ActorId) (i : ℕ) (p : Sent × ch.Chan)
      → D i ≡ false
      → SameBoxes D ch rt.mailboxes (try_sent rt target i p).1.mailboxes
  unfolding try_sent
  try_sent-SameBoxes rt target i (sent, c) out = set_apart D rt.mailboxes i c out
  try_sent-SameBoxes rt target i (full, c) out = set_apart D rt.mailboxes i c out
  try_sent-SameBoxes rt target i (disconnected, c) out = set_apart D rt.mailboxes i c out

  try_sent-full :
      (rt : Runtime u ch rch) (target : ActorId) (i : ℕ) (c : ch.Chan) (e : MessageEnvelope u)
      → get_elem? rt.mailboxes i ≡ some c
      → ch.try_send c e ≡ (full, c)
      → (try_sent rt target i (ch.try_send c e)).1.mailboxes ≡ rt.mailboxes
  unfolding try_sent
  try_sent-full rt target i c e at f =
      ap (λ p. (try_sent rt target i p).1.mailboxes) f ∙ set_same rt.mailboxes i c at

  try_send_to-SameBoxes :
      (rt : Runtime u ch rch) (target : ActorId) (e : MessageEnvelope u)
      (found : Result ℕ RuntimeError)
      → ((m : ℕ) → D m ≡ true → IsFull ch rt.mailboxes m)
      → SameBoxes D ch rt.mailboxes (try_send_to rt target e found).1.mailboxes
  unfolding try_send_to try_send_at
  try_send_to-SameBoxes rt target e (err x) f = λ m d. refl
  try_send_to-SameBoxes rt target e (ok i) f = elim (Bool-cases (D i)) [
    | inl d ↦
        let x = f i d in
        let same =
          ap (λ o. (try_send_at rt target e i o).1.mailboxes) x.box
          ∙ try_sent-full rt target i x.chan e x.box
              (lawful.send_full x.chan e x.alive x.pos x.over) in
        λ m d. ap (λ boxes. get_elem? boxes m) same
    | inr out ↦ elim (Option-cases (get_elem? rt.mailboxes i)) [
      | inl missing ↦ rw missing (λ m d. refl)
      | inr (c, found) ↦ rw found (try_sent-SameBoxes rt target i (ch.try_send c e) out)
    ]
  ]

module _ {u : Types} {ch : Channels (MessageEnvelope u)} {rch : Channels (Any u)} {A : Actors u}
    (D : ℕ → Bool) (lawful : IsLawful ch) where
  send-SameGroup :
      (w : World ch rch A) (target : ActorId) (m : Any u)
      → IsStuck D w
      → SameGroup D w (World.send w target m)
  unfolding World.send Runtime.send
  send-SameGroup w target m h =
      let found = find_sender w.runtime target in
      record {
        loops = λ k d. refl;
        boxes = try_send_to-SameBoxes D lawful w.runtime target (message m) found h.filled;
        count = refl;
        senders =
            ap (λ rt. rt.senders) (try_send_to-OnlyMailboxes w.runtime target (message m) found);
      }

  request_to-SameGroup :
      (w : World ch rch A) (target : ActorId) (m : Any u)
      → IsStuck D w
      → SameGroup D w (request_to w target m)
  unfolding request_to request_from find_sender
  request_to-SameGroup w target m h =
      let rt = requesting w.runtime in
      let found = find_sender rt target in
      let e = next_request w.runtime m in
      let p = try_send_to rt target e found in
      let same = requested-same w.runtime.request_counter (length w.runtime.replies) p in
      record {
        loops = λ k d. refl;
        boxes = λ k d.
            ap (λ rt. get_elem? rt.mailboxes k) same
            ∙ try_send_to-SameBoxes D lawful rt target e found h.filled k d;
        count = refl;
        senders = ap (λ rt. rt.senders) (request_from-OnlyMailboxes w.runtime target m);
      }

  -- The write lock of `senders` is not free.
  IsStuck-locked : (w : World ch rch A) (m : ℕ) → D m ≡ true → IsStuck D w → is_locked w ≡ true
  unfolding is_locked
  IsStuck-locked w m d h =
      let x = h.waits m d in
      ap (λ b. is_waiting w.timer_sending || b)
        (any_sending-get_elem? w.loops m x.loop x.here (ap is_sending x.stands))
      ∙ or_true (is_waiting w.timer_sending)

  timer_fire-SameGroup :
      (w : World ch rch A) (target : ActorId) (m : Any u) (o : Option (ℕ × MessageEnvelope u))
      → SameGroup D w (timer_fire w target m o)
  unfolding timer_fire timer_begins
  timer_fire-SameGroup w target m none =
      elim (find_sender w.runtime target) as (λ found. SameGroup D w (timer_begins w m found)) [
        | ok i ↦ record { loops = λ k d. refl; boxes = λ k d. refl; count = refl; senders = refl }
        | err e ↦ same_group D w
      ]
  timer_fire-SameGroup w target m (some waiting) = same_group D w

  timer_sent-SameGroup :
      (w : World ch rch A) (p : Option (Result (Unit {0}) RuntimeError) × World ch rch A)
      → SameGroup D w p.1
      → SameGroup D w (timer_sent p)
  unfolding timer_sent
  timer_sent-SameGroup w (none, w') s = s
  timer_sent-SameGroup w (some r, w') s = record {
    loops = s.loops;
    boxes = s.boxes;
    count = s.count;
    senders = s.senders;
  }

  timer_try-SameGroup :
      (w : World ch rch A) (o : Option (ℕ × MessageEnvelope u))
      → IsStuck D w
      → SameGroup D w (timer_try w o)
  unfolding timer_try
  timer_try-SameGroup w none h = same_group D w
  timer_try-SameGroup w (some (i, e)) h =
      timer_sent-SameGroup w (try_held w i e (get_elem? w.runtime.mailboxes i))
        (try_held-SameGroup D lawful w i e h)

  supervisor-SameGroup :
      (w : World ch rch A) (strategy : RestartStrategy) (children : List ChildSpec)
      → SameGroup D w (record w { runtime = (spawn_supervisor w.runtime strategy children).1 })
  unfolding spawn_supervisor finish_supervisor insert_info
  supervisor-SameGroup w strategy children =
      let P : Result ActorId RuntimeError × Runtime u ch rch → Type 0 =
        λ p. SameGroup D w (record w { runtime = p.1 }) in
      let same : P (err runtime_stopped, w.runtime) = same_group D w in
      if_cases P w.runtime.actors_poisoned (λ _. same)
        (λ _.
          if_cases P w.runtime.actors_poisoned (λ _. same)
            (λ _. record {
              loops = λ k d. refl;
              boxes = λ k d. refl;
              count = refl;
              senders = refl;
            }))

  taken_reply-SameGroup :
      (w : World ch rch A) (i : ℕ) (o : Option rch.Chan)
      → SameGroup D w (record w { runtime = taken_reply w.runtime i o })
  unfolding taken_reply
  taken_reply-SameGroup w i none = same_group D w
  taken_reply-SameGroup w i (some c) = record {
    loops = λ k d. refl;
    boxes = λ k d. refl;
    count = refl;
    senders = refl;
  }

  step-SameGroup :
      (w : World ch rch A) (e : Event A) (m : ℕ)
      → D m ≡ true
      → IsStuck D w
      → SameGroup D w (step w e)
  unfolding step World.spawn clear worker_turn begin_shutdown
  step-SameGroup w (spawns k s) m d h =
      subst (SameGroup D w) (sym (if_true _ _ (IsStuck-locked w m d h))) (same_group D w)
  step-SameGroup w (supervises strategy children) m d h = supervisor-SameGroup w strategy children
  step-SameGroup w (sends_to target x) m d h = send-SameGroup w target x h
  step-SameGroup w (tries_blocking target x) m d h = elim (try_blocking-cases w target x) [
    | inl e ↦ subst (SameGroup D w) (sym e) (same_group D w)
    | inr e ↦ subst (SameGroup D w) (sym e) (send-SameGroup w target x h)
  ]
  step-SameGroup w (requests_from target x) m d h = request_to-SameGroup w target x h
  step-SameGroup w (takes_reply i) m d h = taken_reply-SameGroup w i (get_elem? w.runtime.replies i)
  step-SameGroup w (works i answer) m d h =
      worker_act-SameGroup D lawful w i answer (get_elem? w.runtime.scheduler.workers i) h
  step-SameGroup w (timer_fires target x) m d h = timer_fire-SameGroup w target x w.timer_sending
  step-SameGroup w timer_tries m d h = timer_try-SameGroup w w.timer_sending h
  step-SameGroup w stops m d h = record {
    loops = λ k d. refl;
    boxes = λ k d. refl;
    count = refl;
    senders = refl;
  }
  step-SameGroup w clears m d h =
      subst (SameGroup D w) (sym (if_true _ _ (IsStuck-locked w m d h))) (same_group D w)

-- Over channels that meet their documented laws: when each actor of a group has a full mailbox and
-- waits in `send_to` for room in a mailbox of the group (an actor that sends to itself is a group
-- of one), then whatever happens, also a shutdown, each of them is still in that call, each of
-- these mailboxes holds what it held, no actor is ever spawned, the map of senders is never
-- cleared, and its write lock is not free.
pub run-SameGroup :
    {u : Types} {ch : Channels (MessageEnvelope u)} {rch : Channels (Any u)} {A : Actors u}
    (D : ℕ → Bool) (w : World ch rch A) (es : List (Event A)) (m : ℕ)
    → IsLawful ch
    → D m ≡ true
    → IsStuck D w
    → SameGroup D w (run w es) × (is_locked (run w es) ≡ true)
unfolding run
run-SameGroup D w [] m lawful d h = (same_group D w, IsStuck-locked D lawful w m d h)
run-SameGroup D w (e ∷ es) m lawful d h =
    let s = step-SameGroup D lawful w e m d h in
    let (rest, locked) = run-SameGroup D (step w e) es m lawful d (SameGroup-IsStuck D s h) in
    (
      record {
        loops = λ k d. rest.loops k d ∙ s.loops k d;
        boxes = λ k d. rest.boxes k d ∙ s.boxes k d;
        count = rest.count ∙ s.count;
        senders = rest.senders ∙ s.senders;
      },
      locked,
    )
