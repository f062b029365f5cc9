-- ===== src/Runtime/Counted.antt =====
-- src/runtime.rs: the map of actors, in every order of events: which ids are taken, and how many.
use runact.Prelude.{
  ◌++◌, set, Option, get_elem?, ℕ, suc, ◌+◌, ◌<◌, ◌≤◌, ◌%◌, ◌^◌, ◌≡◌, refl, false, none, some, List,
  [], ◌∷◌, length, arith,
}
use runact.Prelude.HashMap.{HashMap, lookup, insert, lookup-insert, length-insert_new}
use runact.Any.{Types, Any}
use runact.Channel.{Sent, sent, full, disconnected, Channels}
use runact.Actor.ActorId.{ActorId}
use runact.Actor.Error.{RuntimeError, Result, ok, err}
use runact.Runtime.{
  request, find_sender, message, MessageEnvelope, Runtime, try_sent, try_send_at, try_send_to, send,
  request_from, requested,
}
use runact.Runtime.Events.{on_mailbox}

-- Every id in use is at most the number of entries.
unfoldable pub IsNumbered {ℓ} : {V : Type ℓ} → HashMap V → Type ℓ
IsNumbered m = (k : ℕ) → length m < k → lookup k m ≡ none

pub insert-IsNumbered {ℓ} :
    {V : Type ℓ} (m : HashMap V) (i : ℕ) (v : V)
    → i ≡ length m + 1
    → IsNumbered m
    → IsNumbered (insert i v m)
unfolding IsNumbered
insert-IsNumbered m i v e h k above =
    ground (arith, e, lookup-insert i k v m, h k, length-insert_new i v m, h i)

pub length-insert_fresh {ℓ} :
    {V : Type ℓ} (m : HashMap V) (i : ℕ) (v : V)
    → i ≡ length m + 1
    → IsNumbered m
    → length (insert i v m) ≡ suc (length m)
unfolding IsNumbered
length-insert_fresh m i v e h = length-insert_new i v m (h i (omega (arith, e)))

-- No entry is lost, and each event adds one at most.
pub record IsCounted {u : Types} {ch : Channels (MessageEnvelope u)} {rch : Channels (Any u)}
    (n : ℕ) (rt : Runtime u ch rch) : Type 0 where
  pub numbered : IsNumbered rt.actors
  pub routed : (k : ℕ) → length rt.actors < k → lookup k rt.senders ≡ none
  pub bounded : length rt.actors ≤ n
  pub actors_ok : rt.actors_poisoned ≡ false
  pub senders_ok : rt.senders_poisoned ≡ false

module _ {u : Types} {ch : Channels (MessageEnvelope u)} {rch : Channels (Any u)} where
  -- Two runtimes with the same actors and the same locks.
  pub record SameActors (rt rt' : Runtime u ch rch) : Type 0 where
    pub same_actors : rt'.actors ≡ rt.actors
    pub same_senders : rt'.senders ≡ rt.senders
    pub same_actors_poisoned : rt'.actors_poisoned ≡ rt.actors_poisoned
    pub same_senders_poisoned : rt'.senders_poisoned ≡ rt.senders_poisoned

  unchanged : (rt : Runtime u ch rch) → SameActors rt rt
  unchanged rt = record {
    same_actors = refl;
    same_senders = refl;
    same_actors_poisoned = refl;
    same_senders_poisoned = refl;
  }

  after_mailboxes :
      (rt : Runtime u ch rch) (boxes : List ch.Chan)
      → SameActors rt (record rt { mailboxes = boxes })
  after_mailboxes rt boxes = record {
    same_actors = refl;
    same_senders = refl;
    same_actors_poisoned = refl;
    same_senders_poisoned = refl;
  }

  pub SameActors-IsCounted :
      {n : ℕ} {rt rt' : Runtime u ch rch}
      → SameActors rt rt'
      → IsCounted n rt
      → IsCounted (suc n) rt'
  unfolding IsNumbered
  SameActors-IsCounted s c = record {
    numbered = rw s.same_actors c.numbered;
    routed = rw (s.same_actors, s.same_senders) c.routed;
    bounded = rw s.same_actors (omega (arith, c.bounded));
    actors_ok = cc (s.same_actors_poisoned, c.actors_ok);
    senders_ok = cc (s.same_senders_poisoned, c.senders_ok);
  }

  module _ (rt : Runtime u ch rch) where
    try_sent-SameActors :
        (target : ActorId) (i : ℕ) (p : Sent × ch.Chan) → SameActors rt (try_sent rt target i p).1
    unfolding try_sent
    try_sent-SameActors target i (sent, c) = after_mailboxes rt (set rt.mailboxes i c)
    try_sent-SameActors target i (full, c) = after_mailboxes rt (set rt.mailboxes i c)
    try_sent-SameActors target i (disconnected, c) = after_mailboxes rt (set rt.mailboxes i c)

    try_send_at-SameActors :
        (target : ActorId) (e : MessageEnvelope u) (i : ℕ) (c : Option ch.Chan)
        → SameActors rt (try_send_at rt target e i c).1
    unfolding try_send_at
    try_send_at-SameActors target e i none = unchanged rt
    try_send_at-SameActors target e i (some c) = try_sent-SameActors target i (ch.try_send c e)

    try_send_to-SameActors :
        (target : ActorId) (e : MessageEnvelope u) (found : Result ℕ RuntimeError)
        → SameActors rt (try_send_to rt target e found).1
    unfolding try_send_to
    try_send_to-SameActors target e (ok i) =
        try_send_at-SameActors target e i (get_elem? rt.mailboxes i)
    try_send_to-SameActors target e (err x) = unchanged rt

    pub on_mailbox-SameActors :
        (f : ch.Chan → ch.Chan) (i : ℕ) (c : Option ch.Chan) → SameActors rt (on_mailbox f rt i c)
    unfolding on_mailbox
    on_mailbox-SameActors f i none = unchanged rt
    on_mailbox-SameActors f i (some c) = after_mailboxes rt (set rt.mailboxes i (f c))

    pub send-SameActors : (target : ActorId) (m : Any u) → SameActors rt (send rt target m).1
    unfolding send
    send-SameActors target m = try_send_to-SameActors target (message m) (find_sender rt target)

  requested-SameActors :
      (rt : Runtime u ch rch) (i j : ℕ) (p : Result (Unit {0}) RuntimeError × Runtime u ch rch)
      → SameActors rt p.1
      → SameActors rt (requested i j p).1
  unfolding requested
  requested-SameActors rt i j (ok _, rt') s = s
  requested-SameActors rt i j (err e, rt') s = s

  pub request_from-SameActors :
      (rt : Runtime u ch rch) (target : ActorId) (m : Any u)
      → SameActors rt (request_from rt target m).1
  unfolding request_from
  request_from-SameActors rt target m =
      let rt' = record rt {
        request_counter = (rt.request_counter + 1) % 2 ^ 64;
        replies = rt.replies ++ rch.bounded 1 ∷ [];
      } in
      let e = request rt.request_counter m (length rt.replies) in
      let found = find_sender rt' target in
      let s = try_send_to-SameActors rt' target e found in
      requested-SameActors rt rt.request_counter (length rt.replies)
        (try_send_to rt' target e found)
        (record {
          same_actors = s.same_actors;
          same_senders = s.same_senders;
          same_actors_poisoned = s.same_actors_poisoned;
          same_senders_poisoned = s.same_senders_poisoned;
        })
