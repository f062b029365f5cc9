-- ===== src/Runtime/World/Accounts.antt =====
-- src/runtime.rs: what one access to a mailbox does to the account of its messages.
use runact.Prelude.{
  ℕ, ◌<◌, ◌≤◌, length, length-append, ◌≡◌, ◌∙◌, refl, ap, sym, subst, inl, inr, true, false, some,
  List, [], ◌∷◌, ◌++◌, append_assoc, append-nil, get_elem?, set_same, Both, Both-set,
  Both-get_elem?, Option-cases, Bool-cases, arith,
}
use runact.Any.{Types, Any}
use runact.Channel.{Channels, IsLawful, SameEnds, Sent}
use runact.Channel.Outcome.{Outcome, enters, no_room, gone, try_send-Outcome}
use runact.Actor.ActorId.{ActorId}
use runact.Actor.Error.{RuntimeError, Result, ok, err}
use runact.Runtime.{MessageEnvelope, Runtime, try_sent, try_send_at, try_send_to, requested}
use runact.Runtime.World.{Mail, logged}

-- The account of a mailbox made for `n` messages: all that it accepted has been taken by its loop, or
-- was dropped with the receiver, or is queued, in this order; and nothing has been dropped while
-- the receiver is there.
pub record Accounts {u : Types} (ch : Channels (MessageEnvelope u)) (n : ℕ) (c : ch.Chan)
    (x : Mail u) : Type 0 where
  pub capacity : ch.capacity c ≡ n
  pub kept : x.accepted ≡ x.handled ++ x.lost ++ ch.queued c
  pub none_lost : ch.receiving c ≡ true → x.lost ≡ []
  pub shut_empty : ch.receiving c ≡ false → ch.queued c ≡ []

-- With the bound on what is queued.
pub record Holds {u : Types} (ch : Channels (MessageEnvelope u)) (n : ℕ) (c : ch.Chan) (x : Mail u)
    : Type 0 where
  pub accounts : Accounts ch n c x
  pub held : length (ch.queued c) ≤ n

module _ {u : Types} {ch : Channels (MessageEnvelope u)} (lawful : IsLawful ch) {n : ℕ}
    (pos : 0 < n) where
  abbrev pub Kept : List ch.Chan → List (Mail u) → Type 0
  Kept boxes mail = Both (Holds ch n) boxes mail

  -- An envelope that enters the channel is accepted.
  pub enters-Holds :
      (c c' : ch.Chan) (e : MessageEnvelope u)
      → ch.receiving c ≡ true
      → length (ch.queued c) < ch.capacity c
      → ch.queued c' ≡ ch.queued c ++ e ∷ []
      → SameEnds ch c c'
      → (x : Mail u) → Holds ch n c x
      → Holds ch n c' (record x { accepted = x.accepted ++ e ∷ [] })
  enters-Holds c c' e alive room adds ends x b =
      let a = b.accounts in
      record {
        accounts = record {
          capacity = ends.same_capacity ∙ a.capacity;
          kept =
              ap (λ l. l ++ e ∷ []) a.kept
              ∙ append_assoc (x.handled ++ x.lost) (ch.queued c) (e ∷ [])
              ∙ ap (λ l. x.handled ++ x.lost ++ l) (sym adds);
          none_lost = λ _. a.none_lost alive;
          shut_empty = λ shut. absurd (cc (shut, alive, ends.same_receiver));
        };
        held =
            omega (arith, room, a.capacity, ap length adds, length-append (ch.queued c) (e ∷ []));
      }

  alive_front :
      (c : ch.Chan) (e : MessageEnvelope u) (rest : List (MessageEnvelope u))
      → ch.queued c ≡ e ∷ rest
      → (x : Mail u) → Holds ch n c x
      → ch.receiving c ≡ true
  alive_front c e rest front x b =
      let a = b.accounts in
      elim (Bool-cases (ch.receiving c)) [
        | inl alive ↦ alive
        | inr shut ↦ absurd (cc (a.shut_empty shut, front))
      ]

  -- What the loop takes comes from the front.
  pub got-Holds :
      (c c' : ch.Chan) (e : MessageEnvelope u) (rest : List (MessageEnvelope u))
      → ch.queued c ≡ e ∷ rest
      → ch.queued c' ≡ rest
      → SameEnds ch c c'
      → (x : Mail u) → Holds ch n c x
      → Holds ch n c' (record x { handled = x.handled ++ e ∷ [] })
  got-Holds c c' e rest front left ends x b =
      let a = b.accounts in
      let alive = alive_front c e rest front x b in
      let nothing = a.none_lost alive in
      record {
        accounts = record {
          capacity = ends.same_capacity ∙ a.capacity;
          kept =
              a.kept
              ∙ rw (nothing, front, left, append-nil x.handled, append-nil (x.handled ++ e ∷ []))
                  (sym (append_assoc x.handled (e ∷ []) rest));
          none_lost = λ _. nothing;
          shut_empty = λ shut. absurd (cc (shut, alive, ends.same_receiver));
        };
        held = omega (arith, b.held, ap length front, ap length left);
      }

  pub drop-Holds :
      (c : ch.Chan) (x : Mail u)
      → Holds ch n c x
      → Holds ch n (ch.drop_receiver c) (record x { lost = x.lost ++ ch.queued c })
  drop-Holds c x b =
      let a = b.accounts in
      let law = lawful.drop_gone c in
      record {
        accounts = record {
          capacity = law.1 ∙ a.capacity;
          kept = a.kept ∙ rw (law.0, append-nil) (append_assoc x.handled x.lost (ch.queued c));
          none_lost = λ alive. absurd (cc (alive, law.2));
          shut_empty = λ _. law.0;
        };
        held = omega (arith, ap length law.0);
      }

  pub bounded-Holds : Holds ch n (ch.bounded n) (record { accepted = []; handled = []; lost = [] })
  bounded-Holds =
      let law = lawful.bounded_new n in
      record {
        accounts = record {
          capacity = law.1;
          kept = sym law.0;
          none_lost = λ _. refl;
          shut_empty = λ _. law.0;
        };
        held = omega (arith, ap length law.0);
      }

module _ {u : Types} {ch : Channels (MessageEnvelope u)} {rch : Channels (Any u)}
    (lawful : IsLawful ch) {n : ℕ} (pos : 0 < n) where
  -- The mail of the mailboxes is accounted for.
  abbrev pub KeptAfter :
      {X : Type 0}
      → Result ℕ RuntimeError
      → MessageEnvelope u
      → List (Mail u)
      → Result X RuntimeError × Runtime u ch rch
      → Type 0
  KeptAfter found e mail (r, rt) = Kept lawful pos rt.mailboxes (logged found r e mail)

  try_sent-Kept :
      (rt : Runtime u ch rch) (target : ActorId) (i : ℕ) (c : ch.Chan) (e : MessageEnvelope u)
      (mail : List (Mail u)) (p : Sent × ch.Chan)
      → get_elem? rt.mailboxes i ≡ some c
      → Outcome ch c e p
      → Kept lawful pos rt.mailboxes mail
      → KeptAfter (ok i) e mail (try_sent rt target i p)
  unfolding try_sent
  try_sent-Kept rt target i c e mail (_, _) at (enters c' alive room adds ends) k =
      Both-set (Holds ch n) rt.mailboxes mail i _ at
        (enters-Holds lawful pos c c' e alive room adds ends) k
  try_sent-Kept rt target i c e mail p at no_room k =
      subst (λ boxes. Kept lawful pos boxes mail) (sym (set_same rt.mailboxes i c at)) k
  try_sent-Kept rt target i c e mail p at (gone shut) k =
      subst (λ boxes. Kept lawful pos boxes mail) (sym (set_same rt.mailboxes i c at)) k

  pub try_send_to-Kept :
      (rt : Runtime u ch rch) (target : ActorId) (e : MessageEnvelope u) (mail : List (Mail u))
      (found : Result ℕ RuntimeError)
      → Kept lawful pos rt.mailboxes mail
      → KeptAfter found e mail (try_send_to rt target e found)
  unfolding try_send_to try_send_at
  try_send_to-Kept rt target e mail (err x) k = k
  try_send_to-Kept rt target e mail (ok i) k = elim (Option-cases (get_elem? rt.mailboxes i)) [
    | inl missing ↦ rw missing k
    | inr (c, found) ↦
        let (x, at, a) = Both-get_elem? (Holds ch n) rt.mailboxes mail i found k in
        rw found (
          try_sent-Kept rt target i c e mail (ch.try_send c e) found
            (try_send-Outcome lawful c e (omega (arith, a.accounts.capacity, pos))) k)
  ]

  pub requested-Kept :
      (found : Result ℕ RuntimeError) (e : MessageEnvelope u) (mail : List (Mail u)) (i j : ℕ)
      (p : Result (Unit {0}) RuntimeError × Runtime u ch rch)
      → KeptAfter found e mail p
      → KeptAfter found e mail (requested i j p)
  unfolding requested
  requested-Kept (ok m) e mail i j (ok _, rt) k = k
  requested-Kept (ok m) e mail i j (err x, rt) k = k
  requested-Kept (err y) e mail i j (ok _, rt) k = k
  requested-Kept (err y) e mail i j (err x, rt) k = k
