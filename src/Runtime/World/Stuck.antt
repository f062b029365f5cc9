-- ===== src/Runtime/World/Stuck.antt =====
-- src/actor/context.rs with src/runtime.rs: actors that wait in `send_to` for room in each other's
-- mailboxes.
use runact.Prelude.{
  ℕ, ◌<◌, ◌≤◌, ◌≡◌, ◌∙◌, refl, ap, sym, subst, inl, inr, Bool, Bool-cases, true, false, Option,
  none, some, List, length, get_elem?, get_elem?-set_ne, set, Option-cases,
}
use runact.Any.{Types, Any}
use runact.Channel.{Channels, IsLawful, Sent, sent, full, disconnected}
use runact.Actor.Error.{RuntimeError, Result}
use runact.Runtime.{MessageEnvelope}
use runact.Runtime.World.{Script, sending, Loop, Actors, World}
use runact.Runtime.World.Steps.{held_sent, try_held, sent_on, loop_act, loop_turn}

-- A mailbox that has no room for another message.
pub record IsFull {A : Type 0} (ch : Channels A) (boxes : List ch.Chan) (m : ℕ) : Type 0 where
  pub chan : ch.Chan
  pub box : get_elem? boxes m ≡ some chan
  pub alive : ch.receiving chan ≡ true
  pub pos : 0 < ch.capacity chan
  pub over : ch.capacity chan ≤ length (ch.queued chan)

-- The loop of `m` is in a `send_to` to an actor of the group.
pub record Waits {u : Types} {A : Actors u} (D : ℕ → Bool) (loops : List (Loop A)) (m : ℕ)
    : Type 0 where
  pub loop : Loop A
  pub here : get_elem? loops m ≡ some loop
  pub stopping : Bool
  pub target : ℕ
  pub in_group : D target ≡ true
  pub envelope : MessageEnvelope u
  pub next : Result (Unit {0}) RuntimeError → Script u (A.State loop.kind)
  pub stands : loop.pc ≡ sending stopping target envelope next

-- A write outside the group.
pub set_apart {ℓ} :
    {X : Type ℓ} (D : ℕ → Bool) (xs : List X) (i : ℕ) (v : X)
    → D i ≡ false
    → (m : ℕ) → D m ≡ true
    → get_elem? (set xs i v) m ≡ get_elem? xs m
set_apart D xs i v out m d = get_elem?-set_ne xs v (λ e. absurd (cc (out, d, ap D e)))

module _ {u : Types} {ch : Channels (MessageEnvelope u)} {rch : Channels (Any u)} {A : Actors u}
    (D : ℕ → Bool) where
  -- Each actor of the group `D` has a full mailbox, and waits for room in one of the group.
  pub record IsStuck (w : World ch rch A) : Type 0 where
    pub filled : (m : ℕ) → D m ≡ true → IsFull ch w.runtime.mailboxes m
    pub waits : (m : ℕ) → D m ≡ true → Waits D w.loops m

  -- Nothing has changed for the group; and no actor has been added, and no sender.
  pub record SameGroup (w w' : World ch rch A) : Type 0 where
    pub loops : (m : ℕ) → D m ≡ true → get_elem? w'.loops m ≡ get_elem? w.loops m
    pub boxes :
        (m : ℕ) → D m ≡ true → get_elem? w'.runtime.mailboxes m ≡ get_elem? w.runtime.mailboxes m
    pub count : length w'.loops ≡ length w.loops
    pub senders : w'.runtime.senders ≡ w.runtime.senders

  pub same_group : (w : World ch rch A) → SameGroup w w
  same_group w = record { loops = λ m d. refl; boxes = λ m d. refl; count = refl; senders = refl }

  pub SameGroup-IsStuck : {w w' : World ch rch A} → SameGroup w w' → IsStuck w → IsStuck w'
  SameGroup-IsStuck same s = record {
    filled = λ m d.
        let f = s.filled m d in
        record {
          chan = f.chan;
          box = same.boxes m d ∙ f.box;
          alive = f.alive;
          pos = f.pos;
          over = f.over;
        };
    waits = λ m d.
        let x = s.waits m d in
        record {
          loop = x.loop;
          here = same.loops m d ∙ x.here;
          stopping = x.stopping;
          target = x.target;
          in_group = x.in_group;
          envelope = x.envelope;
          next = x.next;
          stands = x.stands;
        };
  }

  module _ (lawful : IsLawful ch) where
    -- A thread that tries to send to the group still waits.
    pub try_held-full :
        (w : World ch rch A) (i : ℕ) (e : MessageEnvelope u)
        → IsFull ch w.runtime.mailboxes i
        → try_held w i e (get_elem? w.runtime.mailboxes i) ≡ (none, w)
    unfolding try_held held_sent
    try_held-full w i e f =
        ap (try_held w i e) f.box
        ∙ ap (held_sent w i e) (lawful.send_full f.chan e f.alive f.pos f.over)

    held_sent-SameGroup :
        (w : World ch rch A) (i : ℕ) (e : MessageEnvelope u) (p : Sent × ch.Chan)
        → D i ≡ false
        → SameGroup w (held_sent w i e p).1
    unfolding held_sent
    held_sent-SameGroup w i e (sent, c) out = record {
      loops = λ m d. refl;
      boxes = set_apart D w.runtime.mailboxes i c out;
      count = refl;
      senders = refl;
    }
    held_sent-SameGroup w i e (full, c) out = same_group w
    held_sent-SameGroup w i e (disconnected, c) out = same_group w

    pub try_held-SameGroup :
        (w : World ch rch A) (i : ℕ) (e : MessageEnvelope u)
        → IsStuck w
        → SameGroup w (try_held w i e (get_elem? w.runtime.mailboxes i)).1
    unfolding try_held
    try_held-SameGroup w i e s = elim (Bool-cases (D i)) [
      | inl d ↦
          subst (λ (p : Option (Result (Unit {0}) RuntimeError) × World ch rch A). SameGroup w p.1)
            (sym (try_held-full w i e (s.filled i d))) (same_group w)
      | inr out ↦ elim (Option-cases (get_elem? w.runtime.mailboxes i)) [
        | inl missing ↦ rw missing (same_group w)
        | inr (c, found) ↦
            subst (λ o. SameGroup w (try_held w i e o).1) (sym found)
              (held_sent-SameGroup w i e (ch.try_send c e) out)
      ]
    ]

    -- A loop of the group stays where it is.
    pub waiting-stays :
        (w : World ch rch A) (i : ℕ) (answer : Any u) (m : ℕ)
        → IsStuck w
        → D m ≡ true
        → loop_turn w i answer m (get_elem? w.loops m) ≡ w
    unfolding loop_turn loop_act sent_on
    waiting-stays w i answer m s d =
        let x = s.waits m d in
        ap (loop_turn w i answer m) x.here
        ∙ ap (loop_act w i answer m x.loop) x.stands
        ∙ ap (sent_on m x.loop x.stopping x.next)
            (try_held-full w x.target x.envelope (s.filled x.target x.in_group))
