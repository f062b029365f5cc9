-- ===== src/Channel/Unbounded.antt =====
-- The unbounded channel of `crossbeam_channel`, which is not part of the repository, with several
-- senders and receivers, as an interface: the operations that the code calls, and the behaviour that
-- their documentation states. A channel is one value that stands for all its ends. The messages go
-- with the last receiver. `send` never blocks; its result says whether the message was accepted.
use runact.Prelude.{
  ℕ, suc, ◌<◌, ◌-◌, ◌≡◌, refl, Bool, true, false, List, [], ◌∷◌, ◌++◌, ◌==◌, if◌then◌else◌, arith,
}
use runact.Channel.{Received, got, empty, hung_up}

pub record Unbounded (A : Type 0) : Type 1 where
  pub Chan : Type 0
  pub unbounded : Chan
  pub queued : Chan → List A
  pub receivers : Chan → ℕ
  pub senders : Chan → ℕ
  pub send : Chan → A → Bool × Chan
  pub try_recv : Chan → Received A × Chan
  pub clone_receiver : Chan → Chan
  pub drop_receiver : Chan → Chan
  pub clone_sender : Chan → Chan
  pub drop_sender : Chan → Chan

-- What `c'` shares with `c`, whatever was sent or received.
pub record SameEnds {A : Type 0} (q : Unbounded A) (c c' : q.Chan) : Type 0 where
  pub same_receivers : q.receivers c' ≡ q.receivers c
  pub same_senders : q.senders c' ≡ q.senders c

pub record IsLawful {A : Type 0} (q : Unbounded A) : Type 0 where
  pub unbounded_new :
      (q.queued q.unbounded ≡ []) × (q.receivers q.unbounded ≡ 1) × (q.senders q.unbounded ≡ 1)
  pub send_accepted :
      (c : q.Chan) (a : A)
      → 0 < q.receivers c
      → ((q.send c a).0 ≡ true)
        × (q.queued (q.send c a).1 ≡ q.queued c ++ a ∷ [])
        × SameEnds q c (q.send c a).1
  pub send_refused : (c : q.Chan) (a : A) → q.receivers c ≡ 0 → q.send c a ≡ (false, c)
  pub recv_got :
      (c : q.Chan) (a : A) (rest : List A)
      → q.queued c ≡ a ∷ rest
      → ((q.try_recv c).0 ≡ got a)
        × (q.queued (q.try_recv c).1 ≡ rest)
        × SameEnds q c (q.try_recv c).1
  pub recv_empty : (c : q.Chan) → q.queued c ≡ [] → 0 < q.senders c → q.try_recv c ≡ (empty, c)
  pub recv_hung_up : (c : q.Chan) → q.queued c ≡ [] → q.senders c ≡ 0 → q.try_recv c ≡ (hung_up, c)
  pub clone_receiver_lem :
      (c : q.Chan)
      → (q.queued (q.clone_receiver c) ≡ q.queued c)
        × (q.receivers (q.clone_receiver c) ≡ suc (q.receivers c))
        × (q.senders (q.clone_receiver c) ≡ q.senders c)
  pub drop_receiver_lem :
      (c : q.Chan)
      → (q.queued (q.drop_receiver c) ≡ (if q.receivers c == 1 then [] else q.queued c))
        × (q.receivers (q.drop_receiver c) ≡ q.receivers c - 1)
        × (q.senders (q.drop_receiver c) ≡ q.senders c)
  pub clone_sender_lem :
      (c : q.Chan)
      → (q.queued (q.clone_sender c) ≡ q.queued c)
        × (q.receivers (q.clone_sender c) ≡ q.receivers c)
        × (q.senders (q.clone_sender c) ≡ suc (q.senders c))
  pub drop_sender_lem :
      (c : q.Chan)
      → (q.queued (q.drop_sender c) ≡ q.queued c)
        × (q.receivers (q.drop_sender c) ≡ q.receivers c)
        × (q.senders (q.drop_sender c) ≡ q.senders c - 1)

-- An implementation that meets the laws: a list with the numbers of its ends.
pub record Ends (A : Type 0) : Type 0 where
  pub items : List A
  pub receiver_count : ℕ
  pub sender_count : ℕ

module _ {A : Type 0} where
  abbrev take_from : Ends A → List A → Received A × Ends A
  take_from c [] = (if c.sender_count == 0 then hung_up else empty, c)
  take_from c (a ∷ rest) = (got a, record c { items = rest })

  abbrev send_to : Ends A → A → Bool × Ends A
  send_to c a =
      if c.receiver_count == 0 then (false, c) else (true, record c { items = c.items ++ a ∷ [] })

abbrev pub ends : (A : Type 0) → Unbounded A
ends A = record {
  Chan = Ends A;
  unbounded = record { items = []; receiver_count = 1; sender_count = 1 };
  queued = λ c. c.items;
  receivers = λ c. c.receiver_count;
  senders = λ c. c.sender_count;
  send = send_to;
  try_recv = λ c. take_from c c.items;
  clone_receiver = λ c. record c { receiver_count = suc c.receiver_count };
  drop_receiver = λ c. record c {
    items = if c.receiver_count == 1 then [] else c.items;
    receiver_count = c.receiver_count - 1;
  };
  clone_sender = λ c. record c { sender_count = suc c.sender_count };
  drop_sender = λ c. record c { sender_count = c.sender_count - 1 };
}

module _ {A : Type 0} (c : Ends A) where
  send_to-accepted :
      (a : A) → 0 < c.receiver_count → send_to c a ≡ (true, record c { items = c.items ++ a ∷ [] })
  send_to-accepted a h = ground arith

  send_to-refused : (a : A) → c.receiver_count ≡ 0 → send_to c a ≡ (false, c)
  send_to-refused a h = ground arith

  take_from-got :
      (a : A) (rest : List A)
      → c.items ≡ a ∷ rest
      → take_from c c.items ≡ (got a, record c { items = rest })
  take_from-got a rest e = ground arith

  take_from-empty : c.items ≡ [] → 0 < c.sender_count → take_from c c.items ≡ (empty, c)
  take_from-empty e h = ground arith

  take_from-hung_up : c.items ≡ [] → c.sender_count ≡ 0 → take_from c c.items ≡ (hung_up, c)
  take_from-hung_up e h = ground arith

  unchanged_ends : (items : List A) → SameEnds (ends A) c (record c { items = items })
  unchanged_ends items = record { same_receivers = refl; same_senders = refl }

pub ends-IsLawful : (A : Type 0) → IsLawful (ends A)
ends-IsLawful A = record {
  unbounded_new = (refl, refl, refl);
  send_accepted =
      λ c a h. rw (send_to-accepted c a h) (refl, refl, unchanged_ends c (c.items ++ a ∷ []));
  send_refused = λ c a h. send_to-refused c a h;
  recv_got = λ c a rest e. rw (take_from-got c a rest e) (refl, refl, unchanged_ends c rest);
  recv_empty = λ c e h. take_from-empty c e h;
  recv_hung_up = λ c e h. take_from-hung_up c e h;
  clone_receiver_lem = λ c. (refl, refl, refl);
  drop_receiver_lem = λ c. (refl, refl, refl);
  clone_sender_lem = λ c. (refl, refl, refl);
  drop_sender_lem = λ c. (refl, refl, refl);
}
