-- ===== src/Channel.antt =====
-- `crossbeam_channel`, which is not part of the repository: the operations that the code calls on a
-- channel, and the behaviour that their documentation states, as an interface. A channel is one
-- value that stands for all its senders and its receiver; `queued`, `capacity`, `receiving` and
-- `senders` are what the laws speak about. A blocking `send` is a `try_send` made again for as long as it is
-- `full`; `recv_timeout` is a `try_recv` made until the time is over. A channel of capacity 0
-- passes messages hand to hand: no law says when a `try_send` on it succeeds.
pub mod Fifo
pub mod Fits
pub mod Outcome
pub mod Unbounded
use runact.Prelude.{
  ◌⊎◌, inl, inr, arith, ◌-◌, ℕ, ◌<◌, ◌≤◌, ◌≡◌, Bool, true, false, List, [], ◌∷◌, ◌++◌, length,
}

pub data Sent : Type 0 where
  sent full disconnected : Sent

pub data Received (A : Type 0) : Type 0 where
  got : A → Received A
  empty hung_up : Received A  -- `hung_up`: nothing is queued, and no sender is left

pub record Channels (A : Type 0) : Type 1 where
  pub Chan : Type 0
  pub bounded : ℕ → Chan
  pub queued : Chan → List A
  pub capacity : Chan → ℕ
  pub receiving : Chan → Bool  -- the receiver has not been dropped
  pub senders : Chan → ℕ
  pub try_send : Chan → A → Sent × Chan
  pub try_recv : Chan → Received A × Chan
  pub drop_receiver : Chan → Chan
  pub drop_sender : Chan → Chan

-- What `c'` shares with `c`, whatever was sent or received.
pub record SameEnds {A : Type 0} (ch : Channels A) (c c' : ch.Chan) : Type 0 where
  pub same_capacity : ch.capacity c' ≡ ch.capacity c
  pub same_receiver : ch.receiving c' ≡ ch.receiving c
  pub same_senders : ch.senders c' ≡ ch.senders c

pub record IsLawful {A : Type 0} (ch : Channels A) : Type 0 where
  pub bounded_new :
      (n : ℕ)
      → (ch.queued (ch.bounded n) ≡ [])
        × (ch.capacity (ch.bounded n) ≡ n)
        × (ch.receiving (ch.bounded n) ≡ true)
        × (ch.senders (ch.bounded n) ≡ 1)
  pub send_room :
      (c : ch.Chan) (a : A)
      → ch.receiving c ≡ true
      → length (ch.queued c) < ch.capacity c
      → ((ch.try_send c a).0 ≡ sent)
        × (ch.queued (ch.try_send c a).1 ≡ ch.queued c ++ a ∷ [])
        × SameEnds ch c (ch.try_send c a).1
  pub send_full :
      (c : ch.Chan) (a : A)
      → ch.receiving c ≡ true
      → 0 < ch.capacity c
      → ch.capacity c ≤ length (ch.queued c)
      → ch.try_send c a ≡ (full, c)
  pub send_gone :
      (c : ch.Chan) (a : A) → ch.receiving c ≡ false → ch.try_send c a ≡ (disconnected, c)
  -- Whatever becomes of a message, nothing else enters, and nothing leaves.
  pub send_adds :
      (c : ch.Chan) (a : A)
      → (ch.queued (ch.try_send c a).1 ≡ ch.queued c)
        ⊎ (ch.queued (ch.try_send c a).1 ≡ ch.queued c ++ a ∷ [])
  pub send_same : (c : ch.Chan) (a : A) → SameEnds ch c (ch.try_send c a).1
  pub recv_got :
      (c : ch.Chan) (a : A) (rest : List A)
      → ch.queued c ≡ a ∷ rest
      → ((ch.try_recv c).0 ≡ got a)
        × (ch.queued (ch.try_recv c).1 ≡ rest)
        × SameEnds ch c (ch.try_recv c).1
  pub recv_empty : (c : ch.Chan) → ch.queued c ≡ [] → 0 < ch.senders c → ch.try_recv c ≡ (empty, c)
  pub recv_hung_up :
      (c : ch.Chan) → ch.queued c ≡ [] → ch.senders c ≡ 0 → ch.try_recv c ≡ (hung_up, c)
  -- The receiver takes the queued messages with it.
  pub drop_gone :
      (c : ch.Chan)
      → (ch.queued (ch.drop_receiver c) ≡ [])
        × (ch.capacity (ch.drop_receiver c) ≡ ch.capacity c)
        × (ch.receiving (ch.drop_receiver c) ≡ false)
        × (ch.senders (ch.drop_receiver c) ≡ ch.senders c)
  -- A sender that goes leaves the messages in the channel.
  pub drop_sender_kept :
      (c : ch.Chan)
      → (ch.queued (ch.drop_sender c) ≡ ch.queued c)
        × (ch.capacity (ch.drop_sender c) ≡ ch.capacity c)
        × (ch.receiving (ch.drop_sender c) ≡ ch.receiving c)
        × (ch.senders (ch.drop_sender c) ≡ ch.senders c - 1)

pub zero_or_pos : (n : ℕ) → (n ≡ 0) ⊎ (0 < n)
zero_or_pos n = ground arith

-- Nothing comes out of a channel with nothing in it, whoever is left to send.
pub recv_none :
    {A : Type 0} {ch : Channels A}
    → IsLawful ch
    → (c : ch.Chan) → ch.queued c ≡ []
    → (ch.try_recv c ≡ (empty, c)) ⊎ (ch.try_recv c ≡ (hung_up, c))
recv_none {ch = ch} lawful c e = elim (zero_or_pos (ch.senders c)) [
  | inl gone ↦ inr (lawful.recv_hung_up c e gone)
  | inr alive ↦ inl (lawful.recv_empty c e alive)
]
