-- ===== src/Channel/Fifo.antt =====
-- An implementation that meets the laws of the interface: a list with its bound. It stands for the
-- foreign library in the tests, and shows that the laws can hold.
use runact.Prelude.{
  ◌⊎◌, ◌-◌, ◌==◌, ℕ, ◌<◌, ◌≤◌, ◌≡◌, refl, Bool, true, false, List, [], ◌∷◌, ◌++◌, length, arith,
  ltb, if◌then◌else◌,
}
use runact.Channel.{
  hung_up, Sent, sent, full, disconnected, Received, got, empty, Channels, SameEnds, IsLawful,
}

pub record Fifo (A : Type 0) : Type 0 where
  pub items : List A
  pub bound : ℕ
  pub open_end : Bool
  pub senders : ℕ

module _ {A : Type 0} where
  abbrev pub try_send : Fifo A → A → Sent × Fifo A
  try_send c a =
      if c.open_end
      then if ltb (length c.items) c.bound
        then (sent, record c { items = c.items ++ a ∷ [] })
        else (full, c)
      else (disconnected, c)

  abbrev take_from : Fifo A → List A → Received A × Fifo A
  take_from c [] = (if c.senders == 0 then hung_up else empty, c)
  take_from c (a ∷ rest) = (got a, record c { items = rest })

  abbrev pub try_recv : Fifo A → Received A × Fifo A
  try_recv c = take_from c c.items

abbrev pub fifo : (A : Type 0) → Channels A
fifo A = record {
  Chan = Fifo A;
  bounded = λ n. record { items = []; bound = n; open_end = true; senders = 1 };
  queued = λ c. c.items;
  capacity = λ c. c.bound;
  receiving = λ c. c.open_end;
  senders = λ c. c.senders;
  try_send = try_send;
  try_recv = try_recv;
  drop_receiver = λ c. record c { items = []; open_end = false };
  drop_sender = λ c. record c { senders = c.senders - 1 };
}

module _ {A : Type 0} (c : Fifo A) where
  try_send-room :
      (a : A)
      → c.open_end ≡ true
      → length c.items < c.bound
      → try_send c a ≡ (sent, record c { items = c.items ++ a ∷ [] })
  try_send-room a open_c room = ground arith

  try_send-full : (a : A) → c.open_end ≡ true → c.bound ≤ length c.items → try_send c a ≡ (full, c)
  try_send-full a open_c over = ground arith

  try_send-adds :
      (a : A) → ((try_send c a).1.items ≡ c.items) ⊎ ((try_send c a).1.items ≡ c.items ++ a ∷ [])
  try_send-adds a = ground arith

  try_send-same :
      (a : A)
      → ((try_send c a).1.bound ≡ c.bound)
        × ((try_send c a).1.open_end ≡ c.open_end)
        × ((try_send c a).1.senders ≡ c.senders)
  try_send-same a = ground arith

  try_recv-got :
      (a : A) (rest : List A) → c.items ≡ a ∷ rest → try_recv c ≡ (got a, record c { items = rest })
  try_recv-got a rest e = ground arith

  try_recv-empty : c.items ≡ [] → 0 < c.senders → try_recv c ≡ (empty, c)
  try_recv-empty e alive = ground arith

  try_recv-hung_up : c.items ≡ [] → c.senders ≡ 0 → try_recv c ≡ (hung_up, c)
  try_recv-hung_up e gone = ground arith

  unchanged_ends : (items : List A) → SameEnds (fifo A) c (record c { items = items })
  unchanged_ends items = record { same_capacity = refl; same_receiver = refl; same_senders = refl }

pub fifo-IsLawful : (A : Type 0) → IsLawful (fifo A)
fifo-IsLawful A = record {
  bounded_new = λ n. (refl, refl, refl, refl);
  send_room = λ c a open_c room.
      rw (try_send-room c a open_c room) (refl, refl, unchanged_ends c (c.items ++ a ∷ []));
  send_full = λ c a open_c pos over. try_send-full c a open_c over;
  send_gone = λ c a gone. ground arith;
  send_adds = λ c a. try_send-adds c a;
  send_same = λ c a. record {
    same_capacity = (try_send-same c a).0;
    same_receiver = (try_send-same c a).1;
    same_senders = (try_send-same c a).2;
  };
  recv_got = λ c a rest e. rw (try_recv-got c a rest e) (refl, refl, unchanged_ends c rest);
  recv_empty = λ c e alive. try_recv-empty c e alive;
  recv_hung_up = λ c e gone. try_recv-hung_up c e gone;
  drop_gone = λ c. (refl, refl, refl, refl);
  drop_sender_kept = λ c. (refl, refl, refl, refl);
}
