-- ===== src/Channel/Fits.antt =====
-- The bound of a channel: what is sent and received keeps it.
use runact.Prelude.{
  ℕ, ◌<◌, ◌≤◌, ◌≡◌, ap, sym, ◌∙◌, subst, Bool-cases, ◌⊎◌, inl, inr, [], ◌∷◌, List-cases, length,
  length-append, arith,
}
use runact.Channel.{Channels, IsLawful, recv_none}

-- A channel that was made for `n` messages and holds no more.
pub record Fits {A : Type 0} (ch : Channels A) (n : ℕ) (c : ch.Chan) : Type 0 where
  pub capacity : ch.capacity c ≡ n
  pub held : length (ch.queued c) ≤ n

lt_or_le : (a b : ℕ) → (a < b) ⊎ (b ≤ a)
lt_or_le a b = ground arith

module _ {A : Type 0} {ch : Channels A} (lawful : IsLawful ch) {n : ℕ} (pos : 0 < n) where
  pub bounded-Fits : Fits ch n (ch.bounded n)
  bounded-Fits =
      let law = lawful.bounded_new n in
      record { capacity = law.1; held = omega (arith, ap length law.0) }

  pub try_send-Fits : (c : ch.Chan) (e : A) → Fits ch n c → Fits ch n (ch.try_send c e).1
  try_send-Fits c e f = elim (Bool-cases (ch.receiving c)) [
    | inr gone ↦ subst (λ p. Fits ch n p.1) (sym (lawful.send_gone c e gone)) f
    | inl alive ↦ elim (lt_or_le (length (ch.queued c)) (ch.capacity c)) [
      | inl room ↦
          let law = lawful.send_room c e alive room in
          record {
            capacity = law.2.same_capacity ∙ f.capacity;
            held =
                omega
                  (arith, ap length law.1, length-append (ch.queued c) (e ∷ []), room, f.capacity);
          }
      | inr over ↦
          subst (λ p. Fits ch n p.1)
            (sym (lawful.send_full c e alive (omega (arith, f.capacity, pos)) over)) f
    ]
  ]

  pub try_recv-Fits : (c : ch.Chan) → Fits ch n c → Fits ch n (ch.try_recv c).1
  try_recv-Fits c f = elim (List-cases (ch.queued c)) [
    | inl none_queued ↦ elim (recv_none lawful c none_queued) [
      | inl e ↦ subst (λ p. Fits ch n p.1) (sym e) f
      | inr e ↦ subst (λ p. Fits ch n p.1) (sym e) f
    ]
    | inr (a, rest, e) ↦
        let law = lawful.recv_got c a rest e in
        record {
          capacity = law.2.same_capacity ∙ f.capacity;
          held = omega (arith, ap length law.1, ap length e, f.held);
        }
  ]

  pub drop_receiver-Fits : (c : ch.Chan) → Fits ch n c → Fits ch n (ch.drop_receiver c)
  drop_receiver-Fits c f =
      let law = lawful.drop_gone c in
      record { capacity = law.1 ∙ f.capacity; held = omega (arith, ap length law.0) }
