-- ===== src/Channel/Outcome.antt =====
-- What a `try_send` comes to, on a channel with a capacity above 0.
use runact.Prelude.{
  ℕ, ◌<◌, ◌≤◌, ◌≡◌, sym, subst, true, false, Bool-cases, ◌⊎◌, inl, inr, [], ◌∷◌, ◌++◌, length,
  arith,
}
use runact.Channel.{Channels, IsLawful, SameEnds, Sent, sent, full, disconnected}

module _ {A : Type 0} (ch : Channels A) (c : ch.Chan) (a : A) where
  pub data Outcome : Sent × ch.Chan → Type 0 where
    enters :
        (c' : ch.Chan)
        → ch.receiving c ≡ true
        → length (ch.queued c) < ch.capacity c
        → ch.queued c' ≡ ch.queued c ++ a ∷ []
        → SameEnds ch c c'
        → Outcome (sent, c')
    no_room : Outcome (full, c)
    gone : ch.receiving c ≡ false → Outcome (disconnected, c)

lt_or_le : (a b : ℕ) → (a < b) ⊎ (b ≤ a)
lt_or_le a b = ground arith

pub try_send-Outcome :
    {A : Type 0} {ch : Channels A}
    → IsLawful ch
    → (c : ch.Chan) (a : A) → 0 < ch.capacity c
    → Outcome ch c a (ch.try_send c a)
try_send-Outcome {ch = ch} lawful c a pos = elim (Bool-cases (ch.receiving c)) [
  | inr shut ↦ subst (Outcome ch c a) (sym (lawful.send_gone c a shut)) (gone shut)
  | inl alive ↦ elim (lt_or_le (length (ch.queued c)) (ch.capacity c)) [
    | inl room ↦
        let law = lawful.send_room c a alive room in
        subst (λ s. Outcome ch c a (s, (ch.try_send c a).1)) (sym law.0)
          (enters (ch.try_send c a).1 alive room law.1 law.2)
    | inr over ↦ subst (Outcome ch c a) (sym (lawful.send_full c a alive pos over)) no_room
  ]
]
