-- ===== src/Mailbox/Wakeup.antt =====
-- Who is woken: `notify_one` follows a push only, so a pop wakes nobody.
use runact.Prelude.{
  ℕ, ◌≡◌, refl, sym, ap, ◌∙◌, List, [], ◌∷◌, ◌++◌, append_assoc, append-nil, All, if_cases,
}
use runact.Mailbox.{
  Waiter, sender, receiver, Mailbox, Outcome, pop_front, receive_popped, receive, try_popped,
  try_receive, resume_waiter, Event, sends, receives, tries, resumes, spurious, step, run,
}

-- Events of receivers: a call of `receive` or `try_receive`, and a woken thread that runs on.
abbrev pub IsDraining {ℓ} : {T : Type ℓ} → Event T → Type 0
IsDraining receives = Unit
IsDraining tries = Unit
IsDraining (resumes pick) = Unit
IsDraining _ = ⊥

abbrev pub IsReceiver {ℓ} : {T : Type ℓ} → Waiter T → Type 0
IsReceiver receiver = Unit
IsReceiver (sender message) = ⊥

module _ {ℓ} {T : Type ℓ} where
  -- From `m` to `m'` nobody who slept was woken, and no sender is awake.
  record StillAsleep (m m' : Mailbox T) : Type ℓ where
    more : List (Waiter T)
    asleep : m'.asleep ≡ m.asleep ++ more
    awake : All IsReceiver m'.awake

  unchanged : (m m' : Mailbox T) → m'.asleep ≡ m.asleep → All IsReceiver m'.awake → StillAsleep m m'
  unchanged m m' e h = record { more = []; asleep = e ∙ sym (append-nil m.asleep); awake = h }

  receive-StillAsleep : (m : Mailbox T) → All IsReceiver m.awake → StillAsleep m (receive m).1
  unfolding receive
  receive-StillAsleep m h =
      if_cases After m.poisoned (λ _. unchanged m m refl h) (λ _. popped m.queue)
    where
      After : Outcome T × Mailbox T → Type ℓ
      After r = StillAsleep m r.1

      popped : (xs : List T) → StillAsleep m (receive_popped (pop_front m xs)).1
      popped [] = record { more = receiver ∷ []; asleep = refl; awake = h }
      popped (x ∷ xs) = unchanged m _ refl h

  try_receive-StillAsleep :
      (m : Mailbox T) → All IsReceiver m.awake → StillAsleep m (try_receive m).1
  unfolding try_receive
  try_receive-StillAsleep m h =
      if_cases After m.poisoned (λ _. unchanged m m refl h) (λ _. popped m.queue)
    where
      After : Outcome T × Mailbox T → Type ℓ
      After r = StillAsleep m r.1

      popped : (xs : List T) → StillAsleep m (try_popped (pop_front m xs)).1
      popped [] = unchanged m _ refl h
      popped (x ∷ xs) = unchanged m _ refl h

  resume-StillAsleep :
      (pick : ℕ) (m : Mailbox T) (ws : List (Waiter T))
      → m.awake ≡ ws
      → All IsReceiver ws
      → StillAsleep m (resume_waiter pick m ws).1
  unfolding resume_waiter
  resume-StillAsleep pick m [] e h = unchanged m m refl (rw e h)
  resume-StillAsleep pick m (receiver ∷ ws) e h =
      let r = receive-StillAsleep (record m { awake = ws }) h.1 in
      record { more = r.more; asleep = r.asleep; awake = r.awake }
  resume-StillAsleep pick m (sender message ∷ ws) e h = absurd h.0

  step-StillAsleep :
      (m : Mailbox T) (e : Event T)
      → IsDraining e
      → All IsReceiver m.awake
      → StillAsleep m (step m e).1
  unfolding step
  step-StillAsleep m receives d h = receive-StillAsleep m h
  step-StillAsleep m tries d h = try_receive-StillAsleep m h
  step-StillAsleep m (resumes pick) d h = resume-StillAsleep pick m m.awake refl h
  step-StillAsleep m (sends pick x) d h = absurd d
  step-StillAsleep m (spurious pick) d h = absurd d

  -- However many messages are received, also when the queue becomes empty, every thread that slept
  -- still sleeps: a sender that waits for space under `Block` is not woken by the space, as long as
  -- no sender is awake, nobody else sends, and the condition variable does not wake spuriously.
  pub run-asleep :
      (m : Mailbox T) (es : List (Event T))
      → All IsReceiver m.awake
      → All IsDraining es
      → (more : List (Waiter T)) × ((run m es).asleep ≡ m.asleep ++ more)
  unfolding run
  run-asleep m [] h d = ([], sym (append-nil m.asleep))
  run-asleep m (e ∷ es) h d =
      let now = step-StillAsleep m e d.0 h in
      let (more, later) = run-asleep (step m e).1 es now.awake d.1 in
      (
        now.more ++ more,
        later ∙ ap (λ ws. ws ++ more) now.asleep ∙ append_assoc m.asleep now.more more,
      )
