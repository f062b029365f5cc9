-- ===== src/Mailbox/Keeps.antt =====
-- Which properties of a mailbox every event keeps: those kept by the few writes that events make.
use runact.Prelude.{if_cases, ℕ, ◌≡◌, refl, true, false, List, [], ◌∷◌, ◌++◌}
use runact.Mailbox.{
  BackpressurePolicy, reject, block, drop_low_priority, Waiter, sender, receiver, Mailbox, Outcome,
  send, resume_send, push_back, notify_one, drop_front, send_full, sleep, is_full, pop_front,
  receive_popped, receive, try_popped, try_receive, resume_waiter, Event, sends, receives, tries,
  resumes, spurious, step, run,
}

module _ {ℓ} {T : Type ℓ} where
  abbrev pub with_pushed : Mailbox T → T → Mailbox T
  with_pushed m x = record m { queue = m.queue ++ x ∷ []; accepted = m.accepted ++ x ∷ [] }

  abbrev pub with_popped : Mailbox T → T → List T → Mailbox T
  with_popped m x xs = record m { queue = xs; removed = m.removed ++ x ∷ [] }

  -- The state after a call.
  abbrev After {κ} : (Mailbox T → Type κ) → Outcome T × Mailbox T → Type κ
  After P r = P r.1

  pub record Keeps {κ} (P : Mailbox T → Type κ) : Type (ℓ ⊔ κ) where
    pub sleepers :
        (m : Mailbox T) (a b : List (Waiter T)) → P m → P (record m { asleep = a; awake = b })
    pub pushes : (m : Mailbox T) (x : T) → is_full m ≡ false → P m → P (with_pushed m x)
    pub pops :
        (m : Mailbox T) (x : T) (xs : List T) → m.queue ≡ x ∷ xs → P m → P (with_popped m x xs)
    pub replaces :
        (m : Mailbox T) (x : T)
        → is_full m ≡ true
        → m.config.backpressure ≡ drop_low_priority
        → P m
        → P (with_pushed (drop_front m m.queue) x)

  module _ {κ} {P : Mailbox T → Type κ} (k : Keeps P) where
    push_back-Keeps :
        (pick : ℕ) (m : Mailbox T) (x : T) → P (with_pushed m x) → P (push_back pick m x).1
    unfolding push_back notify_one
    push_back-Keeps pick m x h = k.sleepers (with_pushed m x) _ _ h

    send_full-Keeps :
        (policy : BackpressurePolicy) (pick : ℕ) (m : Mailbox T) (x : T)
        → m.config.backpressure ≡ policy
        → is_full m ≡ true
        → P m
        → P (send_full policy pick m x).1
    unfolding send_full sleep
    send_full-Keeps reject pick m x e full h = h
    send_full-Keeps block pick m x e full h = k.sleepers m _ _ h
    send_full-Keeps drop_low_priority pick m x e full h =
        push_back-Keeps pick (drop_front m m.queue) x (k.replaces m x full e h)

    send-Keeps : (pick : ℕ) (m : Mailbox T) (x : T) → P m → P (send pick m x).1
    unfolding send
    send-Keeps pick m x h =
        if_cases (After P) m.poisoned (λ _. h)
          λ _.
            if_cases (After P) (is_full m)
              (λ full. send_full-Keeps m.config.backpressure pick m x refl full h)
              (λ room. push_back-Keeps pick m x (k.pushes m x room h))

    resume_send-Keeps : (pick : ℕ) (m : Mailbox T) (x : T) → P m → P (resume_send pick m x).1
    unfolding resume_send sleep
    resume_send-Keeps pick m x h =
        if_cases (After P) m.poisoned (λ _. h)
          λ _.
            if_cases (After P) (is_full m) (λ full. k.sleepers m _ _ h)
              (λ room. push_back-Keeps pick m x (k.pushes m x room h))

    receive-Keeps : (m : Mailbox T) → P m → P (receive m).1
    unfolding receive
    receive-Keeps m h = if_cases (After P) m.poisoned (λ _. h) (λ _. popped m.queue refl)
      where
        popped : (xs : List T) → m.queue ≡ xs → P (receive_popped (pop_front m xs)).1
        popped [] e = k.sleepers m _ _ h
        popped (x ∷ xs) e = k.pops m x xs e h

    try_receive-Keeps : (m : Mailbox T) → P m → P (try_receive m).1
    unfolding try_receive
    try_receive-Keeps m h = if_cases (After P) m.poisoned (λ _. h) (λ _. popped m.queue refl)
      where
        popped : (xs : List T) → m.queue ≡ xs → P (try_popped (pop_front m xs)).1
        popped [] e = h
        popped (x ∷ xs) e = k.pops m x xs e h

    resume_waiter-Keeps :
        (pick : ℕ) (m : Mailbox T) (ws : List (Waiter T)) → P m → P (resume_waiter pick m ws).1
    unfolding resume_waiter
    resume_waiter-Keeps pick m [] h = h
    resume_waiter-Keeps pick m (sender x ∷ ws) h =
        resume_send-Keeps pick (record m { awake = ws }) x (k.sleepers m m.asleep ws h)
    resume_waiter-Keeps pick m (receiver ∷ ws) h =
        receive-Keeps (record m { awake = ws }) (k.sleepers m m.asleep ws h)

    step-Keeps : (m : Mailbox T) (e : Event T) → P m → P (step m e).1
    unfolding step notify_one
    step-Keeps m (sends pick x) h = send-Keeps pick m x h
    step-Keeps m receives h = receive-Keeps m h
    step-Keeps m tries h = try_receive-Keeps m h
    step-Keeps m (resumes pick) h = resume_waiter-Keeps pick m m.awake h
    step-Keeps m (spurious pick) h = k.sleepers m _ _ h

    pub run-Keeps : (m : Mailbox T) (es : List (Event T)) → P m → P (run m es)
    unfolding run
    run-Keeps m [] h = h
    run-Keeps m (e ∷ es) h = run-Keeps (step m e).1 es (step-Keeps m e h)
