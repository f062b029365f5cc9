-- ===== src/Timer/Drift.antt =====
-- src/timer/service.rs: the times at which a periodic timer fires, over many turns of the thread.
use runact.Prelude.{
  append-nil, Option, if_cases, ℕ, zero, suc, ◌+◌, ◌*◌, ◌≡◌, refl, ap, ◌∙◌, Bool, false, Bool-cases,
  inl, inr, not, some, none, List, [], ◌∷◌, ◌++◌, replicate, arith, if◌then◌else◌,
}
use runact.Prelude.HashMap.{HashMap, lookup}
use runact.Actor.ActorId.{ActorId}
use runact.Timer.{
  poll, fire, fire_each, TimerEntry, TimerService, MessageFactory, retain, rescheduled, call,
  send_if_known, turn, is_due,
}
use runact.Timer.Cancel.{periodic}
use runact.Timer.Ticks.{loaded, all_sends, sends, next_times, turn_lem}

replicate-snoc {ℓ} : {A : Type ℓ} (n : ℕ) (a : A) → replicate n a ++ a ∷ [] ≡ replicate (suc n) a
replicate-snoc zero a = refl
replicate-snoc (suc n) a = ap (λ xs. a ∷ xs) (replicate-snoc n a)

module _ {M : Type 0} where
  -- Turns of the thread at the given times.
  pub turns : HashMap ℕ → List ℕ → TimerService M → TimerService M
  turns senders [] s = s
  turns senders (now ∷ nows) s = turns senders nows (turn now senders s)

  -- A running service whose one timer is periodic and has sent `n` messages: it is next due `n`
  -- intervals after its first time.
  pub record HasTicked (id start interval : ℕ) (actor_id : ActorId) (m : M) (n : ℕ)
      (s : TimerService M) : Type 0 where
    pub running : s.stop ≡ false
    pub sound : s.panicked ≡ false
    pub next : s.timers ≡ periodic id (start + n * interval) interval actor_id m ∷ []
    pub ticks : s.sent ≡ replicate n (actor_id, m)

  fire-stop :
      (senders : HashMap ℕ) (t : TimerEntry M) (p : Option M × MessageFactory M)
      (s : TimerService M)
      → (fire senders t p s).stop ≡ s.stop
  unfolding fire
  fire-stop senders t (none, f) s = refl
  fire-stop senders t (some m, f) s = refl

  fire_each-stop :
      (senders : HashMap ℕ) (due : List (TimerEntry M)) (s : TimerService M)
      → (fire_each senders due s).stop ≡ s.stop
  unfolding fire_each
  fire_each-stop senders [] s = refl
  fire_each-stop senders (t ∷ due) s =
      let s' = record s { due = due } in
      let fired = fire senders t (call t.factory) s' in
      let kept = fire-stop senders t (call t.factory) s' in
      if_cases (λ (r : TimerService M). r.stop ≡ s.stop) fired.panicked (λ e. kept)
        (λ e. fire_each-stop senders due fired ∙ kept)

  turn-stop :
      (now : ℕ) (senders : HashMap ℕ) (s : TimerService M)
      → s.stop ≡ false
      → (turn now senders s).stop ≡ false
  unfolding turn poll
  turn-stop now senders s h =
      if_cases (λ (r : TimerService M). r.stop ≡ false) s.stop (λ e. h)
        (λ e. fire_each-stop senders (poll now s).due (poll now s) ∙ h)

  module _ (id start interval : ℕ) (actor_id : ActorId) (m : M) (senders : HashMap ℕ) (mailbox : ℕ)
      (known : lookup actor_id.raw senders ≡ some mailbox) where
    abbrev nth : ℕ → TimerEntry M
    nth n = periodic id (start + n * interval) interval actor_id m

    send_known : send_if_known senders actor_id m ≡ (actor_id, m) ∷ []
    unfolding send_if_known
    send_known = rw (known, send_if_known) refl

    -- The lists after a turn, by whether the timer is due.
    abbrev timers_after : Bool → ℕ → List (TimerEntry M)
    timers_after b n =
        (if not b then nth n ∷ [] else []) ++ next_times (if b then nth n ∷ [] else [])

    abbrev sent_after : Bool → ℕ → List (ActorId × M)
    sent_after b n = all_sends senders (if b then nth n ∷ [] else [])

    next_time : (n : ℕ) → (start + n * interval) + interval ≡ start + suc n * interval
    next_time n = omega arith

    turn-HasTicked :
        (now n : ℕ) (s : TimerService M)
        → HasTicked id start interval actor_id m n s
        → (k : ℕ) × HasTicked id start interval actor_id m k (turn now senders s)
    unfolding loaded retain all_sends next_times sends rescheduled call
    turn-HasTicked now n s h =
        let t = nth n in
        let done = turn_lem now senders s h.running h.sound (rw h.next (refl, tt)) in
        let timers =
          done.1
          ∙ ap (λ ts. retain (λ t'. not (is_due now t')) ts ++ next_times (retain (is_due now) ts))
              h.next in
        let sent =
          done.0 ∙ ap (λ ts. s.sent ++ all_sends senders (retain (is_due now) ts)) h.next in
        elim (Bool-cases (is_due now t)) [
          | inl due ↦ (
            suc n,
            record {
              running = turn-stop now senders s h.running;
              sound = done.2;
              next =
                  timers
                  ∙ ap (λ b. timers_after b n) due
                  ∙ ap (λ at. periodic id at interval actor_id m ∷ []) (next_time n);
              ticks =
                  sent
                  ∙ ap (λ b. s.sent ++ sent_after b n) due
                  ∙ ap (λ ms. s.sent ++ (ms ++ [])) send_known
                  ∙ ap (λ ms. ms ++ (actor_id, m) ∷ []) h.ticks
                  ∙ replicate-snoc n (actor_id, m);
            },
          )
          | inr early ↦ (
            n,
            record {
              running = turn-stop now senders s h.running;
              sound = done.2;
              next = timers ∙ ap (λ b. timers_after b n) early;
              ticks = sent ∙ ap (λ b. s.sent ++ sent_after b n) early ∙ append-nil s.sent ∙ h.ticks;
            },
          )
        ]

    -- A periodic timer does not drift. If it is the only timer of a running service and its actor is
    -- known, then after turns of the thread at any times (no other thread between them) it has sent
    -- its message some number `k` of times, only to its actor, and it is due at its first time
    -- plus `k` intervals, however late the turns were.
    pub turns-HasTicked :
        (nows : List ℕ) (n : ℕ) (s : TimerService M)
        → HasTicked id start interval actor_id m n s
        → (k : ℕ) × HasTicked id start interval actor_id m k (turns senders nows s)
    unfolding turns
    turns-HasTicked [] n s h = (n, h)
    turns-HasTicked (now ∷ nows) n s h =
        let one = turn-HasTicked now n s h in turns-HasTicked nows one.0 (turn now senders s) one.1
