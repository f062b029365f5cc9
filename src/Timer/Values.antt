-- ===== src/Timer/Values.antt =====
-- src/timer/types.rs: timers as values, which the service does not use. `now` is what `Instant::now()`
-- gives; `counter` is the static counter of `TimerId::new`, which is another than that of the
-- service.
use native.Mathlib.Nat.{add-mul, one-mul}
use runact.Prelude.{
  inr, inl, Bool-cases, ℕ, ◌+◌, ◌*◌, ◌%◌, ◌^◌, ◌≤◌, ◌≡◌, Bool, true, false, Option, none, some,
  List, [], ◌∷◌, arith, leb, leb→le, ap, inl, inr, Bool-cases, if◌then◌else◌,
}
use runact.Actor.ActorId.{ActorId}

pub record TimerConfig (M : Type 0) : Type 0 where
  pub id : ℕ
  pub actor_id : ActorId
  pub scheduled_at : ℕ
  pub message : M
  pub interval : Option ℕ

pub record Timer (M : Type 0) : Type 0 where
  pub id : ℕ
  pub actor_id : ActorId
  pub scheduled_at : ℕ
  pub message : M
  pub interval : Option ℕ

-- `COUNTER.fetch_add(1)`
unfoldable pub new_id : (counter : ℕ) → ℕ × ℕ
new_id counter = (counter, (counter + 1) % 2 ^ 64)

module _ {M : Type 0} where
  unfoldable pub after : (counter now duration : ℕ) → ActorId → M → Timer M × ℕ
  unfolding new_id
  after counter now duration actor_id message =
      let (id, counter') = new_id counter in
      (
        record {
          id = id;
          actor_id = actor_id;
          scheduled_at = now + duration;
          message = message;
          interval = none;
        },
        counter',
      )

  unfoldable pub every : (counter now interval : ℕ) → ActorId → M → Timer M × ℕ
  unfolding new_id
  every counter now interval actor_id message =
      let (id, counter') = new_id counter in
      (
        record {
          id = id;
          actor_id = actor_id;
          scheduled_at = now + interval;
          message = message;
          interval = some interval;
        },
        counter',
      )

  unfoldable pub is_due : (now : ℕ) → Timer M → Bool
  is_due now t = leb t.scheduled_at now

  unfoldable pub is_periodic : Timer M → Bool
  is_periodic t = elim t.interval [ none ↦ false | some interval ↦ true ]

  unfoldable pub rescheduled_at : (now : ℕ) → Option ℕ → Timer M → Timer M
  rescheduled_at now none t = t
  rescheduled_at now (some interval) t = record t { scheduled_at = now + interval }

  unfoldable pub reschedule : (now : ℕ) → Timer M → Timer M
  unfolding rescheduled_at
  reschedule now t = rescheduled_at now t.interval t

  -- A loop that polls a timer at the times of the list: it reschedules it whenever it is due, and counts
  -- how often that was.
  unfoldable pub ticks : List ℕ → Timer M → ℕ × Timer M
  unfolding is_due reschedule
  ticks [] t = (0, t)
  ticks (now ∷ nows) t =
      let late = ticks nows (reschedule now t) in
      let early = ticks nows t in if is_due now t then (late.0 + 1, late.1) else early

  -- The time of a periodic timer that is rescheduled whenever it is found due moves by at least one
  -- interval for each time it fired; the interval stays.
  pub ticks_lem :
      (nows : List ℕ) (interval : ℕ) (t : Timer M)
      → t.interval ≡ some interval
      → (t.scheduled_at + (ticks nows t).0 * interval ≤ (ticks nows t).1.scheduled_at)
        × ((ticks nows t).1.interval ≡ some interval)
  unfolding ticks reschedule is_due rescheduled_at
  ticks_lem [] interval t e = (omega arith, e)
  ticks_lem (now ∷ nows) interval t e = elim (Bool-cases (leb t.scheduled_at now)) [
    | inl due ↦
        let t' = record t { scheduled_at = now + interval } in
        let same : reschedule now t ≡ t' = ap (λ o. rescheduled_at now o t) e in
        let (later, kept) = ticks_lem nows interval t' e in
        let k = (ticks nows t').0 in
        rw (due, same)
          (
            omega (
              arith,
              later,
              leb→le t.scheduled_at now due,
              add-mul k 1 interval,
              one-mul interval,
            ),
            kept,
          )
    | inr early ↦ rw early (ticks_lem nows interval t e)
  ]
