-- ===== src/Timer/Unique.antt =====
-- src/timer/service.rs: the ids of the timers, and the messages of one-shot timers, over every order of
-- calls and steps of the thread.
use runact.Prelude.{ℕ, ◌+◌, ◌^◌, ◌<◌, ◌≤◌, ◌≡◌, refl, false, List, [], ◌∷◌, length, arith, if_cases}
use runact.Actor.Error.{RuntimeError, Result}
use runact.Timer.{
  TimerService, TimerEntry, MessageFactory, taken_once, cloned, new, new_id, schedule, cancel,
  retain, is_due, poll, fire, call, rescheduled, send_if_known, fire_next, shutdown,
}
use runact.Timer
use runact.Prelude.{Option, ◌||◌, ltb, ◌%◌}
use runact.Prelude.HashMap.{HashMap}
use runact.Timer.Clock.{
  pushed, poll_next, reschedule_fails, fire_timer, Clock, Event, schedules, repeats,
  context_schedules, context_repeats, cancels, context_cancels, polls, fires, stops, schedule_timer,
  schedule_interval, cancel_timer, context_schedule_timer, context_schedule_interval,
  context_cancel_timer, fire_one, step, run, start,
}
use runact.Timer.Armed.{count, IsGood, push-IsGood, cancel-IsGood}
use runact.Timer.Steps.{poll_next-IsGood, fire_one-IsGood}

module _ {M : Type 0} where
  step-IsGood : (c : Clock M) (e : Event M) → c.counter + 1 < 2 ^ 64 → IsGood c → IsGood (step c e)
  unfolding step schedule_timer schedule_interval context_schedule_timer context_schedule_interval
      context_cancel_timer fire_one shutdown schedule Timer.schedule_interval new_id
  step-IsGood c (schedules now duration a m) small h =
      push-IsGood c _ (now + duration) refl tt small h
  step-IsGood c (repeats now interval a m) small h =
      push-IsGood c _ (now + interval) refl tt small h
  step-IsGood c (context_schedules ctx now duration m) small h =
      if_cases (λ (r : Option (Result ℕ RuntimeError) × Clock M). IsGood r.1) ctx.timer_handle
        (λ _. push-IsGood c _ (now + duration) refl tt small h) (λ _. h)
  step-IsGood c (context_repeats ctx now interval m) small h =
      if_cases (λ (r : Option (Result ℕ RuntimeError) × Clock M). IsGood r.1) ctx.timer_handle
        (λ _. push-IsGood c _ (now + interval) refl tt small h) (λ _. h)
  step-IsGood c (cancels id) small h = cancel-IsGood c id h
  step-IsGood c (context_cancels ctx id) small h =
      if_cases (λ (r : Option (Unit {0}) × Clock M). IsGood r.1) ctx.timer_handle
        (λ _. cancel-IsGood c id h) (λ _. h)
  step-IsGood c (polls now) small h = poll_next-IsGood c now c.service.due refl h
  step-IsGood c (fires senders) small h = fire_one-IsGood senders c h
  step-IsGood c stops small h = record {
    unique = h.unique;
    waiting = h.waiting;
    taken = h.taken;
    alive = h.alive;
    fine = h.fine;
  }

  CountsUp : Clock M → Clock M → Type 0
  CountsUp c c' = c'.counter ≤ c.counter + 1

  pushed-CountsUp :
      (c : Clock M) (id at : ℕ) (s : TimerService M)
      → c.counter + 1 < 2 ^ 64
      → CountsUp c (pushed id at s (record c { counter = (c.counter + 1) % 2 ^ 64 })).1
  unfolding pushed CountsUp
  pushed-CountsUp c id at s small =
      let P = λ (r : Option ℕ × Clock M). r.1.counter ≤ c.counter + 1 in
      if_cases P c.poisoned (λ _. omega arith)
        (λ _. if_cases P (ltb c.latest at) (λ _. omega arith) (λ _. omega arith))

  cancel_timer-CountsUp : (c : Clock M) (id : ℕ) → CountsUp c (cancel_timer id c).1
  unfolding cancel_timer CountsUp
  cancel_timer-CountsUp c id =
      if_cases (λ (r : Option (Unit {0}) × Clock M). r.1.counter ≤ c.counter + 1) c.poisoned
        (λ _. omega arith) (λ _. omega arith)

  poll_next-CountsUp :
      (c : Clock M) (now : ℕ) (due : List (TimerEntry M)) → CountsUp c (poll_next now due c)
  unfolding poll_next CountsUp
  poll_next-CountsUp c now [] =
      let P = λ (r : Clock M). r.counter ≤ c.counter + 1 in
      if_cases P (c.service.stop || c.service.panicked || c.died) (λ _. omega arith)
        (λ _. if_cases P c.poisoned (λ _. omega arith) (λ _. omega arith))
  poll_next-CountsUp c now (t ∷ due) = omega arith

  fire_timer-CountsUp :
      (senders : HashMap ℕ) (c : Clock M) (due : List (TimerEntry M))
      → CountsUp c (fire_timer senders due c)
  unfolding fire_timer CountsUp
  fire_timer-CountsUp senders c [] = omega arith
  fire_timer-CountsUp senders c (t ∷ due) =
      let P = λ (r : Clock M). r.counter ≤ c.counter + 1 in
      if_cases P (fire_next senders (t ∷ due) c.service).panicked (λ _. omega arith)
        (λ _.
          if_cases P (reschedule_fails c t.scheduled_at t.interval) (λ _. omega arith)
            (λ _. omega arith))

  step-CountsUp : (c : Clock M) (e : Event M) → c.counter + 1 < 2 ^ 64 → CountsUp c (step c e)
  unfolding step schedule_timer schedule_interval context_schedule_timer context_schedule_interval
      context_cancel_timer fire_one new_id CountsUp
  step-CountsUp c (schedules now duration a m) small = pushed-CountsUp c _ _ _ small
  step-CountsUp c (repeats now interval a m) small = pushed-CountsUp c _ _ _ small
  step-CountsUp c (context_schedules ctx now duration m) small =
      if_cases (λ (r : Option (Result ℕ RuntimeError) × Clock M). r.1.counter ≤ c.counter + 1)
        ctx.timer_handle (λ _. pushed-CountsUp c _ _ _ small) (λ _. omega arith)
  step-CountsUp c (context_repeats ctx now interval m) small =
      if_cases (λ (r : Option (Result ℕ RuntimeError) × Clock M). r.1.counter ≤ c.counter + 1)
        ctx.timer_handle (λ _. pushed-CountsUp c _ _ _ small) (λ _. omega arith)
  step-CountsUp c (cancels id) small = cancel_timer-CountsUp c id
  step-CountsUp c (context_cancels ctx id) small =
      if_cases (λ (r : Option (Unit {0}) × Clock M). r.1.counter ≤ c.counter + 1) ctx.timer_handle
        (λ _. cancel_timer-CountsUp c id) (λ _. omega arith)
  step-CountsUp c (polls now) small = poll_next-CountsUp c now c.service.due
  step-CountsUp c (fires senders) small =
      if_cases (λ (r : Clock M). r.counter ≤ c.counter + 1) (c.service.panicked || c.died)
        (λ _. omega arith) (λ _. fire_timer-CountsUp senders c c.service.due)
  step-CountsUp c stops small = omega arith

  run-IsGood :
      (c : Clock M) (es : List (Event M))
      → c.counter + length es < 2 ^ 64
      → IsGood c
      → IsGood (run c es)
  unfolding run CountsUp
  run-IsGood c [] small h = h
  run-IsGood c (e ∷ es) small h =
      run-IsGood (step c e) es (omega (arith, step-CountsUp c e (omega arith)))
        (step-IsGood c e (omega arith) h)

  start-IsGood : (counter latest : ℕ) → IsGood (start {M = M} counter latest)
  unfolding new
  start-IsGood counter latest = record {
    unique = λ i. omega arith;
    waiting = tt;
    taken = tt;
    alive = refl;
    fine = λ e. refl;
  }

  -- From an empty list of timers, after any events in any order (schedules and cancellations by the
  -- runtime, by contexts and by handles, polls and deliveries of the thread, the stop flag), of which
  -- there are fewer than the ids left in the 64-bit counter, and at any times and durations, those
  -- included whose sum panics under the lock and poisons it: no two timers have the same id, whether
  -- they wait in the list or have been taken out by the thread, so a cancellation removes one timer at
  -- most; the thread has not panicked with "timer fired twice"; and it has not panicked at the lock or
  -- at a sum unless the lock is poisoned.
  pub run-Unique :
      (counter latest : ℕ) (es : List (Event M)) (id : ℕ)
      → counter + length es < 2 ^ 64
      → let c = run (start counter latest) es in
        (count id c.service ≤ 1)
        × (c.service.panicked ≡ false)
        × (c.poisoned ≡ false → c.died ≡ false)
  run-Unique counter latest es id small =
      let h = run-IsGood (start counter latest) es small (start-IsGood counter latest) in
      (ground (arith, h.unique id), h.alive, h.fine)
