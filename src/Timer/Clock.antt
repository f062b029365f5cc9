-- ===== src/Timer/Clock.antt =====
-- src/timer/service.rs with its callers in src/runtime.rs and src/actor/context.rs: timers are made
-- with new ids, by the runtime and by the contexts of actors, while the thread takes out the
-- due ones and delivers them. An id is taken before the list is locked; which of two callers
-- pushes first does not matter here, and a call is one event.
use mathlib.Core.Option.{map}
use runact.Prelude.{
  Bool, true, false, Option, none, some, ltb, ◌+◌, ℕ, ◌||◌, List, [], ◌∷◌, if◌then◌else◌,
}
use runact.Prelude.HashMap.{HashMap}
use runact.Actor.ActorId.{ActorId}
use runact.Actor.Error.{RuntimeError, runtime_stopped, Result, ok, err}
use runact.Actor.Context.{ActorContext}
use runact.Timer.{
  TimerService, TimerEntry, new, new_id, schedule, cancel, poll, fire_next, shutdown,
}
use runact.Timer

-- With the mutex of the list, and the thread: a sum of an instant and a duration after `latest`, the last
-- instant of the platform, panics, and poisons the lock that is held; a later `lock().unwrap()` panics.
pub record Clock (M : Type 0) : Type 0 where
  pub counter : ℕ  -- the static counter of `TimerId::new`
  pub latest : ℕ
  pub poisoned : Bool
  pub died : Bool  -- the thread has panicked at the lock or at a sum
  pub service : TimerService M

module _ {M : Type 0} where
  -- The lock, then the sum `at`, then the push, which gives `service`; `none` is a panic of the caller.
  unfoldable pub pushed : (id at : ℕ) → TimerService M → Clock M → Option ℕ × Clock M
  pushed id at service c =
      if c.poisoned
      then (none, c)
      else if ltb c.latest at
      then (none, record c { poisoned = true })
      else (some id, record c { service = service })

  -- `TimerHandle::schedule_timer`, `TimerService::schedule` and `Runtime::schedule_timer`.
  unfoldable pub schedule_timer : (now duration : ℕ) → ActorId → M → Clock M → Option ℕ × Clock M
  unfolding new_id schedule pushed
  schedule_timer now duration actor_id message c =
      let (id, counter) = new_id c.counter in
      pushed id (now + duration) (schedule id now duration actor_id message c.service)
        (record c { counter = counter })

  -- `TimerHandle::schedule_interval`, `TimerService::schedule_interval` and
  -- `Runtime::schedule_interval`.
  unfoldable pub schedule_interval : (now interval : ℕ) → ActorId → M → Clock M → Option ℕ × Clock M
  unfolding new_id Timer.schedule_interval pushed
  schedule_interval now interval actor_id message c =
      let (id, counter) = new_id c.counter in
      pushed id (now + interval)
        (Timer.schedule_interval id now interval actor_id message c.service)
        (record c { counter = counter })

  -- `TimerHandle::cancel_timer`, `TimerService::cancel` and `Runtime::cancel_timer`.
  unfoldable pub cancel_timer : ℕ → Clock M → Option (Unit {0}) × Clock M
  unfolding cancel
  cancel_timer timer_id c =
      if c.poisoned then (none, c) else (some tt, record c { service = cancel timer_id c.service })

  -- The methods of `ActorContext`, for the actor of the context.
  unfoldable pub context_schedule_timer :
      ActorContext → (now duration : ℕ) → M → Clock M → Option (Result ℕ RuntimeError) × Clock M
  unfolding schedule_timer
  context_schedule_timer ctx now duration message c =
      let (id, c') = schedule_timer now duration ctx.actor_id message c in
      if ctx.timer_handle then (map ok id, c') else (some (err runtime_stopped), c)

  unfoldable pub context_schedule_interval :
      ActorContext → (now interval : ℕ) → M → Clock M → Option (Result ℕ RuntimeError) × Clock M
  unfolding schedule_interval
  context_schedule_interval ctx now interval message c =
      let (id, c') = schedule_interval now interval ctx.actor_id message c in
      if ctx.timer_handle then (map ok id, c') else (some (err runtime_stopped), c)

  unfoldable pub context_cancel_timer : ActorContext → ℕ → Clock M → Option (Unit {0}) × Clock M
  unfolding cancel_timer
  context_cancel_timer ctx timer_id c =
      if ctx.timer_handle then cancel_timer timer_id c else (some tt, c)

-- What happens to the timers, in any order.
pub data Event (M : Type 0) : Type 0 where
  schedules : (now duration : ℕ) → ActorId → M → Event M
  repeats : (now interval : ℕ) → ActorId → M → Event M
  context_schedules : ActorContext → (now duration : ℕ) → M → Event M
  context_repeats : ActorContext → (now interval : ℕ) → M → Event M
  cancels : ℕ → Event M
  context_cancels : ActorContext → ℕ → Event M
  polls : (now : ℕ) → Event M  -- the thread takes out the due timers
  fires : HashMap ℕ → Event M  -- the thread delivers the next of them
  stops : Event M

module _ {M : Type 0} where
  -- The thread polls again when it has delivered all that was due; a panic has ended it.
  unfoldable pub poll_next : (now : ℕ) → List (TimerEntry M) → Clock M → Clock M
  unfolding poll
  poll_next now [] c =
      if c.service.stop || c.service.panicked || c.died
      then c
      else if c.poisoned
      then record c { died = true }
      else record c { service = poll now c.service }
  poll_next now (t ∷ due) c = c

  -- Whether the lock for the reschedule, or the sum of the next time, panics.
  unfoldable pub reschedule_fails : Clock M → (scheduled_at : ℕ) → Option ℕ → Bool
  reschedule_fails c scheduled_at none = false
  reschedule_fails c scheduled_at (some interval) =
      c.poisoned || ltb c.latest (scheduled_at + interval)

  -- A panic at the reschedule comes after the send, and drops what else was due.
  unfoldable pub fire_timer : HashMap ℕ → List (TimerEntry M) → Clock M → Clock M
  unfolding fire_next reschedule_fails
  fire_timer senders [] c = c
  fire_timer senders (t ∷ due) c =
      let s = fire_next senders (t ∷ due) c.service in
      if s.panicked
      then record c { service = s }
      else if reschedule_fails c t.scheduled_at t.interval
      then record c {
        service = record s { timers = c.service.timers; due = [] };
        poisoned = true;
        died = true;
      }
      else record c { service = s }

  unfoldable pub fire_one : HashMap ℕ → Clock M → Clock M
  unfolding fire_timer
  fire_one senders c =
      if c.service.panicked || c.died then c else fire_timer senders c.service.due c

  unfoldable pub step : Clock M → Event M → Clock M
  unfolding schedule_timer schedule_interval context_schedule_timer context_schedule_interval
      cancel_timer context_cancel_timer poll_next fire_one shutdown
  step c (schedules now duration actor_id m) = (schedule_timer now duration actor_id m c).1
  step c (repeats now interval actor_id m) = (schedule_interval now interval actor_id m c).1
  step c (context_schedules ctx now duration m) = (context_schedule_timer ctx now duration m c).1
  step c (context_repeats ctx now interval m) = (context_schedule_interval ctx now interval m c).1
  step c (cancels id) = (cancel_timer id c).1
  step c (context_cancels ctx id) = (context_cancel_timer ctx id c).1
  step c (polls now) = poll_next now c.service.due c
  step c (fires senders) = fire_one senders c
  step c stops = record c { service = shutdown c.service }

  unfoldable pub run : Clock M → List (Event M) → Clock M
  unfolding step
  run c [] = c
  run c (e ∷ es) = run (step c e) es

abbrev pub start : {M : Type 0} → (counter latest : ℕ) → Clock M
start counter latest = record {
  counter = counter;
  latest = latest;
  poisoned = false;
  died = false;
  service = new;
}
