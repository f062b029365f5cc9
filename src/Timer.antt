-- ===== src/Timer.antt =====
-- src/timer/service.rs: timers, and the thread that delivers them. An `Instant` and a `Duration` are
-- numbers of nanoseconds. The list of timers is behind a mutex, and each operation here is one critical
-- section in which no sum of an instant and a duration is too large, and whose lock is not poisoned;
-- Timer/Clock adds both panics, which stop the caller, or the thread, before the list changes. `sent`
-- records the messages that the thread hands to the sender of an actor; the call blocks while the
-- mailbox is full (see Runtime), and its result is dropped.
pub mod Collect
pub mod Cancel
pub mod Ticks
pub mod Drift
pub mod Clock
pub mod Armed
pub mod Steps
pub mod Unique
pub mod Values
pub mod Tests
use runact.Prelude.{
  ℕ, suc, zero, ◌+◌, ◌%◌, ◌^◌, Bool, true, false, not, Option, none, some, List, [], ◌∷◌, ◌++◌,
  length, get_elem?, leb, ◌==◌, if◌then◌else◌,
}
use runact.Prelude.HashMap.{HashMap, lookup}
use runact.Actor.ActorId.{ActorId}

-- The closure that makes the message of a timer: one that is taken once, or one that is cloned.
pub data MessageFactory (M : Type 0) : Type 0 where
  taken_once : Option M → MessageFactory M
  cloned : M → MessageFactory M

-- `factory()`; `none` is the panic "timer fired twice".
unfoldable pub call : {M : Type 0} → MessageFactory M → Option M × MessageFactory M
call (taken_once m) = (m, taken_once none)
call (cloned m) = (some m, cloned m)

pub record TimerEntry (M : Type 0) : Type 0 where
  pub id : ℕ
  pub actor_id : ActorId
  pub scheduled_at : ℕ
  pub factory : MessageFactory M
  pub interval : Option ℕ

-- The service with its thread: `due` is what the thread has taken out and not yet delivered.
pub record TimerService (M : Type 0) : Type 0 where
  pub timers : List (TimerEntry M)
  pub stop : Bool
  pub due : List (TimerEntry M)
  pub sent : List (ActorId × M)
  pub panicked : Bool

unfoldable pub new : {M : Type 0} → TimerService M
new = record { timers = []; stop = false; due = []; sent = []; panicked = false }

-- `COUNTER.fetch_add(1)`
unfoldable pub new_id : (counter : ℕ) → ℕ × ℕ
new_id counter = (counter, (counter + 1) % 2 ^ 64)

module _ {M : Type 0} where
  unfoldable pub schedule :
      (id now duration : ℕ) (actor_id : ActorId) (message : M) → TimerService M → TimerService M
  schedule id now duration actor_id message s = record s {
    timers =
        s.timers
        ++ record {
          id = id;
          actor_id = actor_id;
          scheduled_at = now + duration;
          factory = taken_once (some message);
          interval = none;
        }
          ∷ [];
  }

  unfoldable pub schedule_interval :
      (id now interval : ℕ) (actor_id : ActorId) (message : M) → TimerService M → TimerService M
  schedule_interval id now interval actor_id message s = record s {
    timers =
        s.timers
        ++ record {
          id = id;
          actor_id = actor_id;
          scheduled_at = now + interval;
          factory = cloned message;
          interval = some interval;
        }
          ∷ [];
  }

  -- `timers.retain(|t| t.id != timer_id)`
  unfoldable pub retain : (TimerEntry M → Bool) → List (TimerEntry M) → List (TimerEntry M)
  retain p [] = []
  retain p (t ∷ ts) = let rest = retain p ts in if p t then t ∷ rest else rest

  unfoldable pub cancel : (timer_id : ℕ) → TimerService M → TimerService M
  unfolding retain
  cancel timer_id s = record s { timers = retain (λ t. not (t.id == timer_id)) s.timers }

  -- `timers.remove(i)`
  unfoldable pub remove : List (TimerEntry M) → ℕ → List (TimerEntry M)
  remove [] i = []
  remove (t ∷ ts) zero = ts
  remove (t ∷ ts) (suc i) = t ∷ remove ts i

  abbrev pub is_due : ℕ → TimerEntry M → Bool
  is_due now t = leb t.scheduled_at now

  -- The body of the loop at index `i`: the next index, the timers and the due timers.
  unfoldable pub collect_entry :
      (due_now : Bool) (i : ℕ)
      → TimerEntry M
      → List (TimerEntry M)
      → List (TimerEntry M)
      → ℕ × List (TimerEntry M) × List (TimerEntry M)
  unfolding remove
  collect_entry true i t timers due = (i, remove timers i, due ++ t ∷ [])
  collect_entry false i t timers due = (i + 1, timers, due)

  unfoldable pub collect_at :
      (now i : ℕ)
      → Option (TimerEntry M)
      → List (TimerEntry M)
      → List (TimerEntry M)
      → ℕ × List (TimerEntry M) × List (TimerEntry M)
  unfolding collect_entry
  collect_at now i none timers due = (i, timers, due)
  collect_at now i (some t) timers due = collect_entry (is_due now t) i t timers due

  -- The `while i < timers.len()` loop. Each turn lowers `timers.len() - i` by one, so that number is
  -- fuel enough; a turn past the end changes nothing.
  unfoldable pub collect :
      (fuel now i : ℕ)
      → List (TimerEntry M)
      → List (TimerEntry M)
      → List (TimerEntry M) × List (TimerEntry M)
  unfolding collect_at
  collect zero now i timers due = (timers, due)
  collect (suc fuel) now i timers due =
      let (i', timers', due') = collect_at now i (get_elem? timers i) timers due in
      collect fuel now i' timers' due'

  unfoldable pub poll : (now : ℕ) → TimerService M → TimerService M
  unfolding collect
  poll now s =
      let (timers, due) = collect (length s.timers) now 0 s.timers [] in
      record s { timers = timers; due = due }

  -- A periodic timer goes back with its next time.
  unfoldable pub rescheduled : Option ℕ → MessageFactory M → TimerEntry M → List (TimerEntry M)
  rescheduled none factory t = []
  rescheduled (some interval) factory t =
      record t {
        scheduled_at = t.scheduled_at + interval;
        factory = factory;
        interval = some interval;
      }
      ∷ []

  unfoldable pub send_if_known : HashMap ℕ → ActorId → M → List (ActorId × M)
  send_if_known senders actor_id m = elim (lookup actor_id.raw senders) [
    | none ↦ []
    | some mailbox ↦ (actor_id, m) ∷ []
  ]

  -- One turn of the `for` loop over the due timers.
  unfoldable pub fire :
      HashMap ℕ → TimerEntry M → Option M × MessageFactory M → TimerService M → TimerService M
  unfolding rescheduled send_if_known
  fire senders t (none, factory) s = record s { panicked = true }
  fire senders t (some m, factory) s = record s {
    sent = s.sent ++ send_if_known senders t.actor_id m;
    timers = s.timers ++ rescheduled t.interval factory t;
  }

  unfoldable pub fire_next : HashMap ℕ → List (TimerEntry M) → TimerService M → TimerService M
  unfolding fire call
  fire_next senders [] s = s
  fire_next senders (t ∷ due) s = fire senders t (call t.factory) (record s { due = due })

  -- The `for` loop, when no other thread comes between its turns. A panic ends the thread.
  unfoldable pub fire_each : HashMap ℕ → List (TimerEntry M) → TimerService M → TimerService M
  unfolding fire call
  fire_each senders [] s = s
  fire_each senders (t ∷ due) s =
      let s' = fire senders t (call t.factory) (record s { due = due }) in
      let rest = fire_each senders due s' in if s'.panicked then s' else rest

  -- One turn of the thread's `loop`; once the stop flag is set, the loop has ended.
  unfoldable pub turn : (now : ℕ) → HashMap ℕ → TimerService M → TimerService M
  unfolding poll fire_each
  turn now senders s = if s.stop then s else fire_each senders (poll now s).due (poll now s)

  unfoldable pub shutdown : TimerService M → TimerService M
  shutdown s = record s { stop = true }
