-- ===== src/Timer/Armed.antt =====
-- src/timer/service.rs: what each operation keeps of the timers: ids that are all different, and one-shot
-- timers that have their message.
use runact.Prelude.{
  ℕ, ◌+◌, ◌^◌, ◌%◌, ◌<◌, ◌≤◌, ◌≡◌, refl, Bool, false, not, Option, none, some, inl, inr, Bool-cases,
  List, [], ◌∷◌, ◌++◌, total, total-append, All, All-snoc, arith, if_cases, ltb, ◌==◌,
  if◌then◌else◌,
}
use runact.Timer.{TimerService, TimerEntry, MessageFactory, taken_once, cloned, cancel, retain}
use runact.Timer.Ticks.{All-retain}
use runact.Timer.Clock.{Clock, pushed, cancel_timer}
use runact.Prelude.{true}

module _ {M : Type 0} where
  -- 1 for a timer with the id `i`.
  abbrev pub with_id : ℕ → TimerEntry M → ℕ
  with_id i t = if t.id == i then 1 else 0

  -- A one-shot timer has its message; only a periodic one can go back.
  abbrev pub Armed : Option ℕ → MessageFactory M → Type 0
  Armed none (taken_once (some m)) = Unit
  Armed interval (taken_once m) = ⊥
  Armed interval (cloned m) = Unit

  abbrev pub IsArmed : TimerEntry M → Type 0
  IsArmed t = Armed t.interval t.factory

  -- How many timers have the id `i`, waiting or taken out by the thread.
  abbrev pub count : ℕ → TimerService M → ℕ
  count i s = total (with_id i) s.timers + total (with_id i) s.due

  pub record IsGood (c : Clock M) : Type 0 where
    pub unique : (i : ℕ) → count i c.service ≤ (if ltb i c.counter then 1 else 0)
    pub waiting : All IsArmed c.service.timers
    pub taken : All IsArmed c.service.due
    pub alive : c.service.panicked ≡ false
    pub fine : c.poisoned ≡ false → c.died ≡ false

  pub total-retain :
      (w : TimerEntry M → ℕ) (p : TimerEntry M → Bool) (ts : List (TimerEntry M))
      → total w (retain p ts) + total w (retain (λ t. not (p t)) ts) ≡ total w ts
  unfolding retain
  total-retain w p [] = refl
  total-retain w p (t ∷ ts) = elim (Bool-cases (p t)) [
    | inl e ↦ rw e (omega (arith, total-retain w p ts))
    | inr e ↦ rw e (omega (arith, total-retain w p ts))
  ]

  -- A timer that is made has the next id.
  appended-IsGood :
      (c : Clock M) (t : TimerEntry M)
      → t.id ≡ c.counter
      → IsArmed t
      → c.counter + 1 < 2 ^ 64
      → IsGood c
      → IsGood (record c {
        counter = (c.counter + 1) % 2 ^ 64;
        service = record c.service { timers = c.service.timers ++ t ∷ [] };
      })
  appended-IsGood c t own armed small h = record {
    unique = λ i.
        ground (arith, h.unique i, total-append (with_id i) c.service.timers (t ∷ []), own, small);
    waiting = All-snoc IsArmed c.service.timers h.waiting armed;
    taken = h.taken;
    alive = h.alive;
    fine = h.fine;
  }

  -- An id is taken, and no timer is made.
  skipped-IsGood :
      (c : Clock M) (poisoned : Bool)
      → c.counter + 1 < 2 ^ 64
      → (poisoned ≡ false → c.died ≡ false)
      → IsGood c
      → IsGood (record c { counter = (c.counter + 1) % 2 ^ 64; poisoned = poisoned })
  skipped-IsGood c poisoned small fine h = record {
    unique = λ i. ground (arith, h.unique i, small);
    waiting = h.waiting;
    taken = h.taken;
    alive = h.alive;
    fine = fine;
  }

  pub push-IsGood :
      (c : Clock M) (t : TimerEntry M) (at : ℕ)
      → t.id ≡ c.counter
      → IsArmed t
      → c.counter + 1 < 2 ^ 64
      → IsGood c
      → IsGood
          (pushed c.counter at
            (record c.service { timers = c.service.timers ++ t ∷ [] })
            (record c { counter = (c.counter + 1) % 2 ^ 64 })).1
  unfolding pushed
  push-IsGood c t at own armed small h =
      if_cases (λ (r : Option ℕ × Clock M). IsGood r.1) c.poisoned
        (λ _. skipped-IsGood c c.poisoned small h.fine h)
        (λ _.
          if_cases (λ (r : Option ℕ × Clock M). IsGood r.1) (ltb c.latest at)
            (λ _. skipped-IsGood c true small (λ e. absurd (cc)) h)
            (λ _. appended-IsGood c t own armed small h))

  pub cancel-IsGood : (c : Clock M) (id : ℕ) → IsGood c → IsGood (cancel_timer id c).1
  unfolding cancel_timer cancel
  cancel-IsGood c id h =
      if_cases (λ (r : Option (Unit {0}) × Clock M). IsGood r.1) c.poisoned (λ _. h)
        (λ _. record {
          unique = λ i. omega (
            arith,
            h.unique i,
            total-retain (with_id i) (λ t. not (t.id == id)) c.service.timers,
          );
          waiting = All-retain IsArmed (λ t. not (t.id == id)) c.service.timers h.waiting;
          taken = h.taken;
          alive = h.alive;
          fine = h.fine;
        })
