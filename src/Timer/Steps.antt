-- ===== src/Timer/Steps.antt =====
-- src/timer/service.rs: the steps of the thread keep the timers as Timer/Armed says.
use runact.Prelude.{
  All-append, ℕ, ◌+◌, ◌≤◌, ◌≡◌, refl, ap, sym, subst, false, ◌||◌, not, Option, none, some, List,
  [], ◌∷◌, ◌++◌, total, total-append, All, arith, if_cases,
}
use runact.Prelude.HashMap.{HashMap}
use runact.Actor.ActorId.{ActorId}
use runact.Timer.{
  TimerService, TimerEntry, MessageFactory, taken_once, cloned, is_due, poll, fire, call,
  rescheduled, send_if_known, fire_next,
}
use runact.Timer.Collect.{poll_lem}
use runact.Timer.Ticks.{All-retain}
use runact.Timer.Clock.{Clock, poll_next, reschedule_fails, fire_timer, fire_one}
use runact.Prelude.{true}
use runact.Timer.Armed.{with_id, IsArmed, IsGood, total-retain}

module _ {M : Type 0} where
  poll-alive : (now : ℕ) (s : TimerService M) → s.panicked ≡ false → (poll now s).panicked ≡ false
  unfolding poll
  poll-alive now s h = h

  poll-IsGood :
      (c : Clock M) (now : ℕ)
      → c.service.due ≡ []
      → IsGood c
      → IsGood (record c { service = poll now c.service })
  poll-IsGood c now idle h =
      let s = c.service in
      let taken = poll_lem now s in
      record {
        unique = λ i. omega (
          arith,
          h.unique i,
          ap (total (with_id i)) taken.0,
          ap (total (with_id i)) taken.1,
          total-retain (with_id i) (is_due now) s.timers,
        );
        waiting =
            subst (All IsArmed) (sym taken.1)
              (All-retain IsArmed (λ t. not (is_due now t)) s.timers h.waiting);
        taken =
            subst (All IsArmed) (sym taken.0) (All-retain IsArmed (is_due now) s.timers h.waiting);
        alive = poll-alive now s h.alive;
        fine = h.fine;
      }

  -- The first of the due timers is delivered, and what is in `back` returns to the list.
  delivered-IsGood :
      (c : Clock M) (t : TimerEntry M) (due back : List (TimerEntry M)) (sent : List (ActorId × M))
      → c.service.due ≡ t ∷ due
      → ((i : ℕ) → total (with_id i) back ≤ with_id i t)
      → All IsArmed back
      → IsGood c
      → IsGood (record c {
        service = record c.service { timers = c.service.timers ++ back; due = due; sent = sent };
      })
  delivered-IsGood c t due back sent e fewer armed h =
      let taken : All IsArmed (t ∷ due) = subst (All IsArmed) e h.taken in
      record {
        unique = λ i. omega (
          arith,
          h.unique i,
          fewer i,
          ap (total (with_id i)) e,
          total-append (with_id i) c.service.timers back,
        );
        waiting = All-append IsArmed c.service.timers back h.waiting armed;
        taken = taken.1;
        alive = h.alive;
        fine = h.fine;
      }

  -- The thread delivers a timer.
  fire-IsGood :
      (senders : HashMap ℕ) (c : Clock M) (id at : ℕ) (a : ActorId) (interval : Option ℕ)
      (f : MessageFactory M) (due : List (TimerEntry M))
      → let t : TimerEntry M = record {
        id = id;
        actor_id = a;
        scheduled_at = at;
        factory = f;
        interval = interval;
      } in
        c.service.due ≡ t ∷ due
        → IsGood c
        → IsGood (record c { service = fire senders t (call f) (record c.service { due = due }) })
  unfolding fire call rescheduled
  fire-IsGood senders c id at a none (taken_once (some m)) due e h =
      delivered-IsGood c _ due [] (c.service.sent ++ send_if_known senders a m) e (λ i. omega arith)
        tt h
  fire-IsGood senders c id at a none (taken_once none) due e h =
      absurd (subst (All IsArmed) e h.taken).0
  fire-IsGood senders c id at a (some interval) (taken_once m) due e h =
      absurd (subst (All IsArmed) e h.taken).0
  fire-IsGood senders c id at a none (cloned m) due e h =
      delivered-IsGood c _ due [] (c.service.sent ++ send_if_known senders a m) e (λ i. omega arith)
        tt h
  fire-IsGood senders c id at a (some interval) (cloned m) due e h =
      delivered-IsGood c _ due
        (record {
          id = id;
          actor_id = a;
          scheduled_at = at + interval;
          factory = cloned m;
          interval = some interval;
        }
          ∷ [])
        (c.service.sent ++ send_if_known senders a m) e (λ i. omega arith) (tt, tt) h

  pub fire_next-IsGood :
      (senders : HashMap ℕ) (c : Clock M) (due : List (TimerEntry M))
      → c.service.due ≡ due
      → IsGood c
      → IsGood (record c { service = fire_next senders due c.service })
  unfolding fire_next
  fire_next-IsGood senders c [] e h = h
  fire_next-IsGood senders c (t ∷ due) e h =
      fire-IsGood senders c t.id t.scheduled_at t.actor_id t.interval t.factory due e h

  pub poll_next-IsGood :
      (c : Clock M) (now : ℕ) (due : List (TimerEntry M))
      → c.service.due ≡ due
      → IsGood c
      → IsGood (poll_next now due c)
  unfolding poll_next
  poll_next-IsGood c now [] e h =
      if_cases IsGood (c.service.stop || c.service.panicked || c.died) (λ _. h)
        (λ _.
          if_cases IsGood c.poisoned
            (λ at. record {
              unique = h.unique;
              waiting = h.waiting;
              taken = h.taken;
              alive = h.alive;
              fine = λ e. absurd (cc (e, at));
            })
            (λ _. poll-IsGood c now e h))
  poll_next-IsGood c now (t ∷ due) e h = h

  -- A panic at the reschedule drops what was due.
  broken-IsGood :
      (c : Clock M) (s : TimerService M)
      → s.panicked ≡ false
      → IsGood c
      → IsGood (record c {
        service = record s { timers = c.service.timers; due = [] };
        poisoned = true;
        died = true;
      })
  broken-IsGood c s alive h = record {
    unique = λ i. omega (arith, h.unique i);
    waiting = h.waiting;
    taken = tt;
    alive = alive;
    fine = λ e. absurd (cc);
  }

  fire_timer-IsGood :
      (senders : HashMap ℕ) (c : Clock M) (due : List (TimerEntry M))
      → c.service.due ≡ due
      → IsGood c
      → IsGood (fire_timer senders due c)
  unfolding fire_timer
  fire_timer-IsGood senders c [] e h = h
  fire_timer-IsGood senders c (t ∷ due) e h =
      let s = fire_next senders (t ∷ due) c.service in
      let fired = fire_next-IsGood senders c (t ∷ due) e h in
      if_cases IsGood s.panicked (λ _. fired)
        (λ alive.
          if_cases IsGood (reschedule_fails c t.scheduled_at t.interval)
            (λ _. broken-IsGood c s alive h) (λ _. fired))

  pub fire_one-IsGood : (senders : HashMap ℕ) (c : Clock M) → IsGood c → IsGood (fire_one senders c)
  unfolding fire_one
  fire_one-IsGood senders c h =
      if_cases IsGood (c.service.panicked || c.died) (λ _. h)
        (λ _. fire_timer-IsGood senders c c.service.due refl h)
