-- ===== src/Timer/Ticks.antt =====
-- src/timer/service.rs: a turn of the thread.
use runact.Prelude.{
  if◌then◌else◌, ℕ, ◌≡◌, refl, ap, ◌∙◌, sym, Bool, true, false, not, some, none, List, [], ◌∷◌,
  ◌++◌, All, if_false, if_cases, append-nil, append_assoc,
}
use runact.Prelude.HashMap.{HashMap}
use runact.Actor.ActorId.{ActorId}
use runact.Timer.{
  TimerEntry, TimerService, MessageFactory, taken_once, cloned, retain, poll, fire_each, fire,
  rescheduled, call, send_if_known, turn, is_due,
}
use runact.Timer.Collect.{poll_lem}

module _ {M : Type 0} where
  -- A timer whose message has not been taken.
  unfoldable pub loaded : MessageFactory M → Bool
  loaded (taken_once none) = false
  loaded (taken_once (some m)) = true
  loaded (cloned m) = true

  -- What a timer sends, and what it leaves in the list, when it fires.
  unfoldable pub sends : HashMap ℕ → ActorId → MessageFactory M → List (ActorId × M)
  sends senders actor_id (taken_once none) = []
  sends senders actor_id (taken_once (some m)) = send_if_known senders actor_id m
  sends senders actor_id (cloned m) = send_if_known senders actor_id m

  unfoldable pub all_sends : HashMap ℕ → List (TimerEntry M) → List (ActorId × M)
  all_sends senders [] = []
  all_sends senders (t ∷ ts) = sends senders t.actor_id t.factory ++ all_sends senders ts

  unfoldable pub next_times : List (TimerEntry M) → List (TimerEntry M)
  next_times [] = []
  next_times (t ∷ ts) = rescheduled t.interval (call t.factory).1 t ++ next_times ts

  fire-loaded :
      (senders : HashMap ℕ) (t : TimerEntry M) (f : MessageFactory M) (s : TimerService M)
      → loaded f ≡ true
      → fire senders t (call f) s ≡ record s {
        sent = s.sent ++ sends senders t.actor_id f;
        timers = s.timers ++ rescheduled t.interval (call f).1 t;
      }
  unfolding loaded sends fire call
  fire-loaded senders t (taken_once none) s h = absurd (cc)
  fire-loaded senders t (taken_once (some m)) s h = refl
  fire-loaded senders t (cloned m) s h = refl

  fire_each_lem :
      (senders : HashMap ℕ) (due : List (TimerEntry M)) (s : TimerService M)
      → All (λ t. loaded t.factory ≡ true) due
      → s.panicked ≡ false
      → ((fire_each senders due s).sent ≡ s.sent ++ all_sends senders due)
        × ((fire_each senders due s).timers ≡ s.timers ++ next_times due)
        × ((fire_each senders due s).panicked ≡ false)
  unfolding fire_each all_sends next_times
  fire_each_lem senders [] s h ok = (sym (append-nil s.sent), sym (append-nil s.timers), ok)
  fire_each_lem senders (t ∷ due) s h ok =
      let s' = record s {
        sent = s.sent ++ sends senders t.actor_id t.factory;
        timers = s.timers ++ rescheduled t.interval (call t.factory).1 t;
        due = due;
      } in
      let one =
        ap (λ r. if r.panicked then r else fire_each senders due r)
          (fire-loaded senders t t.factory (record s { due = due }) h.0)
        ∙ if_false s' (fire_each senders due s') ok in
      let rest = fire_each_lem senders due s' h.1 ok in
      (
        ap (λ r. r.sent) one
            ∙ rest.0
            ∙ append_assoc s.sent (sends senders t.actor_id t.factory) (all_sends senders due),
        ap (λ r. r.timers) one
            ∙ rest.1
            ∙ append_assoc s.timers (rescheduled t.interval (call t.factory).1 t) (next_times due),
        ap (λ r. r.panicked) one ∙ rest.2,
      )

  pub All-retain :
      (P : TimerEntry M → Type 0) (p : TimerEntry M → Bool) (ts : List (TimerEntry M))
      → All P ts
      → All P (retain p ts)
  unfolding retain
  All-retain P p [] h = tt
  All-retain P p (t ∷ ts) h =
      if_cases (All P) (p t) (λ e. (h.0, All-retain P p ts h.1)) (λ e. All-retain P p ts h.1)

  -- A turn of the timer thread (not stopped, no other thread between its steps, every one-shot
  -- message still there) sends the messages of exactly the due timers whose actor is known, in the
  -- order of the list, leaves the others, puts each due periodic timer back one interval after the
  -- time for which it was set, and does not panic.
  pub turn_lem :
      (now : ℕ) (senders : HashMap ℕ) (s : TimerService M)
      → s.stop ≡ false
      → s.panicked ≡ false
      → All (λ t. loaded t.factory ≡ true) s.timers
      → ((turn now senders s).sent ≡ s.sent ++ all_sends senders (retain (is_due now) s.timers))
        × ((turn now senders s).timers
            ≡ retain (λ t. not (is_due now t)) s.timers
              ++ next_times (retain (is_due now) s.timers))
        × ((turn now senders s).panicked ≡ false)
  unfolding turn poll
  turn_lem now senders s running ok h =
      let due = retain (is_due now) s.timers in
      let taken = poll_lem now s in
      let go =
        if_false s (fire_each senders (poll now s).due (poll now s)) running
        ∙ ap (λ d. fire_each senders d (poll now s)) taken.0 in
      let fired =
        fire_each_lem senders due (poll now s)
          (All-retain (λ t. loaded t.factory ≡ true) (is_due now) s.timers h) ok in
      (
        ap (λ r. r.sent) go ∙ fired.0,
        ap (λ r. r.timers) go ∙ fired.1 ∙ ap (λ ts. ts ++ next_times due) taken.1,
        ap (λ r. r.panicked) go ∙ fired.2,
      )
