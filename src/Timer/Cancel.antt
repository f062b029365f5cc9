-- ===== src/Timer/Cancel.antt =====
-- src/timer/service.rs: `cancel` against the thread that delivers. The thread takes the due timers
-- out of the list, releases the lock, delivers, and puts the periodic ones back: a cancellation may
-- come between.
use runact.Prelude.{
  if_cases, ℕ, ◌+◌, ◌≡◌, refl, ap, Bool, true, false, not, some, List, [], ◌∷◌, ◌++◌, All, ◌==◌,
}
use runact.Actor.ActorId.{ActorId}
use runact.Prelude.HashMap.{HashMap}
use runact.Timer.{
  TimerEntry, TimerService, cloned, retain, cancel, fire_next, fire, rescheduled, call,
  send_if_known,
}

not-true : {b : Bool} → not b ≡ true → b ≡ false
not-true {b = true} h = absurd (cc)
not-true {b = false} h = refl

module _ {M : Type 0} where
  abbrev pub periodic : (id scheduled_at interval : ℕ) (actor_id : ActorId) (m : M) → TimerEntry M
  periodic id scheduled_at interval actor_id m = record {
    id = id;
    actor_id = actor_id;
    scheduled_at = scheduled_at;
    factory = cloned m;
    interval = some interval;
  }

  -- No timer in the list has the id.
  unfoldable pub Lacks : ℕ → List (TimerEntry M) → Type 0
  Lacks id ts = All (λ t. (t.id == id) ≡ false) ts

  retain-Lacks : (id : ℕ) (ts : List (TimerEntry M)) → Lacks id (retain (λ t. not (t.id == id)) ts)
  unfolding Lacks retain
  retain-Lacks id [] = tt
  retain-Lacks id (t ∷ ts) =
      if_cases (Lacks id) (not (t.id == id)) (λ h. (not-true h, retain-Lacks id ts))
        (λ h. retain-Lacks id ts)

  -- After `cancel` no timer in the list has the id, and what the thread has already taken out stays as
  -- it is.
  cancel-Lacks : (id : ℕ) (s : TimerService M) → Lacks id (cancel id s).timers
  unfolding cancel
  cancel-Lacks id s = retain-Lacks id s.timers

  -- A cancellation that comes while the thread delivers is lost: if a periodic timer with this id
  -- heads the due timers, no timer in the list has its id after `cancel`; but once the thread has
  -- delivered it, it stands at the end of the list again, one interval later.
  pub fire_next-cancel :
      (senders : HashMap ℕ) (id scheduled_at interval : ℕ) (actor_id : ActorId) (m : M)
      (due : List (TimerEntry M)) (s : TimerService M)
      → s.due ≡ periodic id scheduled_at interval actor_id m ∷ due
      → let cancelled = cancel id s in
        let fired = fire_next senders cancelled.due cancelled in
        Lacks id cancelled.timers
        × (fired.timers
            ≡ cancelled.timers ++ periodic id (scheduled_at + interval) interval actor_id m ∷ [])
        × (fired.sent ≡ s.sent ++ send_if_known senders actor_id m)
  unfolding cancel fire_next fire call rescheduled
  fire_next-cancel senders id scheduled_at interval actor_id m due s d = (
    cancel-Lacks id s,
    ap (λ ts. (fire_next senders ts (cancel id s)).timers) d,
    ap (λ ts. (fire_next senders ts (cancel id s)).sent) d,
  )
