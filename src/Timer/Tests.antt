-- ===== src/Timer/Tests.antt =====
-- src/timer/service.rs: runs on small inputs.
use runact.Prelude.{arith, ◌≤◌, List, false, ℕ, ◌≡◌, refl, [], ◌∷◌, ◌++◌}
use runact.Prelude.HashMap.{lookup}
use runact.Actor.ActorId
use runact.Timer.{
  TimerEntry, TimerService, new, turn, rescheduled, call, cancel, fire_next, poll, retain,
  send_if_known,
}
use runact.Timer.Ticks
use runact.Timer.Collect.{poll_lem}
use runact.Timer.Drift.{HasTicked, turns, turns-HasTicked}
use runact.Timer.Ticks.{turn_lem}
use runact.Timer.Clock.{Event, schedules, repeats, polls, fires, cancels, run, start}
use runact.Prelude.{true}
use runact.Timer.Armed.{count}
use runact.Timer.Unique.{run-Unique}
use runact.Timer.Cancel.{periodic, Lacks, fire_next-cancel}

abbrev tick : TimerEntry ℕ
tick = periodic 0 5 10 (ActorId.new 1) 42

abbrev late : TimerEntry ℕ
late = periodic 1 30 10 (ActorId.new 1) 43

abbrev waiting : TimerService ℕ
waiting = record new { timers = tick ∷ late ∷ [] }

abbrev delivering : TimerService ℕ
delivering = record new { timers = late ∷ []; due = tick ∷ [] }

poll_lem_example : ((poll 6 waiting).due ≡ tick ∷ []) × ((poll 6 waiting).timers ≡ late ∷ [])
unfolding new retain
poll_lem_example = poll_lem 6 waiting

fire_next-cancel_example :
    let cancelled = cancel 0 delivering in
    let fired = fire_next ((1, 0) ∷ []) cancelled.due cancelled in
    Lacks 0 cancelled.timers
    × (fired.timers ≡ cancelled.timers ++ periodic 0 15 10 (ActorId.new 1) 42 ∷ [])
    × (fired.sent ≡ [] ++ send_if_known ((1, 0) ∷ []) (ActorId.new 1) 42)
unfolding new
fire_next-cancel_example =
    fire_next-cancel ((1, 0) ∷ []) 0 5 10 (ActorId.new 1) 42 [] delivering refl

turn_lem_example :
    ((turn 6 ((1, 0) ∷ []) waiting).sent ≡ (ActorId.new 1, 42) ∷ [])
    × ((turn 6 ((1, 0) ∷ []) waiting).timers ≡ late ∷ periodic 0 15 10 (ActorId.new 1) 42 ∷ [])
    × ((turn 6 ((1, 0) ∷ []) waiting).panicked ≡ false)
unfolding new retain Ticks.all_sends Ticks.next_times Ticks.sends send_if_known rescheduled call
    lookup Ticks.loaded ActorId.new
turn_lem_example = turn_lem 6 ((1, 0) ∷ []) waiting refl refl (refl, (refl, tt))

abbrev ticking : TimerService ℕ
ticking = record { timers = tick ∷ []; stop = false; due = []; sent = []; panicked = false }

turns-HasTicked_example :
    (k : ℕ) × HasTicked 0 5 10 (ActorId.new 1) 42 k (turns ((1, 0) ∷ []) (3 ∷ 9 ∷ 40 ∷ []) ticking)
unfolding lookup ActorId.new
turns-HasTicked_example =
    turns-HasTicked 0 5 10 (ActorId.new 1) 42 ((1, 0) ∷ []) 0 refl (3 ∷ 9 ∷ 40 ∷ []) 0 ticking
      (record { running = refl; sound = refl; next = refl; ticks = refl })

-- A periodic timer and a one-shot timer, of which the second is due first, is delivered, and is
-- cancelled too late.
abbrev ringing : List (Event ℕ)
ringing =
    repeats 0 10 (ActorId.new 1) 42
    ∷ schedules 0 5 (ActorId.new 1) 43
    ∷ polls 6
    ∷ fires ((1, 0) ∷ [])
    ∷ cancels 1
    ∷ polls 12
    ∷ fires ((1, 0) ∷ [])
    ∷ []

run-Unique_example :
    let c = run (start 0 100) ringing in
    (count 0 c.service ≤ 1) × (c.service.panicked ≡ false) × (c.poisoned ≡ false → c.died ≡ false)
run-Unique_example = run-Unique 0 100 ringing 0 (omega arith)

rings : (run (start 0 100) ringing).service.sent ≡ (ActorId.new 1, 43) ∷ (ActorId.new 1, 42) ∷ []
unfolding run new lookup ActorId.new
rings = refl

-- A duration beyond the last instant poisons the lock of the timers, and ends the thread.
abbrev too_long : List (Event ℕ)
too_long = schedules 7 99 (ActorId.new 1) 43 ∷ polls 8 ∷ []

too_long_dies : (run (start 0 100) too_long).died ≡ true
unfolding run new
too_long_dies = refl
