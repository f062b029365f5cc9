-- ===== src/Supervision/Tests.antt =====
-- The supervisors' theorems at concrete inputs, and runs of their code.
use mathlib.Core.Option
use runact.Prelude.{
  ℕ, ◌+◌, ◌*◌, ◌-◌, ◌^◌, ◌≤◌, ◌≡◌, refl, true, none, some, List, [], ◌∷◌, arith, min, inr,
}
use runact.Prelude.HashMap.{lookup, insert}
use runact.Actor.ActorId.{ActorId}
use runact.Supervision.Duration.{from_secs, from_millis, elapsed}
use runact.Supervision.Strategy.{RestartStrategy, one_for_one}
use runact.Supervision.Supervisor.{Supervisor, handle_all-new, answers}
use runact.Supervision.Supervisor
use runact.Supervision.SupervisorActor.{
  child_crashed, ChildEntry, SupervisorActor, max_restarts, base_backoff, backoff_delay, handle,
  Delivery, handle_all,
}
use runact.Supervision.SupervisorActor.Backoff.{backoff_delay_lem, backoff_delay-doubles}
use runact.Supervision.SupervisorActor.Window.{relabel, handle_all-within}
use runact.Supervision.SupervisorActor.Restarts.{Tracks, crashes, handle_all-Tracks, crash-restarts}

abbrev first : ActorId
first = record { raw = 1 }

abbrev second : ActorId
second = record { raw = 2 }

handle_all-new_example :
    Supervisor.handle_all (Supervisor.new first (one_for_one 1 0 0)) (first ∷ second ∷ first ∷ [])
    ≡ answers 1 [] (first ∷ second ∷ first ∷ [])
handle_all-new_example = handle_all-new first 1 0 0 (first ∷ second ∷ first ∷ []) (omega arith)

abbrev strategy : RestartStrategy
strategy = one_for_one 2 (from_secs 60) (from_millis 200)

backoff_delay_lem_example :
    backoff_delay strategy 3 ≡ some (min (from_millis 200 * 2 ^ min (3 - 1) 30) (from_secs 30))
backoff_delay_lem_example =
    backoff_delay_lem 2 (from_secs 60) (from_millis 200) 3 (omega arith) (omega arith)

backoff_delay-doubles_example :
    (d : ℕ) × (backoff_delay strategy 3 ≡ some d)
    × (backoff_delay strategy (3 + 1) ≡ some (min (d * 2) (from_secs 30)))
    × (backoff_delay strategy 1 ≡ some (min (from_millis 200) (from_secs 30)))
backoff_delay-doubles_example =
    backoff_delay-doubles 2 (from_secs 60) (from_millis 200) 3 (omega arith) (omega arith)
      (omega arith)

abbrev known_child : ChildEntry
known_child = record {
  name = "worker";
  restart_count = 0;
  alive = true;
  last_restart_at = some 100;
}

abbrev other_child : ChildEntry
other_child = record { name = "other"; restart_count = 1; alive = true; last_restart_at = none }

abbrev supervisor : SupervisorActor
supervisor = record { children = (1, known_child) ∷ (2, other_child) ∷ []; strategy = strategy }

abbrev crash_at : ActorId → ℕ → Delivery
crash_at c now = record { message = child_crashed c "lost"; elapsed_at = now; now = now }

abbrev deliveries : List Delivery
deliveries =
    crash_at first 1000
    ∷ crash_at second 2000
    ∷ crash_at first (from_secs 9)
    ∷ crash_at first (from_secs 99)
    ∷ []

handle_all-within_example :
    ((handle_all (relabel 7 supervisor) deliveries).0 ≡ (handle_all supervisor deliveries).0)
    × ((handle_all (relabel 7 supervisor) deliveries).1
        ≡ Option.map (relabel 7) (handle_all supervisor deliveries).1)
handle_all-within_example = handle_all-within 7 supervisor deliveries

handle_all-Tracks_example :
    (s' : SupervisorActor) × ((handle_all supervisor deliveries).1 ≡ some s')
    × Tracks strategy first "worker" (0 + crashes first deliveries) s'
unfolding lookup base_backoff
handle_all-Tracks_example =
    handle_all-Tracks strategy first "worker" 0 supervisor deliveries (omega arith) (omega arith)
      (omega arith)
      (record {
        entry = known_child;
        found = refl;
        named = refl;
        counted = refl;
        limited = inr (omega arith);
        same_strategy = refl;
      })

abbrev restarted_child : ChildEntry
restarted_child = record {
  name = "worker";
  restart_count = 1;
  alive = true;
  last_restart_at = some (from_secs 9);
}

abbrev after_crash : SupervisorActor
after_crash = record {
  children = (1, restarted_child) ∷ (2, other_child) ∷ [];
  strategy = strategy;
}

crash-restarts_example :
    (delay : ℕ) × (backoff_delay strategy 1 ≡ some delay)
    × (delay ≤ elapsed (from_secs 9) 100)
    × (1 ≤ max_restarts strategy)
    × (some (from_secs 9) ≡ some (from_secs 9))
unfolding handle lookup insert
crash-restarts_example =
    crash-restarts supervisor after_crash first "lost" (from_secs 9) (from_secs 9) known_child
      restarted_child none 100 refl refl refl refl refl
