-- ===== src/SupervisorTests/Scenarios.antt =====
-- src/supervision/supervisor_actor.rs: the five tests, each as the replies to its requests and, in
-- the equation after it, what it asserts of them.
use Prim.Native.String.{String}
use runact.Prelude.{ℕ, ◌++◌, Bool, true, false, Option, some, List, [], ◌∷◌}
use runact.Prelude.HashMap.{lookup, insert}
use runact.Any.{downcast}
use runact.Scheduler.RunQueue.{push, pop}
use runact.Scheduler.WorkStealing
use runact.Runtime
use runact.Runtime.{request_from, with_config}
use runact.Runtime.World
use runact.Runtime.World.Events.{run, step}
use runact.Runtime.World.Events
use runact.Runtime.World.Steps.{worker_turn}
use runact.Prelude.{◌≡◌, refl}
use runact.Actor.ActorId.{ActorId}
use runact.Actor.ActorId
use runact.Supervision.Duration.{from_millis, from_secs}
use runact.Supervision.Strategy.{RestartStrategy, one_for_one, default_strategy}
use runact.Supervision.SupervisorActor.{
  ChildStatus, child_started, child_crashed, get_status, SupervisorMessage, new,
}
use runact.Supervision.SupervisorActor
use runact.Runtime.World.Events.{Event, spawns, sends_to, requests_from}
use runact.SupervisorTests.{
  supervisor_message, actors, sleep_until, statuses_at, after, handle_of, ValueType_discrete,
}

abbrev supervisor_id : ActorId
supervisor_id = ActorId.new 1

abbrev child1 : ActorId
child1 = ActorId.new 2

abbrev child2 : ActorId
child2 = ActorId.new 3

abbrev spawn_supervisor : RestartStrategy → List (Event actors)
spawn_supervisor strategy = spawns true (SupervisorActor.new strategy) ∷ []

abbrev spawn_child : List (Event actors)
spawn_child = spawns false (record { count = 0 }) ∷ []

abbrev tell : SupervisorMessage → List (Event actors)
tell msg = sends_to supervisor_id (supervisor_message msg) ∷ []

abbrev ask_status : List (Event actors)
ask_status = requests_from supervisor_id (supervisor_message get_status) ∷ []

-- `RestartStrategy::OneForOne` within a minute.
abbrev one_for_one_minute : (max_restarts base_backoff : ℕ) → RestartStrategy
one_for_one_minute max_restarts base_backoff = one_for_one max_restarts (from_secs 60) base_backoff

abbrev crash : ActorId → String → ℕ → List (Event actors)
crash child reason now = tell (child_crashed child reason) ++ sleep_until (from_millis now)

unfoldable test_supervisor_tracks_children : Option (List ChildStatus)
test_supervisor_tracks_children =
    statuses_at
      (after (
        spawn_supervisor default_strategy
        ++ spawn_child
        ++ tell (child_started child1 "test_counter")
        ++ sleep_until (from_millis 20)
        ++ ask_status
        ++ sleep_until (from_millis 21)))
      0

unfoldable test_supervisor_handles_crash : Option (List ChildStatus)
test_supervisor_handles_crash =
    statuses_at
      (after (
        spawn_supervisor (one_for_one_minute 3 (from_millis 0))
        ++ spawn_child
        ++ tell (child_started child1 "crasher")
        ++ sleep_until (from_millis 20)
        ++ crash child1 "test crash" 40
        ++ ask_status
        ++ sleep_until (from_millis 41)))
      0

unfoldable test_supervisor_max_restarts : Option (List ChildStatus)
test_supervisor_max_restarts =
    statuses_at
      (after (
        spawn_supervisor (one_for_one_minute 2 (from_millis 0))
        ++ spawn_child
        ++ tell (child_started child1 "persistent_crasher")
        ++ sleep_until (from_millis 20)
        ++ crash child1 "crash 0" 40
        ++ crash child1 "crash 1" 60
        ++ crash child1 "crash 2" 80
        ++ ask_status
        ++ sleep_until (from_millis 81)))
      0

unfoldable test_multiple_children_independent_restart_counts : Option (List ChildStatus)
test_multiple_children_independent_restart_counts =
    statuses_at
      (after (
        spawn_supervisor (one_for_one_minute 2 (from_millis 0))
        ++ spawn_child
        ++ spawn_child
        ++ tell (child_started child1 "child1")
        ++ tell (child_started child2 "child2")
        ++ sleep_until (from_millis 20)
        ++ crash child1 "child1 crash" 40
        ++ crash child1 "child1 crash" 60
        ++ crash child1 "child1 crash" 80
        ++ crash child2 "child2 crash" 100
        ++ ask_status
        ++ sleep_until (from_millis 101)))
      0

-- The three requests are answered in their order.
unfoldable test_supervisor_backoff_defers_restart : ℕ → Option (List ChildStatus)
test_supervisor_backoff_defers_restart = statuses_at (
    after (
      spawn_supervisor (one_for_one_minute 5 (from_millis 200))
      ++ spawn_child
      ++ tell (child_started child1 "backoff_child")
      ++ sleep_until (from_millis 20)
      ++ crash child1 "first crash" 40
      ++ ask_status
      ++ sleep_until (from_millis 41)
      ++ crash child1 "second crash right after" 61
      ++ ask_status
      ++ sleep_until (from_millis 62)
      ++ sleep_until (from_millis 1062)
      ++ crash child1 "third crash after backoff" 1082
      ++ ask_status
      ++ sleep_until (from_millis 1083)))

test_supervisor_tracks_children_lem :
    test_supervisor_tracks_children
    ≡ some (record { id = child1; name = "test_counter"; restart_count = 0; alive = true } ∷ [])
unfolding test_supervisor_tracks_children run request_from with_config Events.new step worker_turn
    World.spawn Runtime.send Runtime.spawn lookup insert WorkStealing.spawn pop push downcast
    ValueType_discrete handle_of SupervisorActor.new
test_supervisor_tracks_children_lem = refl

test_supervisor_handles_crash_lem :
    test_supervisor_handles_crash
    ≡ some (record { id = child1; name = "crasher"; restart_count = 1; alive = true } ∷ [])
unfolding test_supervisor_handles_crash run request_from with_config Events.new step worker_turn
    World.spawn Runtime.send Runtime.spawn lookup insert WorkStealing.spawn pop push downcast
    ValueType_discrete handle_of SupervisorActor.new
test_supervisor_handles_crash_lem = refl

test_supervisor_max_restarts_lem :
    test_supervisor_max_restarts
    ≡ some
        (record { id = child1; name = "persistent_crasher"; restart_count = 3; alive = false } ∷ [])
unfolding test_supervisor_max_restarts run request_from with_config Events.new step worker_turn
    World.spawn Runtime.send Runtime.spawn lookup insert WorkStealing.spawn pop push downcast
    ValueType_discrete handle_of SupervisorActor.new
test_supervisor_max_restarts_lem = refl

test_multiple_children_independent_restart_counts_lem :
    test_multiple_children_independent_restart_counts
    ≡ some (
        record { id = child1; name = "child1"; restart_count = 3; alive = false }
        ∷ record { id = child2; name = "child2"; restart_count = 1; alive = true }
        ∷ [])
unfolding test_multiple_children_independent_restart_counts run request_from with_config Events.new
    step worker_turn World.spawn Runtime.send Runtime.spawn lookup insert WorkStealing.spawn pop
    push downcast ValueType_discrete handle_of SupervisorActor.new
test_multiple_children_independent_restart_counts_lem = refl

abbrev backoff_child_status : (restart_count : ℕ) → (alive : Bool) → Option (List ChildStatus)
backoff_child_status restart_count alive = some (
    record { id = child1; name = "backoff_child"; restart_count = restart_count; alive = alive }
    ∷ [])

test_supervisor_backoff_defers_restart_lem :
    (test_supervisor_backoff_defers_restart 0 ≡ backoff_child_status 1 true)
    × (test_supervisor_backoff_defers_restart 1 ≡ backoff_child_status 2 false)
    × (test_supervisor_backoff_defers_restart 2 ≡ backoff_child_status 3 true)
unfolding test_supervisor_backoff_defers_restart run request_from with_config Events.new step
    worker_turn World.spawn Runtime.send Runtime.spawn lookup insert WorkStealing.spawn pop push
    downcast ValueType_discrete handle_of SupervisorActor.new
test_supervisor_backoff_defers_restart_lem = (refl, refl, refl)
