-- ===== src/Scheduler/Tests.antt =====
-- The scheduler's theorems at concrete inputs, and runs of its code.
use runact.Prelude.{ℕ, ◌+◌, ◌/◌, ◌%◌, ◌≡◌, refl, true, false, some, List, [], ◌∷◌, arith, get_elem?}
use runact.Scheduler.RunQueue.{RunQueue, steal_half, len, steal_half-splits}
use runact.Scheduler.RunQueue
use runact.Scheduler.Reduction.{ReductionCounter, after_messages, after_messages-new}
use runact.Scheduler.Reduction
use runact.Scheduler.Worker.{Worker}
use runact.Scheduler.WorkStealing.{
  top, running, exited, Scheduler, new, Event, turns, panics, spawns, stops, run,
}
use runact.Scheduler.WorkStealing.Conservation.{known, spawned, run-known}
use runact.Scheduler.WorkStealing.Starvation.{lone-run, exited-lone-run}
use runact.Scheduler.TaskPool.{Runs}
use runact.Scheduler.WorkStealing.Refine.{run-Runs}
use runact.Scheduler.WorkStealing.View.{view}
use runact.Scheduler.WorkStealing.Shutdown.{shutdown-ends}

abbrev four_tasks : RunQueue ℕ
four_tasks = record { queue = 1 ∷ 2 ∷ 3 ∷ 4 ∷ 5 ∷ [] }

steal_half_runs : steal_half four_tasks ≡ (1 ∷ 2 ∷ [], record { queue = 3 ∷ 4 ∷ 5 ∷ [] })
unfolding steal_half
steal_half_runs = refl

abbrev thief : Worker ℕ
thief = record { id = 3; queue = record { queue = 9 ∷ [] } }

after_messages-new_example :
    ((after_messages 5 Reduction.new).0 ≡ 5 / 4001)
    × ((after_messages 5 Reduction.new).1.count ≡ 5 % 4001)
after_messages-new_example = after_messages-new 5

-- Two tasks are spawned on two workers; the first worker steals nothing, runs its task and panics.
abbrev history : List (Event ℕ)
history =
    spawns 5
    ∷ spawns 6
    ∷ spawns 7
    ∷ turns 0
    ∷ turns 0
    ∷ panics 0
    ∷ turns 1
    ∷ turns 1
    ∷ turns 1
    ∷ stops
    ∷ []

run-known_example :
    known (λ t. t) (run (new 2) history) ≡ known (λ t. t) (new 2) + spawned (λ t. t) history
unfolding new
run-known_example = run-known (λ t. t) (new 2) history (omega arith)

run-Runs_example : Runs (5 ∷ 6 ∷ 7 ∷ []) (view (new 2)) (view (run (new 2) history))
unfolding new
run-Runs_example = run-Runs (new 2) history (omega arith)

crashed_state : (run (new 2) history).panicked ≡ 5 ∷ []
unfolding run new RunQueue.pop RunQueue.push
crashed_state = refl

abbrev one_task : RunQueue ℕ
one_task = record { queue = 7 ∷ [] }

-- Worker 0 is in task 5, task 7 waits behind it, and worker 1 looks for work.
abbrev busy : Scheduler ℕ
busy = record {
  queues = one_task ∷ record { queue = [] } ∷ [];
  next_worker = 1;
  stop = false;
  workers = running 5 ∷ top ∷ [];
  finished = [];
  panicked = [];
}

abbrev search_round : List (Event ℕ)
search_round = turns 1 ∷ turns 1 ∷ turns 1 ∷ turns 1 ∷ turns 1 ∷ []

lone-run_example : get_elem? (run busy search_round).queues 0 ≡ some one_task
lone-run_example = lone-run 0 one_task refl busy search_round refl (omega arith)

exited-lone-run_example :
    get_elem? (run (record busy { workers = exited ∷ top ∷ [] }) (turns 0 ∷ search_round)).queues 0
    ≡ some one_task
exited-lone-run_example =
    exited-lone-run 0 one_task (record busy { workers = exited ∷ top ∷ [] })
      (turns 0 ∷ search_round) refl refl refl (omega arith)

-- Thread 0 is in a task when the flag is set; a task is spawned, and thread 1 goes on.
abbrev last_turns : List (Event ℕ)
last_turns = turns 1 ∷ spawns 6 ∷ turns 0 ∷ turns 1 ∷ turns 0 ∷ []

shutdown-ends_example :
    get_elem? (run (record busy { stop = true }) last_turns).workers 0 ≡ some exited
shutdown-ends_example =
    shutdown-ends (record busy { stop = true }) last_turns 0 (running 5) refl (omega arith) refl
      (omega arith)
