-- ===== src/Compute/Workers.antt =====
-- src/compute/scheduler.rs: the pool keeps its workers, those that have ended included.
use runact.Prelude.{
  ◌∙◌, length, ℕ, ◌≡◌, refl, sym, subst, inl, inr, Bool, true, false, Option-cases, [], ◌∷◌, ◌++◌,
  get_elem?, length-set, if_cases, ltb, ◌==◌,
}
use runact.Any.{Types}
use runact.Channel.{Channels, Sent, sent, full, disconnected, Received, got, empty, hung_up}
use runact.Channel.Unbounded.{Unbounded}
use runact.Actor.Error.{Result}
use runact.Compute.Tasks.{new_id, Job, boxed_job, ComputeResult, Task, ComputeError}
use runact.Compute.{
  length, List, new_task, Pc, top, receiving, checking, running, returned, answering, exited,
  ComputeScheduler, ComputeHandle, act, turn, turn_at, exit, received, answer, answer_sent, submit,
  submitted, spawn, spawn_compute, cancel, sender_clone, release, shutdown,
}
use runact.Compute.Events.{
  run, Event, turns, spawns, submits, cancels, drops_handle, polls, lends, releases, shuts_down,
  step, after_spawn, drop_handle,
}
use runact.Compute.Handle.{take_result, take_at, taken}

module _ {u : Types} {q : Unbounded (Task u)} {rch : Channels (ComputeResult u)} where
  -- As many workers as before.
  abbrev Staffed : ComputeScheduler u q rch → ComputeScheduler u q rch → Type 0
  Staffed s s' = length s'.workers ≡ length s.workers

  received-Staffed :
      (s : ComputeScheduler u q rch) (i : ℕ) (p : Received (Task u) × q.Chan)
      → Staffed s (received s i p)
  unfolding received exit
  received-Staffed s i (got t, c) = length-set s.workers i (checking t)
  received-Staffed s i (empty, c) = length-set s.workers i top
  received-Staffed s i (hung_up, c) = length-set s.workers i exited

  answer-Staffed :
      (s : ComputeScheduler u q rch) (i : ℕ) (t : Task u) (r : ComputeResult u)
      (p : Sent × rch.Chan)
      → Staffed s (answer_sent s i t r p)
  unfolding answer_sent
  answer-Staffed s i t r (full, c) = refl
  answer-Staffed s i t r (sent, c) = length-set s.workers i top
  answer-Staffed s i t r (disconnected, c) = length-set s.workers i top

  act-Staffed : (s : ComputeScheduler u q rch) (i : ℕ) (pc : Pc u) → Staffed s (act s i pc)
  unfolding act exit answer
  act-Staffed s i top =
      if_cases (Staffed s) s.stop (λ _. length-set s.workers i exited)
        (λ _. length-set s.workers i receiving)
  act-Staffed s i receiving = received-Staffed s i (q.try_recv s.tasks)
  act-Staffed s i (checking t) = length-set s.workers i _
  act-Staffed s i (running t) = length-set s.workers i _
  act-Staffed s i (returned t job) = length-set s.workers i _
  act-Staffed s i (answering t r) = elim (Option-cases (get_elem? s.results t.result_sender)) [
    | inl e ↦ subst (λ o. Staffed s (answer s i t r o)) (sym e) refl
    | inr (c, e) ↦
        subst (λ o. Staffed s (answer s i t r o)) (sym e)
          (answer-Staffed s i t r (rch.try_send c r))
  ]
  act-Staffed s i exited = refl

  turn-Staffed : (s : ComputeScheduler u q rch) (i : ℕ) → Staffed s (turn s i)
  unfolding turn turn_at
  turn-Staffed s i = elim (Option-cases (get_elem? s.workers i)) [
    | inl e ↦ subst (λ o. Staffed s (turn_at s i o)) (sym e) refl
    | inr (pc, e) ↦ subst (λ o. Staffed s (turn_at s i o)) (sym e) (act-Staffed s i pc)
  ]

  submitted-Staffed :
      (s : ComputeScheduler u q rch) (t : Task u) (p : Bool × q.Chan)
      → Staffed s (submitted s t p).1
  unfolding submitted
  submitted-Staffed s t (true, c) = refl
  submitted-Staffed s t (false, c) = refl

  submit-Staffed :
      (s : ComputeScheduler u q rch) (t : u.Ty) (job : Job (u.El t)) → Staffed s (submit s t job).1
  unfolding submit
  submit-Staffed s t job =
      let task = new_task s (boxed_job u t job) in
      submitted-Staffed
        (record s {
          results = s.results ++ rch.bounded 1 ∷ [];
          flags = s.flags ++ false ∷ [];
          counter = (new_id s.counter).1;
        })
        task (q.send s.tasks task)

  step-Staffed : (s : ComputeScheduler u q rch) (e : Event u) → Staffed s (step s e)
  unfolding step spawn spawn_compute cancel sender_clone release shutdown after_spawn drop_handle
      take_result take_at taken
  step-Staffed s (turns i) = turn-Staffed s i
  step-Staffed s (spawns t job) =
      if_cases (λ r. Staffed s (after_spawn s r)) s.sender (λ _. submit-Staffed s t job) (λ _. refl)
  step-Staffed s (submits t job) =
      if_cases (λ (r : Result ComputeHandle ComputeError × ComputeScheduler u q rch). Staffed s r.1)
        (ltb 0 s.lent) (λ _. submit-Staffed s t job) (λ _. refl)
  step-Staffed s (cancels c) = refl
  step-Staffed s (drops_handle c) = elim (Option-cases (get_elem? s.results c.receiver)) [
    | inl e ↦ subst (λ o. Staffed s (drop_handle s c.receiver o)) (sym e) refl
    | inr (x, e) ↦ subst (λ o. Staffed s (drop_handle s c.receiver o)) (sym e) refl
  ]
  step-Staffed s (polls c) = elim (Option-cases (get_elem? s.results c.receiver)) [
    | inl e ↦ subst (λ o. Staffed s (take_at s c.receiver o).1) (sym e) refl
    | inr (x, e) ↦ subst (λ o. Staffed s (take_at s c.receiver o).1) (sym e) refl
  ]
  step-Staffed s lends =
      if_cases (λ (r : Bool × ComputeScheduler u q rch). Staffed s r.1) s.sender (λ _. refl)
        (λ _. refl)
  step-Staffed s releases = if_cases (Staffed s) (s.lent == 0) (λ _. refl) (λ _. refl)
  step-Staffed s shuts_down = refl

  pub run-Staffed :
      (s : ComputeScheduler u q rch) (es : List (Event u))
      → length (run s es).workers ≡ length s.workers
  unfolding run
  run-Staffed s [] = refl
  run-Staffed s (e ∷ es) = run-Staffed (step s e) es ∙ step-Staffed s e
