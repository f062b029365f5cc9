-- ===== src/Compute/Apart.antt =====
-- src/compute/scheduler.rs: what the others do leaves a worker where it is.
use runact.Prelude.{
  arith, if◌then◌else◌, ◌+◌, ℕ, ◌≡◌, ◌≢◌, refl, sym, subst, ◌⊎◌, inl, inr, Bool, true, false,
  Option, none, some, Option-cases, [], ◌∷◌, ◌++◌, get_elem?, get_elem?-set_ne, if_cases, ltb, ◌==◌,
}
use runact.Any.{Types}
use runact.Channel.{Channels, Sent, sent, full, disconnected, Received, got, empty, hung_up}
use runact.Channel.Unbounded.{Unbounded}
use runact.Actor.Error.{Result}
use runact.Compute.Tasks.{new_id, Job, boxed_job, ComputeResult, Task, ComputeError}
use runact.Compute.{
  List, new_task, Pc, top, receiving, checking, running, returned, answering, exited,
  ComputeScheduler, ComputeHandle, act, turn, turn_at, exit, received, answer, answer_sent, submit,
  submitted, spawn, spawn_compute, cancel, sender_clone, release, shutdown,
}
use runact.Compute.Events.{
  Event, turns, spawns, submits, cancels, drops_handle, polls, lends, releases, shuts_down, step,
  after_spawn, drop_handle,
}
use runact.Compute.Handle.{take_result, take_at, taken}

-- The turns that worker `i` gets.
abbrev pub own_turns : {u : Types} → ℕ → List (Event u) → ℕ
own_turns i [] = 0
own_turns i (turns j ∷ es) = (if j == i then 1 else 0) + own_turns i es
own_turns i (_ ∷ es) = own_turns i es

module _ {u : Types} {q : Unbounded (Task u)} {rch : Channels (ComputeResult u)} where
  -- What another worker does: this one stays where it is.
  abbrev pub Apart : ComputeScheduler u q rch → ComputeScheduler u q rch → ℕ → Type 0
  Apart s s' i = (get_elem? s'.workers i ≡ get_elem? s.workers i) × (s'.stop ≡ s.stop)

  received-Apart :
      (s : ComputeScheduler u q rch) (i j : ℕ) (p : Received (Task u) × q.Chan)
      → j ≢ i
      → Apart s (received s j p) i
  unfolding received exit
  received-Apart s i j (got t, c) ne = (get_elem?-set_ne s.workers (checking t) ne, refl)
  received-Apart s i j (empty, c) ne = (get_elem?-set_ne s.workers top ne, refl)
  received-Apart s i j (hung_up, c) ne = (get_elem?-set_ne s.workers exited ne, refl)

  answer_sent-Apart :
      (s : ComputeScheduler u q rch) (i j : ℕ) (t : Task u) (r : ComputeResult u)
      (p : Sent × rch.Chan)
      → j ≢ i
      → Apart s (answer_sent s j t r p) i
  unfolding answer_sent
  answer_sent-Apart s i j t r (full, c) ne = (refl, refl)
  answer_sent-Apart s i j t r (sent, c) ne = (get_elem?-set_ne s.workers top ne, refl)
  answer_sent-Apart s i j t r (disconnected, c) ne = (get_elem?-set_ne s.workers top ne, refl)

  answer-Apart :
      (s : ComputeScheduler u q rch) (i j : ℕ) (t : Task u) (r : ComputeResult u)
      (o : Option rch.Chan)
      → j ≢ i
      → Apart s (answer s j t r o) i
  unfolding answer
  answer-Apart s i j t r none ne = (refl, refl)
  answer-Apart s i j t r (some c) ne = answer_sent-Apart s i j t r (rch.try_send c r) ne

  act-Apart : (s : ComputeScheduler u q rch) (i j : ℕ) (pc : Pc u) → j ≢ i → Apart s (act s j pc) i
  unfolding act exit
  act-Apart s i j top ne =
      if_cases (λ s'. Apart s s' i) s.stop (λ _. (get_elem?-set_ne s.workers exited ne, refl))
        (λ _. (get_elem?-set_ne s.workers receiving ne, refl))
  act-Apart s i j receiving ne = received-Apart s i j (q.try_recv s.tasks) ne
  act-Apart s i j (checking t) ne = (get_elem?-set_ne s.workers _ ne, refl)
  act-Apart s i j (running t) ne = (get_elem?-set_ne s.workers _ ne, refl)
  act-Apart s i j (returned t job) ne = (get_elem?-set_ne s.workers _ ne, refl)
  act-Apart s i j (answering t r) ne =
      answer-Apart s i j t r (get_elem? s.results t.result_sender) ne
  act-Apart s i j exited ne = (refl, refl)

  pub turn-Apart : (s : ComputeScheduler u q rch) (i j : ℕ) → j ≢ i → Apart s (turn s j) i
  unfolding turn turn_at
  turn-Apart s i j ne = elim (Option-cases (get_elem? s.workers j)) [
    | inl e ↦ subst (λ o. Apart s (turn_at s j o) i) (sym e) (refl, refl)
    | inr (pc, e) ↦ subst (λ o. Apart s (turn_at s j o) i) (sym e) (act-Apart s i j pc ne)
  ]

  submitted-Apart :
      (s : ComputeScheduler u q rch) (t : Task u) (p : Bool × q.Chan) (i : ℕ)
      → Apart s (submitted s t p).1 i
  unfolding submitted
  submitted-Apart s t (true, c) i = (refl, refl)
  submitted-Apart s t (false, c) i = (refl, refl)

  submit-Apart :
      (s : ComputeScheduler u q rch) (t : u.Ty) (job : Job (u.El t)) (i : ℕ)
      → Apart s (submit s t job).1 i
  unfolding submit
  submit-Apart s t job i =
      let task = new_task s (boxed_job u t job) in
      submitted-Apart
        (record s {
          results = s.results ++ rch.bounded 1 ∷ [];
          flags = s.flags ++ false ∷ [];
          counter = (new_id s.counter).1;
        })
        task (q.send s.tasks task) i

  drop_handle-Apart :
      (s : ComputeScheduler u q rch) (a : ℕ) (o : Option rch.Chan) (i : ℕ)
      → Apart s (drop_handle s a o) i
  unfolding drop_handle
  drop_handle-Apart s a none i = (refl, refl)
  drop_handle-Apart s a (some c) i = (refl, refl)

  take_at-Apart :
      (s : ComputeScheduler u q rch) (a : ℕ) (o : Option rch.Chan) (i : ℕ)
      → Apart s (take_at s a o).1 i
  unfolding take_at taken
  take_at-Apart s a none i = (refl, refl)
  take_at-Apart s a (some c) i = (refl, refl)

  -- Every event but a turn leaves the workers where they are, and the stop flag set.
  pub outside-Apart :
      (s : ComputeScheduler u q rch) (e : Event u)
      → s.stop ≡ true
      → ((i : ℕ) → (own_turns i (e ∷ []) ≡ 0) × Apart s (step s e) i) ⊎ ((j : ℕ) × (e ≡ turns j))
  unfolding step spawn spawn_compute cancel sender_clone release shutdown after_spawn take_result
  outside-Apart s (turns j) stopping = inr (j, refl)
  outside-Apart s (spawns t job) stopping = inl (λ i. (
    refl,
    if_cases (λ r. Apart s (after_spawn s r) i) s.sender (λ _. submit-Apart s t job i)
        (λ _. (refl, refl)),
  ))
  outside-Apart s (submits t job) stopping = inl (λ i. (
    refl,
    if_cases (λ (r : Result ComputeHandle ComputeError × ComputeScheduler u q rch). Apart s r.1 i)
        (ltb 0 s.lent) (λ _. submit-Apart s t job i) (λ _. (refl, refl)),
  ))
  outside-Apart s (cancels c) stopping = inl (λ i. (refl, (refl, refl)))
  outside-Apart s (drops_handle c) stopping =
      inl (λ i. (refl, drop_handle-Apart s c.receiver (get_elem? s.results c.receiver) i))
  outside-Apart s (polls c) stopping =
      inl (λ i. (refl, take_at-Apart s c.receiver (get_elem? s.results c.receiver) i))
  outside-Apart s lends stopping = inl (λ i. (
    refl,
    if_cases (λ (r : Bool × ComputeScheduler u q rch). Apart s r.1 i) s.sender (λ _. (refl, refl))
        (λ _. (refl, refl)),
  ))
  outside-Apart s releases stopping = inl (λ i.
      (refl, if_cases (λ r. Apart s r i) (s.lent == 0) (λ _. (refl, refl)) (λ _. (refl, refl))))
  outside-Apart s shuts_down stopping = inl (λ i. (refl, (refl, sym stopping)))

pub own_turns-cons :
    {u : Types} (i : ℕ) (e : Event u) (es : List (Event u))
    → own_turns i (e ∷ es) ≡ own_turns i (e ∷ []) + own_turns i es
own_turns-cons i (turns j) es = omega arith
own_turns-cons i (spawns t job) es = omega arith
own_turns-cons i e es = omega arith
