-- ===== src/Compute/Served.antt =====
-- src/compute: the channel of a task stays with it, over every order of events.
use runact.Prelude.{
  ℕ, ◌+◌, ◌-◌, ◌<◌, ◌≡◌, refl, sym, subst, inl, inr, Bool, true, false, some, Option-cases, List,
  [], ◌∷◌, ◌++◌, length, get_elem?, set, All, All-snoc, Holds-snoc, length-append, length-set,
  arith, if_cases, ltb, ◌==◌, if◌then◌else◌,
}
use runact.Any.{Types, Any}
use runact.Channel.{Channels, Received, got, empty, hung_up, recv_none, zero_or_pos}
use runact.Channel
use runact.Channel.Unbounded.{Unbounded}
use runact.Channel.Unbounded
use runact.Actor.Error.{Result}
use runact.Compute.Tasks.{Job, boxed_job, new_id, ComputeResult, Task, ComputeError}
use runact.Compute.{
  ComputeScheduler, ComputeHandle, submit, submitted, new_task, spawn, spawn_compute, cancel,
  sender_clone, release, shutdown,
}
use runact.Compute.Events.{
  Event, turns, spawns, submits, cancels, drops_handle, polls, lends, releases, shuts_down, step,
  run, after_spawn, drop_handle,
}
use runact.Compute.Handle.{take_result, take_at, taken}
use runact.Compute.Typed.{
  AnswersTo, RunsFor, IsServed, turn-IsServed, set-Fine, try_recv-Fine, drop_receiver-Fine,
}

module _ {u : Types} {q : Unbounded (Task u)} {rch : Channels (ComputeResult u)}
    (q_lawful : Channel.Unbounded.IsLawful q) (r_lawful : Channel.IsLawful rch) (j : ℕ)
    (J : Job (Any u)) where
  submit-IsServed :
      (s : ComputeScheduler u q rch) (t : u.Ty) (job : Job (u.El t))
      → IsServed j J s
      → IsServed j J (submit s t job).1
  unfolding submit submitted new_task
  submit-IsServed s t job h =
      let task = new_task s (boxed_job u t job) in
      let results = s.results ++ rch.bounded 1 ∷ [] in
      let s' = record s {
        results = results;
        flags = s.flags ++ false ∷ [];
        counter = (new_id s.counter).1;
      } in
      let fresh : All (AnswersTo J) (rch.queued (rch.bounded 1)) =
        rw (r_lawful.bounded_new 1).0 tt in
      let arrived =
        Holds-snoc (λ c. All (AnswersTo J) (rch.queued c)) s.results j h.arrived fresh in
      let more : j < length results =
        rw (length-append s.results (rch.bounded 1 ∷ [])) (omega (arith, h.addressed)) in
      let other : RunsFor j J task = λ e. absurd (omega (arith, e, h.addressed)) in
      elim (zero_or_pos (q.receivers s.tasks)) [
        | inl gone ↦
            subst (λ p. IsServed j J (submitted s' task p).1)
              (sym (q_lawful.send_refused s.tasks task gone))
              (record {
                addressed = more;
                waiting = h.waiting;
                working = h.working;
                arrived = arrived;
              })
        | inr open_end ↦
            let law = q_lawful.send_accepted s.tasks task open_end in
            subst (λ b. IsServed j J (submitted s' task (b, (q.send s.tasks task).1)).1) (sym law.0)
              (record {
                addressed = more;
                waiting = rw law.1 (All-snoc (RunsFor j J) (q.queued s.tasks) h.waiting other);
                working = h.working;
                arrived = arrived;
              })
      ]

  channel-IsServed :
      (s : ComputeScheduler u q rch) (c : q.Chan) (lent : ℕ) (stop sender : Bool)
      → q.queued c ≡ q.queued s.tasks
      → IsServed j J s
      → IsServed j J (record s { tasks = c; lent = lent; stop = stop; sender = sender })
  channel-IsServed s c lent stop sender e h = record {
    addressed = h.addressed;
    waiting = rw e h.waiting;
    working = h.working;
    arrived = h.arrived;
  }

  results-IsServed :
      (s : ComputeScheduler u q rch) (i : ℕ) (c c' : rch.Chan)
      → get_elem? s.results i ≡ some c
      → (All (AnswersTo J) (rch.queued c) → All (AnswersTo J) (rch.queued c'))
      → IsServed j J s
      → IsServed j J (record s { results = set s.results i c' })
  results-IsServed s i c c' at fine h = record {
    addressed = rw (length-set s.results i c') h.addressed;
    waiting = h.waiting;
    working = h.working;
    arrived = set-Fine q_lawful r_lawful j J s.results i c c' at h.arrived (λ _. fine);
  }

  drop_handle-IsServed :
      (s : ComputeScheduler u q rch) (h : ComputeHandle)
      → IsServed j J s
      → IsServed j J (drop_handle s h.receiver (get_elem? s.results h.receiver))
  unfolding drop_handle
  drop_handle-IsServed s h served = elim (Option-cases (get_elem? s.results h.receiver)) [
    | inl e ↦ subst (λ o. IsServed j J (drop_handle s h.receiver o)) (sym e) served
    | inr (c, e) ↦
        subst (λ o. IsServed j J (drop_handle s h.receiver o)) (sym e)
          (results-IsServed s h.receiver c (rch.drop_receiver c) e
            (λ _. drop_receiver-Fine q_lawful r_lawful j J c) served)
  ]

  take_result-IsServed :
      (s : ComputeScheduler u q rch) (h : ComputeHandle)
      → IsServed j J s
      → IsServed j J (take_result s h).1
  unfolding take_result take_at taken
  take_result-IsServed s h served = elim (Option-cases (get_elem? s.results h.receiver)) [
    | inl e ↦ subst (λ o. IsServed j J (take_at s h.receiver o).1) (sym e) served
    | inr (c, e) ↦
        subst (λ o. IsServed j J (take_at s h.receiver o).1) (sym e)
          (results-IsServed s h.receiver c (rch.try_recv c).1 e
            (try_recv-Fine q_lawful r_lawful j J c) served)
  ]

  spawn-IsServed :
      (s : ComputeScheduler u q rch) (t : u.Ty) (job : Job (u.El t))
      → IsServed j J s
      → IsServed j J (after_spawn s (spawn s t job))
  unfolding after_spawn spawn
  spawn-IsServed s t job h =
      if_cases (λ r. IsServed j J (after_spawn s r)) s.sender (λ e. submit-IsServed s t job h)
        (λ e. record {
          addressed = h.addressed;
          waiting = h.waiting;
          working = h.working;
          arrived = h.arrived;
        })

  step-IsServed :
      (s : ComputeScheduler u q rch) (e : Event u) → IsServed j J s → IsServed j J (step s e)
  unfolding step spawn_compute cancel sender_clone release shutdown
  step-IsServed s (turns i) h = turn-IsServed q_lawful r_lawful j J s i h
  step-IsServed s (spawns t job) h = spawn-IsServed s t job h
  step-IsServed s (submits t job) h =
      if_cases
        (λ (r : Result ComputeHandle ComputeError × ComputeScheduler u q rch). IsServed j J r.1)
        (ltb 0 s.lent) (λ e. submit-IsServed s t job h) (λ e. h)
  step-IsServed s (cancels c) h = record {
    addressed = h.addressed;
    waiting = h.waiting;
    working = h.working;
    arrived = h.arrived;
  }
  step-IsServed s (drops_handle c) h = drop_handle-IsServed s c h
  step-IsServed s (polls c) h = take_result-IsServed s c h
  step-IsServed s lends h =
      if_cases (λ (r : Bool × ComputeScheduler u q rch). IsServed j J r.1) s.sender
        (λ e.
          channel-IsServed s (q.clone_sender s.tasks) (s.lent + 1) s.stop s.sender
            (q_lawful.clone_sender_lem s.tasks).0 h)
        (λ e. h)
  step-IsServed s releases h =
      if_cases (IsServed j J) (s.lent == 0) (λ e. h)
        (λ e.
          channel-IsServed s (q.drop_sender s.tasks) (s.lent - 1) s.stop s.sender
            (q_lawful.drop_sender_lem s.tasks).0 h)
  step-IsServed s shuts_down h =
      channel-IsServed s (if s.sender then q.drop_sender s.tasks else s.tasks) s.lent true false
        (if_cases (λ c. q.queued c ≡ q.queued s.tasks) s.sender
          (λ e. (q_lawful.drop_sender_lem s.tasks).0) (λ e. refl))
        h

  pub run-IsServed :
      (s : ComputeScheduler u q rch) (es : List (Event u))
      → IsServed j J s
      → IsServed j J (run s es)
  unfolding run
  run-IsServed s [] h = h
  run-IsServed s (e ∷ es) h = run-IsServed (step s e) es (step-IsServed s e h)
