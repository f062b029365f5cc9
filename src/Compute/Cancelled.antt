-- ===== src/Compute/Cancelled.antt =====
-- src/compute: a job that is cancelled in time is never run, over every order of events.
use runact.Prelude.{
  get_elem?-snoc_lt, ℕ, zero, suc, ◌+◌, ◌-◌, ◌<◌, ◌≡◌, refl, sym, ◌∙◌, subst, inl, inr, Bool, true,
  false, some, Option-cases, List, [], ◌∷◌, ◌++◌, length, length-append, get_elem?, set, length-set,
  All-snoc, arith, if_cases, ltb, ◌==◌, if◌then◌else◌,
}
use runact.Any.{Types}
use runact.Channel.{Channels, zero_or_pos}
use runact.Channel
use runact.Channel.Unbounded.{Unbounded}
use runact.Channel.Unbounded
use runact.Actor.Error.{Result}
use runact.Compute.Tasks.{Job, boxed_job, new_id, ComputeResult, Task, ComputeError}
use runact.Compute.{
  ComputeScheduler, ComputeHandle, submit, submitted, new_task, spawn, spawn_compute, cancel,
  sender_clone, release, shutdown,
}
use runact.Compute.Events.{
  Event, turns, spawns, submits, cancels, drops_handle, polls, lends, releases, shuts_down, step,
  run, after_spawn, drop_handle,
}
use runact.Compute.Handle.{take_result, take_at, taken}
use runact.Compute.Skipped.{Linked, IsLinked, turn-IsLinked, results-IsLinked, channel-IsLinked}

-- A flag that is raised stays raised.
set-raised :
    (flags : List Bool) (i k : ℕ)
    → get_elem? flags k ≡ some true
    → get_elem? (set flags i true) k ≡ some true
set-raised [] i k e = e
set-raised (x ∷ xs) zero zero e = refl
set-raised (x ∷ xs) zero (suc k) e = e
set-raised (x ∷ xs) (suc i) zero e = e
set-raised (x ∷ xs) (suc i) (suc k) e = set-raised xs i k e

module _ {u : Types} {q : Unbounded (Task u)} {rch : Channels (ComputeResult u)}
    (lawful : Channel.Unbounded.IsLawful q) (b : Bool) (j k : ℕ) where
  submitted-IsLinked :
      (s : ComputeScheduler u q rch) (t : Task u) (flags : List Bool) (results : List rch.Chan)
      (counter : ℕ)
      → j < length results
      → k < length flags
      → (b ≡ true → get_elem? flags k ≡ some true)
      → Linked b j k t
      → IsLinked b j k s
      → IsLinked b j k
          (submitted
            (record s { flags = flags; results = results; counter = counter })
            t
            (q.send s.tasks t)).1
  unfolding submitted
  submitted-IsLinked s t flags results counter addressed flagged raised link h =
      let s' = record s { flags = flags; results = results; counter = counter } in
      elim (zero_or_pos (q.receivers s.tasks)) [
        | inl gone ↦
            subst (λ p. IsLinked b j k (submitted s' t p).1)
              (sym (lawful.send_refused s.tasks t gone))
              (record {
                addressed = addressed;
                flagged = flagged;
                raised = raised;
                waiting = h.waiting;
                working = h.working;
                unrun = h.unrun;
                refusals = h.refusals;
              })
        | inr open_end ↦
            let law = lawful.send_accepted s.tasks t open_end in
            subst (λ o. IsLinked b j k (submitted s' t (o, (q.send s.tasks t).1)).1) (sym law.0)
              (record {
                addressed = addressed;
                flagged = flagged;
                raised = raised;
                waiting = rw law.1 (All-snoc (Linked b j k) (q.queued s.tasks) h.waiting link);
                working = h.working;
                unrun = h.unrun;
                refusals = h.refusals;
              })
      ]

  submit-IsLinked :
      (s : ComputeScheduler u q rch) (t : u.Ty) (job : Job (u.El t))
      → IsLinked b j k s
      → IsLinked b j k (submit s t job).1
  unfolding submit new_task
  submit-IsLinked s t job h =
      let one = length-append s.results (rch.bounded 1 ∷ []) in
      let two = length-append s.flags (false ∷ []) in
      submitted-IsLinked s (new_task s (boxed_job u t job)) (s.flags ++ false ∷ [])
        (s.results ++ rch.bounded 1 ∷ []) (new_id s.counter).1 (omega (arith, one, h.addressed))
        (omega (arith, two, h.flagged))
        (λ set_b. get_elem?-snoc_lt s.flags k false h.flagged ∙ h.raised set_b)
        (λ e. absurd (omega (arith, e, h.addressed))) h

  cancel-IsLinked :
      (s : ComputeScheduler u q rch) (c : ComputeHandle)
      → IsLinked b j k s
      → IsLinked b j k (cancel s c)
  unfolding cancel
  cancel-IsLinked s c h = record {
    addressed = h.addressed;
    flagged = rw (length-set s.flags c.cancelled true) h.flagged;
    raised = λ set_b. set-raised s.flags c.cancelled k (h.raised set_b);
    waiting = h.waiting;
    working = h.working;
    unrun = h.unrun;
    refusals = h.refusals;
  }

  step-IsLinked :
      (s : ComputeScheduler u q rch) (e : Event u) → IsLinked b j k s → IsLinked b j k (step s e)
  unfolding step spawn spawn_compute sender_clone release shutdown after_spawn drop_handle
      take_result take_at taken
  step-IsLinked s (turns i) h = turn-IsLinked lawful b j k s i h
  step-IsLinked s (spawns t job) h =
      if_cases (λ r. IsLinked b j k (after_spawn s r)) s.sender (λ _. submit-IsLinked s t job h)
        (λ _. record {
          addressed = h.addressed;
          flagged = h.flagged;
          raised = h.raised;
          waiting = h.waiting;
          working = h.working;
          unrun = h.unrun;
          refusals = h.refusals;
        })
  step-IsLinked s (submits t job) h =
      if_cases
        (λ (r : Result ComputeHandle ComputeError × ComputeScheduler u q rch). IsLinked b j k r.1)
        (ltb 0 s.lent) (λ _. submit-IsLinked s t job h) (λ _. h)
  step-IsLinked s (cancels c) h = cancel-IsLinked s c h
  step-IsLinked s (drops_handle c) h = elim (Option-cases (get_elem? s.results c.receiver)) [
    | inl e ↦ subst (λ o. IsLinked b j k (drop_handle s c.receiver o)) (sym e) h
    | inr (x, e) ↦
        subst (λ o. IsLinked b j k (drop_handle s c.receiver o)) (sym e)
          (results-IsLinked lawful b j k s c.receiver (rch.drop_receiver x) h)
  ]
  step-IsLinked s (polls c) h = elim (Option-cases (get_elem? s.results c.receiver)) [
    | inl e ↦ subst (λ o. IsLinked b j k (take_at s c.receiver o).1) (sym e) h
    | inr (x, e) ↦
        subst (λ o. IsLinked b j k (take_at s c.receiver o).1) (sym e)
          (results-IsLinked lawful b j k s c.receiver (rch.try_recv x).1 h)
  ]
  step-IsLinked s lends h =
      if_cases (λ (r : Bool × ComputeScheduler u q rch). IsLinked b j k r.1) s.sender
        (λ _.
          channel-IsLinked lawful b j k s (q.clone_sender s.tasks) (s.lent + 1) s.stop s.sender
            (lawful.clone_sender_lem s.tasks).0 h)
        (λ _. h)
  step-IsLinked s releases h =
      if_cases (IsLinked b j k) (s.lent == 0) (λ _. h)
        (λ _.
          channel-IsLinked lawful b j k s (q.drop_sender s.tasks) (s.lent - 1) s.stop s.sender
            (lawful.drop_sender_lem s.tasks).0 h)
  step-IsLinked s shuts_down h =
      channel-IsLinked lawful b j k s (if s.sender then q.drop_sender s.tasks else s.tasks) s.lent
        true false
        (if_cases (λ c. q.queued c ≡ q.queued s.tasks) s.sender
          (λ _. (lawful.drop_sender_lem s.tasks).0) (λ _. refl))
        h

  pub run-IsLinked :
      (s : ComputeScheduler u q rch) (es : List (Event u))
      → IsLinked b j k s
      → IsLinked b j k (run s es)
  unfolding run
  run-IsLinked s [] h = h
  run-IsLinked s (e ∷ es) h = run-IsLinked (step s e) es (step-IsLinked s e h)
