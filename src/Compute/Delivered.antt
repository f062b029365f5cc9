-- ===== src/Compute/Delivered.antt =====
-- src/compute: from `spawn` to `ComputeHandle::try_recv`, whatever happens in between.
use runact.Prelude.{
  get_elem?-end_snoc, Holds, total, ℕ, ◌<◌, ◌≡◌, refl, ap, sym, ◌∙◌, subst, ◌⊎◌, inl, inr, false,
  Option, none, some, Option-cases, List, [], ◌∷◌, ◌++◌, List-cases, length, get_elem?, All,
  All-snoc, Holds-some, length-append, arith,
}
use runact.Any.{Types, Any, downcast-boxed}
use runact.Channel.{Channels, Received, got, empty, hung_up, recv_none, zero_or_pos}
use runact.Channel
use runact.Channel.Unbounded.{Unbounded}
use runact.Channel.Unbounded
use runact.Actor.Error.{Result}
use runact.Compute.Tasks.{
  Job, returns, panics, boxed_job, new_id, ComputeResult, Task, ComputeError, scheduler_shutdown,
  worker_panic,
}
use runact.Compute.{
  top, receiving, checking, running, returned, answering, exited, Pc, new, ComputeScheduler,
  ComputeHandle, compute_result, panic_message, submit, submitted, new_task,
}
use runact.Compute.Events.{Event, run}
use runact.Compute.Handle.{try_recv, map_result, downcast_result, take_result, take_at, taken}
use runact.Compute.Conservation.{in_hand}
use runact.Compute.Answers.{slot, IsSound, run-IsSound, new-IsSound}
use runact.Compute.Served.{run-IsServed}
use runact.Compute.Typed.{WorksFor, AnswersTo, RunsFor, IsServed, Fine}

abbrev receiver_of : Result ComputeHandle ComputeError → ℕ
receiver_of (Result.ok h) = h.receiver
receiver_of (Result.err e) = 0

module _ (u : Types) (t : u.Ty) where
  -- What the caller is to get for its job, if it is not cancelled.
  abbrev pub outcome : Job (u.El t) → Result (u.El t) ComputeError
  outcome (returns v) = Result.ok v
  outcome (panics p) = Result.err (worker_panic (panic_message p))

  map_result-compute_result :
      (job : Job (u.El t)) → map_result u t (compute_result (boxed_job u t job)) ≡ outcome job
  unfolding map_result downcast_result compute_result boxed_job
  map_result-compute_result (returns v) = ap (downcast_result u t) (downcast-boxed u t v)
  map_result-compute_result (panics p) = refl

  -- What a handle can read: nothing yet, that the channel is closed and empty, that the task was
  -- cancelled, or the outcome of its job.
  abbrev pub IsReading : Job (u.El t) → Option (Result (u.El t) ComputeError) → Type 0
  IsReading job o =
      (o ≡ none)
      ⊎ (o ≡ some (Result.err scheduler_shutdown))
      ⊎ (o ≡ some (Result.err (worker_panic "Task cancelled")))
      ⊎ (o ≡ some (outcome job))

module _ {u : Types} (J : Job (Any u)) where
  -- What the channel gives is an answer to the job.
  abbrev Gives : Received (ComputeResult u) → Type 0
  Gives (got r) = AnswersTo J r
  Gives _ = Unit

module _ (u : Types) (t : u.Ty) (job : Job (u.El t)) where
  Gives-IsReading :
      (r : Received (ComputeResult u))
      → Gives (boxed_job u t job) r
      → IsReading u t job (try_recv u t r)
  unfolding try_recv map_result
  Gives-IsReading (got r) (inl e) = inr (inr (inl (ap (λ x. some (map_result u t x)) e)))
  Gives-IsReading (got r) (inr e) = inr (
      inr (inr (ap (λ x. some (map_result u t x)) e ∙ ap some (map_result-compute_result u t job))))
  Gives-IsReading empty h = inl refl
  Gives-IsReading hung_up h = inr (inl refl)

module _ {u : Types} {q : Unbounded (Task u)} {rch : Channels (ComputeResult u)}
    (q_lawful : Channel.Unbounded.IsLawful q) (r_lawful : Channel.IsLawful rch) (j : ℕ)
    (J : Job (Any u)) where
  try_recv-Gives : (c : rch.Chan) → Fine q_lawful r_lawful j J c → Gives J (rch.try_recv c).0
  try_recv-Gives c h = elim (List-cases (rch.queued c)) [
    | inl e ↦ elim (recv_none r_lawful c e) [
      | inl none_yet ↦ subst (λ p. Gives J p.0) (sym none_yet) tt
      | inr gone ↦ subst (λ p. Gives J p.0) (sym gone) tt
    ]
    | inr (r, rest, e) ↦
        let fine : All (AnswersTo J) (r ∷ rest) = rw e at h in
        subst (Gives J) (sym (r_lawful.recv_got c r rest e).0) fine.0
  ]

  take_result-Gives :
      (s : ComputeScheduler u q rch) (h : ComputeHandle)
      → h.receiver ≡ j
      → IsServed j J s
      → Gives J (take_result s h).0
  unfolding take_result take_at taken
  take_result-Gives s h own served = elim (Option-cases (get_elem? s.results h.receiver)) [
    | inl e ↦ subst (λ o. Gives J (take_at s h.receiver o).0) (sym e) tt
    | inr (c, e) ↦
        subst (λ o. Gives J (take_at s h.receiver o).0) (sym e)
          (try_recv-Gives c (
            Holds-some (Fine q_lawful r_lawful j J) (ap (get_elem? s.results) (sym own) ∙ e)
              served.arrived))
  ]

module _ {u : Types} (j : ℕ) (J : Job (Any u)) where
  unused-RunsFor : (t : Task u) → slot j t ≡ 0 → RunsFor j J t
  unused-RunsFor t none_of_it e = ground arith

  unused-WorksFor : (pc : Pc u) → in_hand (slot j) pc ≡ 0 → WorksFor j J pc
  unused-WorksFor top e = tt
  unused-WorksFor receiving e = tt
  unused-WorksFor (checking t) e = unused-RunsFor t e
  unused-WorksFor (running t) e = unused-RunsFor t e
  unused-WorksFor (returned t job) e = λ same. ground arith
  unused-WorksFor (answering t r) e = λ same. ground arith
  unused-WorksFor exited e = tt

  unused-waiting : (ts : List (Task u)) → total (slot j) ts ≡ 0 → All (RunsFor j J) ts
  unused-waiting [] e = tt
  unused-waiting (t ∷ ts) e =
      (unused-RunsFor t (omega (arith, e)), unused-waiting ts (omega (arith, e)))

  unused-working : (pcs : List (Pc u)) → total (in_hand (slot j)) pcs ≡ 0 → All (WorksFor j J) pcs
  unused-working [] e = tt
  unused-working (pc ∷ pcs) e =
      (unused-WorksFor pc (omega (arith, e)), unused-working pcs (omega (arith, e)))

module _ {u : Types} {q : Unbounded (Task u)} {rch : Channels (ComputeResult u)}
    (q_lawful : Channel.Unbounded.IsLawful q) (r_lawful : Channel.IsLawful rch) where
  -- A task that is accepted has the next channel for itself.
  submit-Serves :
      (s : ComputeScheduler u q rch) (t : u.Ty) (job : Job (u.El t)) (h : ComputeHandle)
      → IsSound s
      → (submit s t job).0 ≡ Result.ok h
      → (h.receiver ≡ length s.results)
        × IsServed (length s.results) (boxed_job u t job) (submit s t job).1
  unfolding submit submitted new_task
  submit-Serves s t job h sound ok =
      let j = length s.results in
      let J = boxed_job u t job in
      let task = new_task s J in
      let results = s.results ++ rch.bounded 1 ∷ [] in
      let s' = record s {
        results = results;
        flags = s.flags ++ false ∷ [];
        counter = (new_id s.counter).1;
      } in
      let unused : total (slot j) s.accepted ≡ 0 = ground (arith, sound.slots j) in
      let room : j < length results =
        rw (length-append s.results (rch.bounded 1 ∷ [])) (omega arith) in
      elim (zero_or_pos (q.receivers s.tasks)) [
        | inl gone ↦
            let refused =
              subst (λ p. (submitted s' task p).0 ≡ Result.ok h)
                (q_lawful.send_refused s.tasks task gone) ok in
            absurd (cc)
        | inr open_end ↦
            let law = q_lawful.send_accepted s.tasks task open_end in
            let c = (q.send s.tasks task).1 in
            let accepted = subst (λ b. (submitted s' task (b, c)).0 ≡ Result.ok h) law.0 ok in
            (
              sym (ap receiver_of accepted),
              subst (λ b. IsServed j J (submitted s' task (b, c)).1) (sym law.0)
                  (record {
                    addressed = room;
                    waiting = rw law.1 (
                        All-snoc (RunsFor j J) (q.queued s.tasks)
                          (unused-waiting j J (q.queued s.tasks)
                            (omega (arith, unused, sound.accounts (slot j))))
                          (λ _. refl));
                    working =
                        unused-working j J s.workers
                          (omega (arith, unused, sound.accounts (slot j)));
                    arrived =
                        subst (Holds (λ c. All (AnswersTo J) (rch.queued c)))
                          (sym (get_elem?-end_snoc s.results (rch.bounded 1)))
                          (rw (r_lawful.bounded_new 1).0 tt);
                  }),
            )
      ]

  -- Whatever happened before on a new pool, and whatever happens afterwards, in any order: the handle
  -- of an accepted job of type `t` reads, each time it is tried, one of four things: nothing
  -- yet, that the channel is closed with nothing in it, that the task was cancelled, or the outcome
  -- of that very job, which is its value of type `t`, or the message of its panic. Never
  -- "Type mismatch", and never the answer to another task.
  pub submit-IsReading :
      (n : ℕ) (before after : List (Event u)) (t : u.Ty) (job : Job (u.El t)) (h : ComputeHandle)
      → (submit (run (new {q = q} {rch = rch} n) before) t job).0 ≡ Result.ok h
      → IsReading u t job (
          try_recv u t
            (take_result (run (submit (run (new {q = q} {rch = rch} n) before) t job).1 after) h).0)
  submit-IsReading n before after t job h ok =
      let s = run (new n) before in
      let (own, served) =
        submit-Serves s t job h (run-IsSound q_lawful (new n) before (new-IsSound q_lawful n)) ok in
      let later =
        run-IsServed q_lawful r_lawful (length s.results) (boxed_job u t job) (submit s t job).1
          after served in
      Gives-IsReading u t job (take_result (run (submit s t job).1 after) h).0 (
        take_result-Gives q_lawful r_lawful (length s.results) (boxed_job u t job)
          (run (submit s t job).1 after) h own later)
