-- ===== src/Compute/InTime.antt =====
-- src/compute: a job whose handle is cancelled before a worker has checked its task.
use runact.Prelude.{
  ℕ, ◌+◌, ◌≤◌, ◌≡◌, refl, ap, sym, subst, inl, inr, Bool, true, false, List, [], ◌∷◌, ◌++◌, length,
  length-append, length-set, get_elem?-set_self, All, All-snoc, total, arith,
}
use runact.Any.{Types}
use runact.Channel.{Channels, zero_or_pos}
use runact.Channel
use runact.Channel.Unbounded.{Unbounded}
use runact.Channel.Unbounded
use runact.Actor.Error.{Result}
use runact.Compute.Tasks.{Job, boxed_job, new_id, ComputeResult, Task, ComputeError}
use runact.Compute.{
  Pc, top, receiving, checking, running, returned, answering, exited, ComputeScheduler,
  ComputeHandle, new, submit, submitted, new_task, cancel,
}
use runact.Compute.Events.{Event, run}
use runact.Compute.Conservation.{of_answer, in_hand}
use runact.Compute.Answers.{slot, IsSound, run-IsSound, new-IsSound, submit-IsSound}
use runact.Compute.Skipped.{Linked, KeepsOff, IsRefusal, IsLinked}
use runact.Compute.Cancelled.{run-IsLinked}
use runact.Compute.Skipped.{Linked, KeepsOff, IsRefusal, IsLinked}
use runact.Compute.Answers.{submit-IsSound, slot}
use runact.Compute.{cancel}
use runact.Prelude.{get_elem?-set_self}

-- The weight of the task of a worker that has not made the first check of it.
abbrev pub unchecked : {u : Types} (w : Task u → ℕ) → Pc u → ℕ
unchecked w (checking t) = w t
unchecked w _ = 0

module _ {u : Types} (j k : ℕ) where
  unused-Linked : (b : Bool) (ts : List (Task u)) → total (slot j) ts ≡ 0 → All (Linked b j k) ts
  unused-Linked b [] e = tt
  unused-Linked b (t ∷ ts) e = (λ own. ground (arith, own), unused-Linked b ts (omega (arith, e)))

  unused-KeepsOff :
      (pcs : List (Pc u)) → total (in_hand (slot j)) pcs ≡ 0 → All (KeepsOff false j k) pcs
  unused-KeepsOff [] e = tt
  unused-KeepsOff (checking t ∷ pcs) e =
      (λ own. ground (arith, own), unused-KeepsOff pcs (omega (arith, e)))
  unused-KeepsOff (running t ∷ pcs) e = (λ f. absurd (cc), unused-KeepsOff pcs (omega (arith, e)))
  unused-KeepsOff (returned t job ∷ pcs) e =
      (λ f. absurd (cc), unused-KeepsOff pcs (omega (arith, e)))
  unused-KeepsOff (answering t r ∷ pcs) e =
      (λ f. absurd (cc), unused-KeepsOff pcs (omega (arith, e)))
  unused-KeepsOff (top ∷ pcs) e = (tt, unused-KeepsOff pcs (omega (arith, e)))
  unused-KeepsOff (receiving ∷ pcs) e = (tt, unused-KeepsOff pcs (omega (arith, e)))
  unused-KeepsOff (exited ∷ pcs) e = (tt, unused-KeepsOff pcs (omega (arith, e)))

  unused-IsRefusal :
      (b : Bool) (answers : List (Task u × ComputeResult u))
      → total (of_answer (slot j)) answers ≡ 0
      → All (IsRefusal b j k) answers
  unused-IsRefusal b [] e = tt
  unused-IsRefusal b (a ∷ answers) e =
      (λ _ own. absurd (ground (arith, own)), unused-IsRefusal b answers (omega (arith, e)))

  refused :
      (answers : List (Task u × ComputeResult u))
      → All (IsRefusal true j k) answers
      → All (λ a. a.0.result_sender ≡ j → a.1 ≡ ComputeResult.cancelled) answers
  refused [] h = tt
  refused (a ∷ answers) h = (h.0 refl, refused answers h.1)

  before_raising : (answers : List (Task u × ComputeResult u)) → All (IsRefusal false j k) answers
  before_raising [] = tt
  before_raising (a ∷ answers) = (λ f. absurd (cc), before_raising answers)

  unchecked-le : (pcs : List (Pc u)) → total (unchecked (slot j)) pcs ≤ total (in_hand (slot j)) pcs
  unchecked-le [] = omega arith
  unchecked-le (checking t ∷ pcs) = omega (arith, unchecked-le pcs)
  unchecked-le (running t ∷ pcs) = omega (arith, unchecked-le pcs)
  unchecked-le (returned t job ∷ pcs) = omega (arith, unchecked-le pcs)
  unchecked-le (answering t r ∷ pcs) = omega (arith, unchecked-le pcs)
  unchecked-le (top ∷ pcs) = omega (arith, unchecked-le pcs)
  unchecked-le (receiving ∷ pcs) = omega (arith, unchecked-le pcs)
  unchecked-le (exited ∷ pcs) = omega (arith, unchecked-le pcs)

  -- No worker is beyond its first check of the task: the flag can be raised.
  raised-KeepsOff :
      (pcs : List (Pc u))
      → total (in_hand (slot j)) pcs ≤ total (unchecked (slot j)) pcs
      → All (KeepsOff false j k) pcs
      → All (KeepsOff true j k) pcs
  raised-KeepsOff [] e h = tt
  raised-KeepsOff (checking t ∷ pcs) e h = (h.0, raised-KeepsOff pcs (omega (arith, e)) h.1)
  raised-KeepsOff (running t ∷ pcs) e h = (
    λ _ own. ground (arith, own, e, unchecked-le pcs),
    raised-KeepsOff pcs (ground (arith, e, unchecked-le pcs)) h.1,
  )
  raised-KeepsOff (returned t job ∷ pcs) e h = (
    λ _ own. ground (arith, own, e, unchecked-le pcs),
    raised-KeepsOff pcs (ground (arith, e, unchecked-le pcs)) h.1,
  )
  raised-KeepsOff (answering t r ∷ pcs) e h = (
    λ _ own. absurd (ground (arith, own, e, unchecked-le pcs)),
    raised-KeepsOff pcs (ground (arith, e, unchecked-le pcs)) h.1,
  )
  raised-KeepsOff (top ∷ pcs) e h = (tt, raised-KeepsOff pcs (omega (arith, e)) h.1)
  raised-KeepsOff (receiving ∷ pcs) e h = (tt, raised-KeepsOff pcs (omega (arith, e)) h.1)
  raised-KeepsOff (exited ∷ pcs) e h = (tt, raised-KeepsOff pcs (omega (arith, e)) h.1)

abbrev handle_or : ComputeHandle → Result ComputeHandle ComputeError → ComputeHandle
handle_or d (Result.ok h) = h
handle_or d (Result.err e) = d

module _ {u : Types} {q : Unbounded (Task u)} {rch : Channels (ComputeResult u)}
    (lawful : Channel.Unbounded.IsLawful q) where
  submit-Links :
      (s : ComputeScheduler u q rch) (t : u.Ty) (job : Job (u.El t)) (h : ComputeHandle)
      → IsSound s
      → (submit s t job).0 ≡ Result.ok h
      → IsLinked false h.receiver h.cancelled (submit s t job).1
  unfolding submit submitted new_task
  submit-Links s t job h sound ok =
      let j = length s.results in
      let k = length s.flags in
      let task = new_task s (boxed_job u t job) in
      let results = s.results ++ rch.bounded 1 ∷ [] in
      let flags = s.flags ++ false ∷ [] in
      let s' = record s { results = results; flags = flags; counter = (new_id s.counter).1 } in
      let unused : total (slot j) s.accepted ≡ 0 = ground (arith, sound.slots j) in
      elim (zero_or_pos (q.receivers s.tasks)) [
        | inl gone ↦
            let refused =
              subst (λ p. (submitted s' task p).0 ≡ Result.ok h)
                (lawful.send_refused s.tasks task gone) ok in
            absurd (cc)
        | inr open_end ↦
            let law = lawful.send_accepted s.tasks task open_end in
            let c = (q.send s.tasks task).1 in
            let accepted = subst (λ b. (submitted s' task (b, c)).0 ≡ Result.ok h) law.0 ok in
            let mine : record { receiver = j; cancelled = k } ≡ h = ap (handle_or h) accepted in
            subst
              (λ (x : ComputeHandle).
                IsLinked false x.receiver x.cancelled (submitted s' task (q.send s.tasks task)).1)
              mine
              (subst (λ b. IsLinked false j k (submitted s' task (b, c)).1) (sym law.0)
                (record {
                  addressed = rw (length-append s.results (rch.bounded 1 ∷ [])) (omega arith);
                  flagged = rw (length-append s.flags (false ∷ [])) (omega arith);
                  raised = λ f. absurd (cc);
                  waiting = rw law.1 (
                      All-snoc (Linked false j k) (q.queued s.tasks)
                        (unused-Linked j k false (q.queued s.tasks)
                          (omega (arith, unused, sound.accounts (slot j))))
                        (λ _. refl));
                  working =
                      unused-KeepsOff j k s.workers
                        (omega (arith, unused, sound.accounts (slot j)));
                  unrun = λ f. absurd (cc);
                  refusals = before_raising j k s.answered;
                }))
      ]

  cancel-Raises :
      (s : ComputeScheduler u q rch) (h : ComputeHandle)
      → IsSound s
      → IsLinked false h.receiver h.cancelled s
      → total (slot h.receiver) (q.queued s.tasks) + total (unchecked (slot h.receiver)) s.workers
        ≡ 1
      → total (slot h.receiver) s.ran ≡ 0
      → IsLinked true h.receiver h.cancelled (cancel s h)
  unfolding cancel
  cancel-Raises s h sound linked waits unrun =
      let j = h.receiver in
      let k = h.cancelled in
      let account = sound.accounts (slot j) in
      let few : total (slot j) s.accepted ≤ 1 = ground (arith, sound.slots j) in
      record {
        addressed = linked.addressed;
        flagged = rw (length-set s.flags k true) linked.flagged;
        raised = λ _. get_elem?-set_self s.flags k true linked.flagged;
        waiting = linked.waiting;
        working = raised-KeepsOff j k s.workers (omega (arith, account, few, waits)) linked.working;
        unrun = λ _. unrun;
        refusals =
            unused-IsRefusal j k true s.answered
              (omega (arith, account, few, waits, unchecked-le j k s.workers));
      }

  -- An accepted job whose handle is cancelled, after whatever happened before and between, while its
  -- task is queued, or with a worker that has not yet checked it, and has not been run: whatever
  -- happens afterwards, in any order, the job is never run, and each answer to its task is that it
  -- was cancelled.
  pub cancel-Skips :
      (n : ℕ) (before between after : List (Event u)) (t : u.Ty) (job : Job (u.El t))
      (h : ComputeHandle) (s : ComputeScheduler u q rch)
      → (submit (run (new {q = q} {rch = rch} n) before) t job).0 ≡ Result.ok h
      → run (submit (run (new {q = q} {rch = rch} n) before) t job).1 between ≡ s
      → total (slot h.receiver) (q.queued s.tasks) + total (unchecked (slot h.receiver)) s.workers
        ≡ 1
      → total (slot h.receiver) s.ran ≡ 0
      → (total (slot h.receiver) (run (cancel s h) after).ran ≡ 0)
        × All
            (λ a. a.0.result_sender ≡ h.receiver → a.1 ≡ ComputeResult.cancelled)
            (run (cancel s h) after).answered
  cancel-Skips n before between after t job h s ok reached waits unrun =
      let start : ComputeScheduler u q rch = run (new {q = q} {rch = rch} n) before in
      let sound = run-IsSound lawful (new n) before (new-IsSound lawful n) in
      let sound' = subst IsSound reached (
        run-IsSound lawful (submit start t job).1 between
          (submit-IsSound lawful start t job sound)) in
      let linked = subst (IsLinked false h.receiver h.cancelled) reached (
        run-IsLinked lawful false h.receiver h.cancelled (submit start t job).1 between
          (submit-Links start t job h sound ok)) in
      let after_all =
        run-IsLinked lawful true h.receiver h.cancelled (cancel s h) after
          (cancel-Raises s h sound' linked waits unrun) in
      (after_all.unrun refl, refused h.receiver h.cancelled _ after_all.refusals)
