-- ===== src/Compute/Answers.antt =====
-- src/compute/scheduler.rs: what becomes of an accepted task, over every order of events.
use runact.Prelude.{
  ◌-◌, ℕ, zero, suc, ◌+◌, ◌≤◌, ◌≡◌, refl, ap, sym, ◌∙◌, subst, Bool, true, false, inl, inr, Option,
  none, some, List, [], ◌∷◌, ◌++◌, length, length-append, length-set, get_elem?, set, total,
  total-append, total-replicate, arith, if_cases, ltb, ◌==◌, if◌then◌else◌,
}
use runact.Any.{Types}
use runact.Channel.{Channels, zero_or_pos}
use runact.Channel.Unbounded.{Unbounded, IsLawful}
use runact.Compute.Tasks.{Job, ComputeResult, Task}
use runact.Compute.{
  ComputeError, Result, release, new_id, sender_clone, boxed_job, spawn_compute, top,
  ComputeScheduler, ComputeHandle, new, clone_receivers, submitted, new_task, submit, spawn, cancel,
  shutdown, turn,
}
use runact.Compute.Events.{
  polls, Event, turns, spawns, submits, cancels, drops_handle, polls, lends, releases, shuts_down,
  after_spawn, drop_handle, step, run,
}
use runact.Compute.Handle.{take_at, taken, take_result}
use runact.Compute.Conservation.{in_hand, of_answer, known, turn-Kept}

-- 1 for a task that answers through the channel `j`.
abbrev pub slot : {u : Types} → ℕ → Task u → ℕ
slot j t = if t.result_sender == j then 1 else 0

module _ {u : Types} {q : Unbounded (Task u)} {rch : Channels (ComputeResult u)} where
  -- Each accepted task is in exactly one place, and each result channel serves one task at most.
  pub record IsSound (s : ComputeScheduler u q rch) : Type 0 where
    pub accounts : (w : Task u → ℕ) → total w s.accepted ≡ known w s
    pub slots : (j : ℕ) → total (slot j) s.accepted ≤ (if ltb j (length s.results) then 1 else 0)

module _ {u : Types} {q : Unbounded (Task u)} {rch : Channels (ComputeResult u)}
    (lawful : IsLawful q) where
  turn-IsSound : (s : ComputeScheduler u q rch) (i : ℕ) → IsSound s → IsSound (turn s i)
  turn-IsSound s i h = record {
    accounts = λ w.
        let k = turn-Kept lawful w s i in
        ap (total w) k.same_accepted ∙ h.accounts w ∙ sym k.same_known;
    slots = λ j.
        let k = turn-Kept lawful (λ t. 0) s i in rw (k.same_accepted, k.same_length) (h.slots j);
  }

  refused-IsSound :
      (s : ComputeScheduler u q rch) (t : Task u) (c : q.Chan)
      → q.queued c ≡ q.queued s.tasks
      → IsSound s
      → (results : List rch.Chan) (flags : List Bool) (counter : ℕ)
      → length s.results ≤ length results
      → IsSound (record s { tasks = c; results = results; flags = flags; counter = counter })
  refused-IsSound s t c e h results flags counter more = record {
    accounts = λ w. h.accounts w ∙ sym (omega (arith, ap (total w) e));
    slots = λ j. ground (arith, h.slots j, more);
  }

  accepted-IsSound :
      (s : ComputeScheduler u q rch) (t : Task u) (c : q.Chan)
      → q.queued c ≡ q.queued s.tasks ++ t ∷ []
      → t.result_sender ≡ length s.results
      → IsSound s
      → (results : List rch.Chan) (flags : List Bool) (counter : ℕ)
      → length results ≡ suc (length s.results)
      → IsSound (record s {
        tasks = c;
        results = results;
        flags = flags;
        counter = counter;
        accepted = t ∷ s.accepted;
      })
  accepted-IsSound s t c e own h results flags counter more = record {
    accounts = λ w.
        omega (arith, h.accounts w, ap (total w) e, total-append w (q.queued s.tasks) (t ∷ []));
    slots = λ j. ground (arith, h.slots j, more, own);
  }

  pub submit-IsSound :
      (s : ComputeScheduler u q rch) (t : u.Ty) (job : Job (u.El t))
      → IsSound s
      → IsSound (submit s t job).1
  unfolding submit submitted new_task
  submit-IsSound s t job h =
      let task = new_task s (boxed_job u t job) in
      let results = s.results ++ rch.bounded 1 ∷ [] in
      let flags = s.flags ++ false ∷ [] in
      let counter = (new_id s.counter).1 in
      let s' = record s { results = results; flags = flags; counter = counter } in
      let more = length-append s.results (rch.bounded 1 ∷ []) in
      elim (zero_or_pos (q.receivers s.tasks)) [
        | inl gone ↦
            subst (λ p. IsSound (submitted s' task p).1)
              (sym (lawful.send_refused s.tasks task gone))
              (refused-IsSound s task s.tasks refl h results flags counter (omega (arith, more)))
        | inr open_end ↦
            let law = lawful.send_accepted s.tasks task open_end in
            let c = (q.send s.tasks task).1 in
            subst (λ b. IsSound (submitted s' task (b, c)).1) (sym law.0)
              (accepted-IsSound s task c law.1 refl h results flags counter (omega (arith, more)))
      ]

  spawn-IsSound :
      (s : ComputeScheduler u q rch) (t : u.Ty) (job : Job (u.El t))
      → IsSound s
      → IsSound (after_spawn s (spawn s t job))
  unfolding after_spawn spawn
  spawn-IsSound s t job h =
      if_cases (λ r. IsSound (after_spawn s r)) s.sender (λ e. submit-IsSound s t job h)
        (λ e. record { accounts = h.accounts; slots = h.slots })

  results-IsSound :
      (s : ComputeScheduler u q rch) (i : ℕ) (c : rch.Chan)
      → IsSound s
      → IsSound (record s { results = set s.results i c })
  results-IsSound s i c h = record {
    accounts = h.accounts;
    slots = λ j. rw (length-set s.results i c) (h.slots j);
  }

  drop_handle-IsSound :
      (s : ComputeScheduler u q rch) (i : ℕ) (o : Option rch.Chan)
      → IsSound s
      → IsSound (drop_handle s i o)
  unfolding drop_handle
  drop_handle-IsSound s i none h = h
  drop_handle-IsSound s i (some c) h = results-IsSound s i (rch.drop_receiver c) h

  take_at-IsSound :
      (s : ComputeScheduler u q rch) (i : ℕ) (o : Option rch.Chan)
      → IsSound s
      → IsSound (take_at s i o).1
  unfolding take_at taken
  take_at-IsSound s i none h = h
  take_at-IsSound s i (some c) h = results-IsSound s i (rch.try_recv c).1 h

  channel-IsSound :
      (s : ComputeScheduler u q rch) (c : q.Chan) (lent : ℕ) (stop sender : Bool)
      → q.queued c ≡ q.queued s.tasks
      → IsSound s
      → IsSound (record s { tasks = c; lent = lent; stop = stop; sender = sender })
  channel-IsSound s c lent stop sender e h = record {
    accounts = λ w. h.accounts w ∙ sym (omega (arith, ap (total w) e));
    slots = h.slots;
  }

  pub step-IsSound : (s : ComputeScheduler u q rch) (e : Event u) → IsSound s → IsSound (step s e)
  unfolding step spawn_compute cancel sender_clone release shutdown take_result
  step-IsSound s (turns i) h = turn-IsSound s i h
  step-IsSound s (spawns t job) h = spawn-IsSound s t job h
  step-IsSound s (submits t job) h =
      if_cases (λ (r : Result ComputeHandle ComputeError × ComputeScheduler u q rch). IsSound r.1)
        (ltb 0 s.lent) (λ e. submit-IsSound s t job h) (λ e. h)
  step-IsSound s (cancels c) h = record { accounts = h.accounts; slots = h.slots }
  step-IsSound s (drops_handle c) h =
      drop_handle-IsSound s c.receiver (get_elem? s.results c.receiver) h
  step-IsSound s (polls c) h = take_at-IsSound s c.receiver (get_elem? s.results c.receiver) h
  step-IsSound s lends h =
      if_cases (λ (r : Bool × ComputeScheduler u q rch). IsSound r.1) s.sender
        (λ e.
          channel-IsSound s (q.clone_sender s.tasks) (s.lent + 1) s.stop s.sender
            (lawful.clone_sender_lem s.tasks).0 h)
        (λ e. h)
  step-IsSound s releases h =
      if_cases IsSound (s.lent == 0) (λ e. h)
        (λ e.
          channel-IsSound s (q.drop_sender s.tasks) (s.lent - 1) s.stop s.sender
            (lawful.drop_sender_lem s.tasks).0 h)
  step-IsSound s shuts_down h =
      channel-IsSound s (if s.sender then q.drop_sender s.tasks else s.tasks) s.lent true false
        (if_cases (λ c. q.queued c ≡ q.queued s.tasks) s.sender
          (λ e. (lawful.drop_sender_lem s.tasks).0) (λ e. refl))
        h

  pub run-IsSound :
      (s : ComputeScheduler u q rch) (es : List (Event u)) → IsSound s → IsSound (run s es)
  unfolding run
  run-IsSound s [] h = h
  run-IsSound s (e ∷ es) h = run-IsSound (step s e) es (step-IsSound s e h)

module _ {A : Type 0} {q : Unbounded A} (lawful : IsLawful q) where
  queued-clone_receivers :
      (n : ℕ) (c : q.Chan) → q.queued c ≡ [] → q.queued (clone_receivers q n c) ≡ []
  unfolding clone_receivers
  queued-clone_receivers zero c e = e
  queued-clone_receivers (suc n) c e =
      queued-clone_receivers n (q.clone_receiver c) ((lawful.clone_receiver_lem c).0 ∙ e)

  queued-drop_receiver : (c : q.Chan) → q.queued c ≡ [] → q.queued (q.drop_receiver c) ≡ []
  queued-drop_receiver c e =
      (lawful.drop_receiver_lem c).0
      ∙ if_cases (λ xs. xs ≡ []) (q.receivers c == 1) (λ _. refl) (λ _. e)

module _ {u : Types} {q : Unbounded (Task u)} (lawful : IsLawful q) where
  pub new-IsSound : {rch : Channels (ComputeResult u)} (n : ℕ) → IsSound {rch = rch} (new {q = q} n)
  unfolding new
  new-IsSound n = record {
    accounts = λ w. omega (
      arith,
      ap (total w) (
          queued-drop_receiver lawful (clone_receivers q n q.unbounded)
            (queued-clone_receivers lawful n q.unbounded lawful.unbounded_new.0)),
      total-replicate (in_hand w) n top refl,
    );
    slots = λ j. omega arith;
  }

  at_most_once :
      {rch : Channels (ComputeResult u)} (s : ComputeScheduler u q rch) (j : ℕ)
      → IsSound s
      → total (of_answer (slot j)) s.answered ≤ 1
  at_most_once s j h = ground (arith, h.accounts (slot j), h.slots j)

  -- Whatever the workers, the callers, the contexts and the handles do, in any order, from a new pool
  -- of any size: every accepted task is queued, or with one worker, or answered, or gone with
  -- the queue when the last worker ended, and in one of these places only; and no result channel
  -- is answered twice.
  pub run-Accounts :
      (rch : Channels (ComputeResult u)) (n : ℕ) (es : List (Event u)) (w : Task u → ℕ) (j : ℕ)
      → (let s = run (new {q = q} {rch = rch} n) es in
          (total w s.accepted
            ≡ total w (q.queued s.tasks)
              + total (in_hand w) s.workers
              + total (of_answer w) s.answered
              + total w s.discarded)
          × (total (of_answer (slot j)) s.answered ≤ 1))
  run-Accounts rch n es w j =
      let h = run-IsSound lawful (new n) es (new-IsSound n) in
      (h.accounts w, at_most_once (run (new n) es) j h)
