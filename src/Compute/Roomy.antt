-- ===== src/Compute/Roomy.antt =====
-- src/compute/scheduler.rs: a result channel holds no more results than its task was answered.
use runact.Prelude.{
  Holds-map, ℕ, ◌≤◌, ◌≡◌, refl, ap, sym, ◌∙◌, subst, inl, inr, Bool, true, false, some,
  Option-cases, List, [], ◌∷◌, ◌++◌, List-cases, length, length-append, get_elem?, set, Holds,
  Holds-set, Holds-snoc, Holds-some, total, arith, if_cases, ltb, ◌==◌,
}
use runact.Any.{Types}
use runact.Channel.{
  Channels, Sent, sent, full, disconnected, Received, got, empty, hung_up, recv_none, IsLawful,
}
use runact.Channel.Unbounded.{Unbounded}
use runact.Actor.Error.{Result}
use runact.Compute.Tasks.{Job, boxed_job, new_id, ComputeResult, Task, ComputeError}
use runact.Compute.{
  Pc, top, receiving, checking, running, returned, answering, exited, ComputeScheduler,
  ComputeHandle, act, turn, turn_at, exit, received, left_behind, drop_tasks, drop_result_sender,
  answer, answer_sent, submit, submitted, new_task, spawn, spawn_compute, cancel, sender_clone,
  release, shutdown,
}
use runact.Compute.Events.{
  Event, turns, spawns, submits, cancels, drops_handle, polls, lends, releases, shuts_down, step,
  run, after_spawn, drop_handle,
}
use runact.Compute.Handle.{take_result, take_at, taken}
use runact.Compute.Conservation.{of_answer}
use runact.Compute.Answers.{slot}

module _ {u : Types} (rch : Channels (ComputeResult u)) where
  abbrev pub IsRoomy : ℕ → List (Task u × ComputeResult u) → rch.Chan → Type 0
  IsRoomy j answered c =
      (rch.capacity c ≡ 1) × (length (rch.queued c) ≤ total (of_answer (slot j)) answered)

  -- The channel `j`, if it is used.
  abbrev pub RoomyAt : ℕ → List (Task u × ComputeResult u) → List rch.Chan → Type 0
  RoomyAt j answered results = Holds (IsRoomy j answered) (get_elem? results j)

module _ {u : Types} {rch : Channels (ComputeResult u)} (lawful : IsLawful rch) (j : ℕ)
    (answered : List (Task u × ComputeResult u)) where
  drop_sender-IsRoomy :
      (c : rch.Chan) → IsRoomy rch j answered c → IsRoomy rch j answered (rch.drop_sender c)
  drop_sender-IsRoomy c h =
      let law = lawful.drop_sender_kept c in (law.1 ∙ h.0, omega (arith, h.1, ap length law.0))

  drop_receiver-IsRoomy :
      (c : rch.Chan) → IsRoomy rch j answered c → IsRoomy rch j answered (rch.drop_receiver c)
  drop_receiver-IsRoomy c h =
      let law = lawful.drop_gone c in (law.1 ∙ h.0, omega (arith, ap length law.0))

  try_recv-IsRoomy :
      (c : rch.Chan) → IsRoomy rch j answered c → IsRoomy rch j answered (rch.try_recv c).1
  try_recv-IsRoomy c h = elim (List-cases (rch.queued c)) [
    | inl e ↦ elim (recv_none lawful c e) [ inl none_yet ↦ rw none_yet h | inr gone ↦ rw gone h ]
    | inr (r, rest, e) ↦
        let law = lawful.recv_got c r rest e in
        (law.2.same_capacity ∙ h.0, omega (arith, h.1, ap length law.1, ap length e))
  ]

  replaced-RoomyAt :
      (results : List rch.Chan) (i : ℕ) (c c' : rch.Chan)
      → get_elem? results i ≡ some c
      → (IsRoomy rch j answered c → IsRoomy rch j answered c')
      → RoomyAt rch j answered results
      → RoomyAt rch j answered (set results i c')
  replaced-RoomyAt results i c c' at f h =
      Holds-set (IsRoomy rch j answered) results i j c' h
        (λ e. f (Holds-some (IsRoomy rch j answered) (ap (get_elem? results) (sym e) ∙ at) h))

  drop_tasks-RoomyAt :
      (ts : List (Task u)) (results : List rch.Chan)
      → RoomyAt rch j answered results
      → RoomyAt rch j answered (drop_tasks rch ts results)
  unfolding drop_tasks drop_result_sender
  drop_tasks-RoomyAt [] results h = h
  drop_tasks-RoomyAt (t ∷ ts) results h = elim (Option-cases (get_elem? results t.result_sender)) [
    | inl e ↦ rw e (drop_tasks-RoomyAt ts results h)
    | inr (c, e) ↦ rw e (
        drop_tasks-RoomyAt ts (set results t.result_sender (rch.drop_sender c)) (
          replaced-RoomyAt results t.result_sender c (rch.drop_sender c) e (drop_sender-IsRoomy c)
            h))
  ]

  -- One more answer, to the task `t`.
  answered-RoomyAt :
      (results : List rch.Chan) (t : Task u) (r : ComputeResult u) (c : rch.Chan)
      → get_elem? results t.result_sender ≡ some c
      → RoomyAt rch j answered results
      → RoomyAt rch j
          ((t, r) ∷ answered)
          (set results t.result_sender (rch.drop_sender (rch.try_send c r).1))
  answered-RoomyAt results t r c at h =
      Holds-set (IsRoomy rch j ((t, r) ∷ answered)) results t.result_sender j
        (rch.drop_sender (rch.try_send c r).1)
        (Holds-map (IsRoomy rch j answered) (IsRoomy rch j ((t, r) ∷ answered))
          (λ c' h'. (h'.0, omega (arith, h'.1))) (get_elem? results j) h)
        (λ own.
          let before : IsRoomy rch j answered c =
            Holds-some (IsRoomy rch j answered) (ap (get_elem? results) (sym own) ∙ at) h in
          let dropped = lawful.drop_sender_kept (rch.try_send c r).1 in
          let one : slot j t ≡ 1 = ground arith in
          (
            dropped.1 ∙ (lawful.send_same c r).same_capacity ∙ before.0,
            elim (lawful.send_adds c r) [
              | inl same ↦ omega (arith, before.1, ap length same, ap length dropped.0, one)
              | inr more ↦ omega (
                arith,
                before.1,
                ap length more,
                length-append (rch.queued c) (r ∷ []),
                ap length dropped.0,
                one,
              )
            ],
          ))

module _ {u : Types} {q : Unbounded (Task u)} {rch : Channels (ComputeResult u)}
    (lawful : IsLawful rch) (j : ℕ) where
  abbrev pub Roomy : ComputeScheduler u q rch → Type 0
  Roomy s = RoomyAt rch j s.answered s.results

  answer_sent-Roomy :
      (s : ComputeScheduler u q rch) (i : ℕ) (t : Task u) (r : ComputeResult u) (c : rch.Chan)
      (v : Sent) (c' : rch.Chan)
      → get_elem? s.results t.result_sender ≡ some c
      → c' ≡ (rch.try_send c r).1
      → Roomy s
      → Roomy (answer_sent s i t r (v, c'))
  unfolding answer_sent
  answer_sent-Roomy s i t r c full c' at same h = h
  answer_sent-Roomy s i t r c sent c' at same h =
      subst
        (λ x.
          RoomyAt rch j ((t, r) ∷ s.answered) (set s.results t.result_sender (rch.drop_sender x)))
        (sym same) (answered-RoomyAt lawful j s.answered s.results t r c at h)
  answer_sent-Roomy s i t r c disconnected c' at same h =
      subst
        (λ x.
          RoomyAt rch j ((t, r) ∷ s.answered) (set s.results t.result_sender (rch.drop_sender x)))
        (sym same) (answered-RoomyAt lawful j s.answered s.results t r c at h)

  exit-Roomy : (s : ComputeScheduler u q rch) (i : ℕ) → Roomy s → Roomy (exit s i)
  unfolding exit
  exit-Roomy s i h = drop_tasks-RoomyAt lawful j s.answered (left_behind q s.tasks) s.results h

  received-Roomy :
      (s : ComputeScheduler u q rch) (i : ℕ) (p : Received (Task u) × q.Chan)
      → Roomy s
      → Roomy (received s i p)
  unfolding received
  received-Roomy s i (got t, c) h = h
  received-Roomy s i (empty, c) h = h
  received-Roomy s i (hung_up, c) h = exit-Roomy (record s { tasks = c }) i h

  act-Roomy : (s : ComputeScheduler u q rch) (i : ℕ) (pc : Pc u) → Roomy s → Roomy (act s i pc)
  unfolding act answer
  act-Roomy s i top h = if_cases Roomy s.stop (λ _. exit-Roomy s i h) (λ _. h)
  act-Roomy s i receiving h = received-Roomy s i (q.try_recv s.tasks) h
  act-Roomy s i (checking t) h = h
  act-Roomy s i (running t) h = h
  act-Roomy s i (returned t job) h = h
  act-Roomy s i (answering t r) h = elim (Option-cases (get_elem? s.results t.result_sender)) [
    | inl e ↦ subst (λ o. Roomy (answer s i t r o)) (sym e) h
    | inr (c, e) ↦
        subst (λ o. Roomy (answer s i t r o)) (sym e)
          (answer_sent-Roomy s i t r c (rch.try_send c r).0 (rch.try_send c r).1 e refl h)
  ]
  act-Roomy s i exited h = h

  turn-Roomy : (s : ComputeScheduler u q rch) (i : ℕ) → Roomy s → Roomy (turn s i)
  unfolding turn turn_at
  turn-Roomy s i h = elim (Option-cases (get_elem? s.workers i)) [
    | inl e ↦ subst (λ o. Roomy (turn_at s i o)) (sym e) h
    | inr (pc, e) ↦ subst (λ o. Roomy (turn_at s i o)) (sym e) (act-Roomy s i pc h)
  ]

  submitted-Roomy :
      (s : ComputeScheduler u q rch) (t : Task u) (p : Bool × q.Chan)
      → Roomy s
      → Roomy (submitted s t p).1
  unfolding submitted
  submitted-Roomy s t (true, c) h = h
  submitted-Roomy s t (false, c) h = h

  submit-Roomy :
      (s : ComputeScheduler u q rch) (t : u.Ty) (job : Job (u.El t))
      → Roomy s
      → Roomy (submit s t job).1
  unfolding submit
  submit-Roomy s t job h =
      let task = new_task s (boxed_job u t job) in
      let law = lawful.bounded_new 1 in
      submitted-Roomy
        (record s {
          results = s.results ++ rch.bounded 1 ∷ [];
          flags = s.flags ++ false ∷ [];
          counter = (new_id s.counter).1;
        })
        task (q.send s.tasks task)
        (Holds-snoc (IsRoomy rch j s.answered) s.results j h
          (law.1, omega (arith, ap length law.0)))

  pub step-Roomy : (s : ComputeScheduler u q rch) (e : Event u) → Roomy s → Roomy (step s e)
  unfolding step spawn spawn_compute cancel sender_clone release shutdown after_spawn drop_handle
      take_result take_at taken
  step-Roomy s (turns i) h = turn-Roomy s i h
  step-Roomy s (spawns t job) h =
      if_cases (λ r. Roomy (after_spawn s r)) s.sender (λ _. submit-Roomy s t job h) (λ _. h)
  step-Roomy s (submits t job) h =
      if_cases (λ (r : Result ComputeHandle ComputeError × ComputeScheduler u q rch). Roomy r.1)
        (ltb 0 s.lent) (λ _. submit-Roomy s t job h) (λ _. h)
  step-Roomy s (cancels c) h = h
  step-Roomy s (drops_handle c) h = elim (Option-cases (get_elem? s.results c.receiver)) [
    | inl e ↦ subst (λ o. Roomy (drop_handle s c.receiver o)) (sym e) h
    | inr (x, e) ↦
        subst (λ o. Roomy (drop_handle s c.receiver o)) (sym e)
          (replaced-RoomyAt lawful j s.answered s.results c.receiver x (rch.drop_receiver x) e
            (drop_receiver-IsRoomy lawful j s.answered x) h)
  ]
  step-Roomy s (polls c) h = elim (Option-cases (get_elem? s.results c.receiver)) [
    | inl e ↦ subst (λ o. Roomy (take_at s c.receiver o).1) (sym e) h
    | inr (x, e) ↦
        subst (λ o. Roomy (take_at s c.receiver o).1) (sym e)
          (replaced-RoomyAt lawful j s.answered s.results c.receiver x (rch.try_recv x).1 e
            (try_recv-IsRoomy lawful j s.answered x) h)
  ]
  step-Roomy s lends h =
      if_cases (λ (r : Bool × ComputeScheduler u q rch). Roomy r.1) s.sender (λ _. h) (λ _. h)
  step-Roomy s releases h = if_cases Roomy (s.lent == 0) (λ _. h) (λ _. h)
  step-Roomy s shuts_down h = h

  pub run-Roomy : (s : ComputeScheduler u q rch) (es : List (Event u)) → Roomy s → Roomy (run s es)
  unfolding run
  run-Roomy s [] h = h
  run-Roomy s (e ∷ es) h = run-Roomy (step s e) es (step-Roomy s e h)
