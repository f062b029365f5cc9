-- ===== src/Compute/Typed.antt =====
-- src/compute: what the handle of a task can read, over every order of events: the answer to its own
-- task, at its own type.
use runact.Prelude.{
  ℕ, ◌<◌, ◌≡◌, refl, ap, sym, ◌∙◌, subst, ◌⊎◌, inl, inr, some, Option-cases, List, [], ◌∷◌,
  List-cases, length, get_elem?, set, All, All-snoc, All-set, All-get_elem?, Holds, Holds-set,
  Holds-some, length-set, if_cases, ◌==◌,
}
use runact.Any.{Types, Any}
use runact.Channel.{
  Channels, Sent, sent, full, disconnected, Received, got, empty, hung_up, recv_none, zero_or_pos,
}
use runact.Channel
use runact.Channel.Unbounded.{Unbounded}
use runact.Channel.Unbounded
use runact.Compute.Tasks.{Job, ComputeResult, Task}
use runact.Compute.{
  Pc, top, receiving, checking, running, returned, answering, exited, ComputeScheduler,
  compute_result, load_flag, act, turn, turn_at, goto, exit, received, left_behind, drop_tasks,
  drop_result_sender, answer, answer_sent,
}
use runact.Compute.Conservation.{length-drop_tasks}

module _ {u : Types} (J : Job (Any u)) where
  -- What a worker may answer to the job `J`.
  abbrev pub AnswersTo : ComputeResult u → Type 0
  AnswersTo r = (r ≡ ComputeResult.cancelled) ⊎ (r ≡ compute_result J)

module _ {u : Types} (j : ℕ) (J : Job (Any u)) where
  -- A task that answers through the channel `j` has the job `J`.
  abbrev pub RunsFor : Task u → Type 0
  RunsFor t = t.result_sender ≡ j → t.job ≡ J

  abbrev pub WorksFor : Pc u → Type 0
  WorksFor (checking t) = RunsFor t
  WorksFor (running t) = RunsFor t
  WorksFor (returned t job) = t.result_sender ≡ j → job ≡ J
  WorksFor (answering t r) = t.result_sender ≡ j → AnswersTo J r
  WorksFor _ = Unit

  -- The channel `j` is used, and only for `J`.
  pub record IsServed {q : Unbounded (Task u)} {rch : Channels (ComputeResult u)}
      (s : ComputeScheduler u q rch) : Type 0 where
    pub addressed : j < length s.results
    pub waiting : All RunsFor (q.queued s.tasks)
    pub working : All WorksFor s.workers
    pub arrived : Holds (λ c. All (AnswersTo J) (rch.queued c)) (get_elem? s.results j)

module _ {u : Types} {q : Unbounded (Task u)} {rch : Channels (ComputeResult u)}
    (q_lawful : Channel.Unbounded.IsLawful q) (r_lawful : Channel.IsLawful rch) (j : ℕ)
    (J : Job (Any u)) where
  abbrev pub Fine : rch.Chan → Type 0
  Fine c = All (AnswersTo J) (rch.queued c)

  drop_sender-Fine : (c : rch.Chan) → Fine c → Fine (rch.drop_sender c)
  drop_sender-Fine c h = rw ((r_lawful.drop_sender_kept c).0) h

  pub drop_receiver-Fine : (c : rch.Chan) → Fine (rch.drop_receiver c)
  drop_receiver-Fine c = rw ((r_lawful.drop_gone c).0) tt

  pub try_recv-Fine : (c : rch.Chan) → Fine c → Fine (rch.try_recv c).1
  try_recv-Fine c h = elim (List-cases (rch.queued c)) [
    | inl e ↦ elim (recv_none r_lawful c e) [ inl none_yet ↦ rw none_yet h | inr gone ↦ rw gone h ]
    | inr (r, rest, e) ↦ rw ((r_lawful.recv_got c r rest e).1) ((rw e at h).1)
  ]

  try_send-Fine :
      (c : rch.Chan) (r : ComputeResult u) → Fine c → AnswersTo J r → Fine (rch.try_send c r).1
  try_send-Fine c r h a = elim (r_lawful.send_adds c r) [
    | inl same ↦ rw same h
    | inr added ↦ rw added (All-snoc (AnswersTo J) (rch.queued c) h a)
  ]

  -- One result channel is replaced by what a fine one became.
  pub set-Fine :
      (results : List rch.Chan) (i : ℕ) (c c' : rch.Chan)
      → get_elem? results i ≡ some c
      → Holds Fine (get_elem? results j)
      → (i ≡ j → Fine c → Fine c')
      → Holds Fine (get_elem? (set results i c') j)
  set-Fine results i c c' at h f =
      Holds-set Fine results i j c' h
        (λ e. f e (Holds-some Fine (ap (get_elem? results) (sym e) ∙ at) h))

  drop_tasks-Fine :
      (ts : List (Task u)) (results : List rch.Chan)
      → Holds Fine (get_elem? results j)
      → Holds Fine (get_elem? (drop_tasks rch ts results) j)
  unfolding drop_tasks drop_result_sender
  drop_tasks-Fine [] results h = h
  drop_tasks-Fine (t ∷ ts) results h = elim (Option-cases (get_elem? results t.result_sender)) [
    | inl e ↦ rw e (drop_tasks-Fine ts results h)
    | inr (c, e) ↦ rw e (
        drop_tasks-Fine ts (set results t.result_sender (rch.drop_sender c)) (
          set-Fine results t.result_sender c (rch.drop_sender c) e h
            (λ _ fine. drop_sender-Fine c fine)))
  ]

  pub exit-IsServed :
      (s : ComputeScheduler u q rch) (i : ℕ) → IsServed j J s → IsServed j J (exit s i)
  unfolding exit
  exit-IsServed s i h = record {
    addressed = rw (length-drop_tasks rch (left_behind q s.tasks) s.results) h.addressed;
    waiting = rw (q_lawful.drop_receiver_lem s.tasks).0 (
        if_cases (λ ts. All (RunsFor j J) ts) (q.receivers s.tasks == 1) (λ _. tt)
          (λ _. h.waiting));
    working = All-set (WorksFor j J) s.workers i h.working tt;
    arrived = drop_tasks-Fine (left_behind q s.tasks) s.results h.arrived;
  }

  goto-IsServed :
      (s : ComputeScheduler u q rch) (i : ℕ) (pc : Pc u)
      → IsServed j J s
      → WorksFor j J pc
      → IsServed j J (goto s i pc)
  goto-IsServed s i pc h works = record {
    addressed = h.addressed;
    waiting = h.waiting;
    arrived = h.arrived;
    working = All-set (WorksFor j J) s.workers i h.working works;
  }

  received-IsServed :
      (s : ComputeScheduler u q rch) (i : ℕ)
      → IsServed j J s
      → IsServed j J (received s i (q.try_recv s.tasks))
  unfolding received
  received-IsServed s i h = elim (List-cases (q.queued s.tasks)) [
    | inr (t, rest, e) ↦
        let law = q_lawful.recv_got s.tasks t rest e in
        let c = (q.try_recv s.tasks).1 in
        let waiting : All (RunsFor j J) (t ∷ rest) = rw e at h.waiting in
        subst (λ o. IsServed j J (received s i (o, c))) (sym law.0)
          (record {
            addressed = h.addressed;
            waiting = rw law.1 waiting.1;
            working = All-set (WorksFor j J) s.workers i h.working waiting.0;
            arrived = h.arrived;
          })
    | inl e ↦ elim (zero_or_pos (q.senders s.tasks)) [
      | inl gone ↦
          subst (λ p. IsServed j J (received s i p)) (sym (q_lawful.recv_hung_up s.tasks e gone))
            (exit-IsServed s i h)
      | inr open_end ↦
          subst (λ p. IsServed j J (received s i p)) (sym (q_lawful.recv_empty s.tasks e open_end))
            (goto-IsServed s i top h tt)
    ]
  ]

  answer_sent-IsServed :
      (s : ComputeScheduler u q rch) (i : ℕ) (t : Task u) (r : ComputeResult u) (c : rch.Chan)
      (p : Sent × rch.Chan)
      → get_elem? s.results t.result_sender ≡ some c
      → (t.result_sender ≡ j → Fine c → Fine p.1)
      → IsServed j J s
      → IsServed j J (answer_sent s i t r p)
  unfolding answer_sent
  answer_sent-IsServed s i t r c (full, c') at fine h = h
  answer_sent-IsServed s i t r c (sent, c') at fine h = record {
    addressed = rw (length-set s.results t.result_sender (rch.drop_sender c')) h.addressed;
    waiting = h.waiting;
    working = All-set (WorksFor j J) s.workers i h.working tt;
    arrived =
        set-Fine s.results t.result_sender c (rch.drop_sender c') at h.arrived
          (λ e f. drop_sender-Fine c' (fine e f));
  }
  answer_sent-IsServed s i t r c (disconnected, c') at fine h = record {
    addressed = rw (length-set s.results t.result_sender (rch.drop_sender c')) h.addressed;
    waiting = h.waiting;
    working = All-set (WorksFor j J) s.workers i h.working tt;
    arrived =
        set-Fine s.results t.result_sender c (rch.drop_sender c') at h.arrived
          (λ e f. drop_sender-Fine c' (fine e f));
  }

  act-IsServed :
      (s : ComputeScheduler u q rch) (i : ℕ) (pc : Pc u)
      → WorksFor j J pc
      → IsServed j J s
      → IsServed j J (act s i pc)
  unfolding act answer
  act-IsServed s i top works h =
      if_cases (IsServed j J) s.stop (λ _. exit-IsServed s i h)
        (λ _. goto-IsServed s i receiving h tt)
  act-IsServed s i receiving works h = received-IsServed s i h
  act-IsServed s i (checking t) works h =
      if_cases (λ pc. IsServed j J (goto s i pc)) (load_flag (get_elem? s.flags t.cancelled))
        (λ _. goto-IsServed s i (answering t ComputeResult.cancelled) h (λ _. inl refl))
        (λ _. goto-IsServed s i (running t) h works)
  act-IsServed s i (running t) works h = record {
    addressed = h.addressed;
    waiting = h.waiting;
    working = All-set (WorksFor j J) s.workers i h.working works;
    arrived = h.arrived;
  }
  act-IsServed s i (returned t job) works h =
      if_cases (λ pc. IsServed j J (goto s i pc)) (load_flag (get_elem? s.flags t.cancelled))
        (λ _. goto-IsServed s i (answering t ComputeResult.cancelled) h (λ _. inl refl))
        (λ _.
          goto-IsServed s i (answering t (compute_result job)) h
            (λ e. inr (ap compute_result (works e))))
  act-IsServed s i (answering t r) works h =
      elim (Option-cases (get_elem? s.results t.result_sender)) [
        | inl e ↦ subst (λ o. IsServed j J (answer s i t r o)) (sym e) h
        | inr (c, e) ↦
            subst (λ o. IsServed j J (answer s i t r o)) (sym e)
              (answer_sent-IsServed s i t r c (rch.try_send c r) e
                (λ own fine. try_send-Fine c r fine (works own)) h)
      ]
  act-IsServed s i exited works h = h

  pub turn-IsServed :
      (s : ComputeScheduler u q rch) (i : ℕ) → IsServed j J s → IsServed j J (turn s i)
  unfolding turn turn_at
  turn-IsServed s i h = elim (Option-cases (get_elem? s.workers i)) [
    | inl e ↦ subst (λ o. IsServed j J (turn_at s i o)) (sym e) h
    | inr (pc, e) ↦
        subst (λ o. IsServed j J (turn_at s i o)) (sym e)
          (act-IsServed s i pc
            (Holds-some (WorksFor j J) e (All-get_elem? (WorksFor j J) s.workers i h.working)) h)
  ]
