-- ===== src/Compute/Skipped.antt =====
-- src/compute: a task that is cancelled in time is never run.
use runact.Prelude.{
  ◌<◌, All, All-set, All-get_elem?, length-set, ◌≢◌, ℕ, ◌≡◌, refl, ap, sym, ◌∙◌, subst, inl, inr,
  Bool, true, false, some, Option-cases, List, ◌∷◌, List-cases, length, get_elem?, set, Holds-some,
  total, arith, if_cases, ◌==◌,
}
use runact.Any.{Types}
use runact.Channel.{
  zero_or_pos, Channels, Sent, sent, full, disconnected, Received, got, empty, hung_up, recv_none,
  IsLawful,
}
use runact.Channel.Unbounded.{Unbounded}
use runact.Channel
use runact.Channel.Unbounded
use runact.Compute.Tasks.{ComputeResult, Task}
use runact.Compute.{
  compute_result, goto, load_flag, Pc, top, receiving, checking, running, returned, answering,
  exited, ComputeScheduler, act, turn, turn_at, exit, received, left_behind, answer, answer_sent,
}
use runact.Compute.Conservation.{length-drop_tasks}
use runact.Compute.Answers.{slot}

module _ {u : Types} (b : Bool) (j k : ℕ) where
  -- The task that answers through the channel `j` has its flag at `k`.
  abbrev pub Linked : Task u → Type 0
  Linked t = t.result_sender ≡ j → t.cancelled ≡ k

  -- Once `b` is set, no worker has that task beyond its first check, but to answer that it was cancelled.
  abbrev pub KeepsOff : Pc u → Type 0
  KeepsOff (checking t) = Linked t
  KeepsOff (running t) = b ≡ true → t.result_sender ≢ j
  KeepsOff (returned t job) = b ≡ true → t.result_sender ≢ j
  KeepsOff (answering t r) = b ≡ true → t.result_sender ≡ j → r ≡ ComputeResult.cancelled
  KeepsOff _ = Unit

  abbrev pub IsRefusal : Task u × ComputeResult u → Type 0
  IsRefusal a = b ≡ true → a.0.result_sender ≡ j → a.1 ≡ ComputeResult.cancelled

  pub record IsLinked {q : Unbounded (Task u)} {rch : Channels (ComputeResult u)}
      (s : ComputeScheduler u q rch) : Type 0 where
    pub addressed : j < length s.results
    pub flagged : k < length s.flags
    pub raised : b ≡ true → get_elem? s.flags k ≡ some true
    pub waiting : All Linked (q.queued s.tasks)
    pub working : All KeepsOff s.workers
    pub unrun : b ≡ true → total (slot j) s.ran ≡ 0
    pub refusals : All IsRefusal s.answered

module _ {u : Types} {q : Unbounded (Task u)} {rch : Channels (ComputeResult u)}
    (lawful : Channel.Unbounded.IsLawful q) (b : Bool) (j k : ℕ) where
  goto-IsLinked :
      (s : ComputeScheduler u q rch) (i : ℕ) (pc : Pc u) (c : q.Chan)
      → All (Linked b j k) (q.queued c)
      → KeepsOff b j k pc
      → IsLinked b j k s
      → IsLinked b j k (goto (record s { tasks = c }) i pc)
  goto-IsLinked s i pc c waiting off h = record {
    addressed = h.addressed;
    flagged = h.flagged;
    raised = h.raised;
    waiting = waiting;
    working = All-set (KeepsOff b j k) s.workers i h.working off;
    unrun = h.unrun;
    refusals = h.refusals;
  }

  exit-IsLinked :
      (s : ComputeScheduler u q rch) (i : ℕ) → IsLinked b j k s → IsLinked b j k (exit s i)
  unfolding exit
  exit-IsLinked s i h = record {
    addressed = rw (length-drop_tasks rch (left_behind q s.tasks) s.results) h.addressed;
    flagged = h.flagged;
    raised = h.raised;
    waiting = rw (lawful.drop_receiver_lem s.tasks).0 (
        if_cases (λ (ts : List (Task u)). All (Linked b j k) ts) (q.receivers s.tasks == 1)
          (λ _. tt) (λ _. h.waiting));
    working = All-set (KeepsOff b j k) s.workers i h.working tt;
    unrun = h.unrun;
    refusals = h.refusals;
  }

  received-IsLinked :
      (s : ComputeScheduler u q rch) (i : ℕ)
      → IsLinked b j k s
      → IsLinked b j k (received s i (q.try_recv s.tasks))
  unfolding received
  received-IsLinked s i h = elim (List-cases (q.queued s.tasks)) [
    | inr (t, rest, e) ↦
        let law = lawful.recv_got s.tasks t rest e in
        let c = (q.try_recv s.tasks).1 in
        let waiting : All (Linked b j k) (t ∷ rest) = rw e at h.waiting in
        subst (λ o. IsLinked b j k (received s i (o, c))) (sym law.0)
          (goto-IsLinked s i (checking t) c (rw law.1 waiting.1) waiting.0 h)
    | inl e ↦ elim (zero_or_pos (q.senders s.tasks)) [
      | inl gone ↦
          subst (λ p. IsLinked b j k (received s i p)) (sym (lawful.recv_hung_up s.tasks e gone))
            (exit-IsLinked s i h)
      | inr open_end ↦
          subst (λ p. IsLinked b j k (received s i p)) (sym (lawful.recv_empty s.tasks e open_end))
            (goto-IsLinked s i top s.tasks h.waiting tt h)
    ]
  ]

  answer_sent-IsLinked :
      (s : ComputeScheduler u q rch) (i : ℕ) (t : Task u) (r : ComputeResult u)
      (p : Sent × rch.Chan)
      → IsRefusal b j k (t, r)
      → IsLinked b j k s
      → IsLinked b j k (answer_sent s i t r p)
  unfolding answer_sent
  answer_sent-IsLinked s i t r (full, c) refusal h = h
  answer_sent-IsLinked s i t r (sent, c) refusal h = record {
    addressed = rw (length-set s.results t.result_sender (rch.drop_sender c)) h.addressed;
    flagged = h.flagged;
    raised = h.raised;
    waiting = h.waiting;
    working = All-set (KeepsOff b j k) s.workers i h.working tt;
    unrun = h.unrun;
    refusals = (refusal, h.refusals);
  }
  answer_sent-IsLinked s i t r (disconnected, c) refusal h = record {
    addressed = rw (length-set s.results t.result_sender (rch.drop_sender c)) h.addressed;
    flagged = h.flagged;
    raised = h.raised;
    waiting = h.waiting;
    working = All-set (KeepsOff b j k) s.workers i h.working tt;
    unrun = h.unrun;
    refusals = (refusal, h.refusals);
  }

  -- A worker that reads a raised flag does not go on to the job.
  load_raised :
      (s : ComputeScheduler u q rch) (t : Task u)
      → IsLinked b j k s
      → Linked b j k t
      → load_flag (get_elem? s.flags t.cancelled) ≡ false
      → b ≡ true
      → t.result_sender ≢ j
  unfolding load_flag
  load_raised s t h link unset set_b own =
      let read : get_elem? s.flags t.cancelled ≡ some true =
        ap (get_elem? s.flags) (link own) ∙ h.raised set_b in
      absurd (cc)

  act-IsLinked :
      (s : ComputeScheduler u q rch) (i : ℕ) (pc : Pc u)
      → KeepsOff b j k pc
      → IsLinked b j k s
      → IsLinked b j k (act s i pc)
  unfolding act answer
  act-IsLinked s i top off h =
      if_cases (IsLinked b j k) s.stop (λ _. exit-IsLinked s i h)
        (λ _. goto-IsLinked s i receiving s.tasks h.waiting tt h)
  act-IsLinked s i receiving off h = received-IsLinked s i h
  act-IsLinked s i (checking t) off h =
      if_cases (λ pc. IsLinked b j k (goto s i pc)) (load_flag (get_elem? s.flags t.cancelled))
        (λ _.
          goto-IsLinked s i (answering t ComputeResult.cancelled) s.tasks h.waiting (λ _ _. refl) h)
        (λ e. goto-IsLinked s i (running t) s.tasks h.waiting (load_raised s t h off e) h)
  act-IsLinked s i (running t) off h = record {
    addressed = h.addressed;
    flagged = h.flagged;
    raised = h.raised;
    waiting = h.waiting;
    working = All-set (KeepsOff b j k) s.workers i h.working off;
    unrun = λ set_b. ground (arith, h.unrun set_b, off set_b);
    refusals = h.refusals;
  }
  act-IsLinked s i (returned t job) off h =
      if_cases (λ pc. IsLinked b j k (goto s i pc)) (load_flag (get_elem? s.flags t.cancelled))
        (λ _.
          goto-IsLinked s i (answering t ComputeResult.cancelled) s.tasks h.waiting (λ _ _. refl) h)
        (λ _.
          goto-IsLinked s i (answering t (compute_result job)) s.tasks h.waiting
            (λ set_b own. absurd (off set_b own)) h)
  act-IsLinked s i (answering t r) off h =
      elim (Option-cases (get_elem? s.results t.result_sender)) [
        | inl e ↦ subst (λ o. IsLinked b j k (answer s i t r o)) (sym e) h
        | inr (c, e) ↦
            subst (λ o. IsLinked b j k (answer s i t r o)) (sym e)
              (answer_sent-IsLinked s i t r (rch.try_send c r) off h)
      ]
  act-IsLinked s i exited off h = h

  pub turn-IsLinked :
      (s : ComputeScheduler u q rch) (i : ℕ) → IsLinked b j k s → IsLinked b j k (turn s i)
  unfolding turn turn_at
  turn-IsLinked s i h = elim (Option-cases (get_elem? s.workers i)) [
    | inl e ↦ subst (λ o. IsLinked b j k (turn_at s i o)) (sym e) h
    | inr (pc, e) ↦
        subst (λ o. IsLinked b j k (turn_at s i o)) (sym e)
          (act-IsLinked s i pc
            (Holds-some (KeepsOff b j k) e (All-get_elem? (KeepsOff b j k) s.workers i h.working))
            h)
  ]

  pub results-IsLinked :
      (s : ComputeScheduler u q rch) (i : ℕ) (c : rch.Chan)
      → IsLinked b j k s
      → IsLinked b j k (record s { results = set s.results i c })
  results-IsLinked s i c h = record {
    addressed = rw (length-set s.results i c) h.addressed;
    flagged = h.flagged;
    raised = h.raised;
    waiting = h.waiting;
    working = h.working;
    unrun = h.unrun;
    refusals = h.refusals;
  }

  pub channel-IsLinked :
      (s : ComputeScheduler u q rch) (c : q.Chan) (lent : ℕ) (stop sender : Bool)
      → q.queued c ≡ q.queued s.tasks
      → IsLinked b j k s
      → IsLinked b j k (record s { tasks = c; lent = lent; stop = stop; sender = sender })
  channel-IsLinked s c lent stop sender e h = record {
    addressed = h.addressed;
    flagged = h.flagged;
    raised = h.raised;
    waiting = rw e h.waiting;
    working = h.working;
    unrun = h.unrun;
    refusals = h.refusals;
  }
