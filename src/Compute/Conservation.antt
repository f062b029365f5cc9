-- ===== src/Compute/Conservation.antt =====
-- src/compute/scheduler.rs: no interleaving loses a task that was accepted, or answers it twice.
use runact.Prelude.{
  length-set, ℕ, ◌+◌, ◌≡◌, refl, ap, sym, ◌∙◌, subst, Bool, true, false, inl, inr, Option, none,
  some, Option-cases, List, [], ◌∷◌, List-cases, length, get_elem?, total, total-append, total-set,
  arith, if_cases, ◌==◌, if◌then◌else◌,
}
use runact.Any.{Types}
use runact.Channel.{Channels, Sent, sent, full, disconnected, got, zero_or_pos}
use runact.Channel.Unbounded.{Unbounded, IsLawful}
use runact.Compute.Tasks.{ComputeResult, Task}
use runact.Compute.{
  drop_result_sender, drop_tasks, compute_result, load_flag, Pc, top, receiving, checking, running,
  returned, answering, exited, ComputeScheduler, goto, exit, left_behind, received, answer_sent,
  answer, act, turn_at, turn,
}

module _ {u : Types} (w : Task u → ℕ) where
  -- The task that a worker holds.
  abbrev pub in_hand : Pc u → ℕ
  in_hand (checking t) = w t
  in_hand (running t) = w t
  in_hand (returned t job) = w t
  in_hand (answering t r) = w t
  in_hand _ = 0

  abbrev pub of_answer : Task u × ComputeResult u → ℕ
  of_answer a = w a.0

module _ {A : Type 0} (w : A → ℕ) where
  total-if :
      (b : Bool) (xs : List A)
      → total w (if b then xs else []) + total w (if b then [] else xs) ≡ total w xs
  total-if true xs = omega arith
  total-if false xs = omega arith

  none_lost :
      {q : Unbounded A}
      → IsLawful q
      → (c : q.Chan)
      → total w (left_behind q c) + total w (q.queued (q.drop_receiver c)) ≡ total w (q.queued c)
  unfolding left_behind
  none_lost {q = q} lawful c = omega (
    arith,
    total-if (q.receivers c == 1) (q.queued c),
    ap (total w) (lawful.drop_receiver_lem c).0,
  )

module _ {u : Types} (rch : Channels (ComputeResult u)) where
  length-drop_result_sender :
      (results : List rch.Chan) (i : ℕ) (c : Option rch.Chan)
      → length (drop_result_sender rch results i c) ≡ length results
  unfolding drop_result_sender
  length-drop_result_sender results i none = refl
  length-drop_result_sender results i (some c) = length-set results i (rch.drop_sender c)

  pub length-drop_tasks :
      (ts : List (Task u)) (results : List rch.Chan)
      → length (drop_tasks rch ts results) ≡ length results
  unfolding drop_tasks
  length-drop_tasks [] results = refl
  length-drop_tasks (t ∷ ts) results =
      length-drop_tasks ts
        (drop_result_sender rch results t.result_sender (get_elem? results t.result_sender))
      ∙ length-drop_result_sender results t.result_sender (get_elem? results t.result_sender)

module _ {u : Types} {q : Unbounded (Task u)} {rch : Channels (ComputeResult u)}
    (w : Task u → ℕ) where
  -- The weight of every accepted task: queued, with a worker, answered, or gone with the channel.
  abbrev pub known : ComputeScheduler u q rch → ℕ
  known s =
      total w (q.queued s.tasks)
      + total (in_hand w) s.workers
      + total (of_answer w) s.answered
      + total w s.discarded

  -- Nothing is gained or lost on the way from `s` to `s'`, and every address stays.
  pub record Kept (s s' : ComputeScheduler u q rch) : Type 0 where
    pub same_known : known s' ≡ known s
    pub same_accepted : s'.accepted ≡ s.accepted
    pub same_length : length s'.results ≡ length s.results

  unmoved-Kept :
      (s s' : ComputeScheduler u q rch)
      → known s' ≡ known s
      → s'.accepted ≡ s.accepted
      → s'.results ≡ s.results
      → Kept s s'
  unmoved-Kept s s' k a r = record { same_known = k; same_accepted = a; same_length = ap length r }

module _ {u : Types} {q : Unbounded (Task u)} {rch : Channels (ComputeResult u)}
    (lawful : IsLawful q) (w : Task u → ℕ) where
  exit-Kept :
      (s : ComputeScheduler u q rch) (i : ℕ) (pc : Pc u)
      → get_elem? s.workers i ≡ some pc
      → in_hand w pc ≡ 0
      → Kept w s (exit s i)
  unfolding exit
  exit-Kept s i pc at idle = record {
    same_known = omega (
      arith,
      total-append w (left_behind q s.tasks) s.discarded,
      none_lost w lawful s.tasks,
      total-set (in_hand w) s.workers i exited at,
      idle,
    );
    same_accepted = refl;
    same_length = length-drop_tasks rch (left_behind q s.tasks) s.results;
  }

  goto-Kept :
      (s : ComputeScheduler u q rch) (i : ℕ) (pc pc' : Pc u)
      → get_elem? s.workers i ≡ some pc
      → in_hand w pc' ≡ in_hand w pc
      → Kept w s (goto s i pc')
  goto-Kept s i pc pc' at same =
      unmoved-Kept w s (goto s i pc')
        (omega (arith, total-set (in_hand w) s.workers i pc' at, same)) refl refl

  received-Kept :
      (s : ComputeScheduler u q rch) (i : ℕ)
      → get_elem? s.workers i ≡ some receiving
      → Kept w s (received s i (q.try_recv s.tasks))
  unfolding received
  received-Kept s i at = elim (List-cases (q.queued s.tasks)) [
    | inr (t, rest, e) ↦
        let law = lawful.recv_got s.tasks t rest e in
        let c = (q.try_recv s.tasks).1 in
        subst (λ o. Kept w s (received s i (o, c))) (sym law.0)
          (unmoved-Kept w s (received s i (got t, c))
            (omega (
              arith,
              total-set (in_hand w) s.workers i (checking t) at,
              ap (total w) law.1,
              ap (total w) e,
            ))
            refl refl)
    | inl e ↦ elim (zero_or_pos (q.senders s.tasks)) [
      | inl gone ↦
          subst (λ p. Kept w s (received s i p)) (sym (lawful.recv_hung_up s.tasks e gone))
            (exit-Kept s i receiving at refl)
      | inr open_end ↦
          subst (λ p. Kept w s (received s i p)) (sym (lawful.recv_empty s.tasks e open_end))
            (goto-Kept s i receiving top at refl)
    ]
  ]

  answer_sent-Kept :
      (s : ComputeScheduler u q rch) (i : ℕ) (t : Task u) (r : ComputeResult u)
      (p : Sent × rch.Chan)
      → get_elem? s.workers i ≡ some (answering t r)
      → Kept w s (answer_sent s i t r p)
  unfolding answer_sent
  answer_sent-Kept s i t r (full, c) at = unmoved-Kept w s s refl refl refl
  answer_sent-Kept s i t r (sent, c) at = record {
    same_known = omega (arith, total-set (in_hand w) s.workers i top at);
    same_accepted = refl;
    same_length = length-set s.results t.result_sender (rch.drop_sender c);
  }
  answer_sent-Kept s i t r (disconnected, c) at = record {
    same_known = omega (arith, total-set (in_hand w) s.workers i top at);
    same_accepted = refl;
    same_length = length-set s.results t.result_sender (rch.drop_sender c);
  }

  act-Kept :
      (s : ComputeScheduler u q rch) (i : ℕ) (pc : Pc u)
      → get_elem? s.workers i ≡ some pc
      → Kept w s (act s i pc)
  unfolding act answer
  act-Kept s i top at =
      if_cases (Kept w s) s.stop (λ h. exit-Kept s i top at refl)
        (λ h. goto-Kept s i top receiving at refl)
  act-Kept s i receiving at = received-Kept s i at
  act-Kept s i (checking t) at =
      if_cases (λ pc. Kept w s (goto s i pc)) (load_flag (get_elem? s.flags t.cancelled))
        (λ h. goto-Kept s i (checking t) (answering t ComputeResult.cancelled) at refl)
        (λ h. goto-Kept s i (checking t) (running t) at refl)
  act-Kept s i (running t) at =
      let k = goto-Kept s i (running t) (returned t t.job) at refl in
      unmoved-Kept w s (act s i (running t)) k.same_known refl refl
  act-Kept s i (returned t job) at =
      if_cases (λ pc. Kept w s (goto s i pc)) (load_flag (get_elem? s.flags t.cancelled))
        (λ h. goto-Kept s i (returned t job) (answering t ComputeResult.cancelled) at refl)
        (λ h. goto-Kept s i (returned t job) (answering t (compute_result job)) at refl)
  act-Kept s i (answering t r) at = elim (Option-cases (get_elem? s.results t.result_sender)) [
    | inl e ↦ subst (λ o. Kept w s (answer s i t r o)) (sym e) (unmoved-Kept w s s refl refl refl)
    | inr (c, e) ↦
        subst (λ o. Kept w s (answer s i t r o)) (sym e)
          (answer_sent-Kept s i t r (rch.try_send c r) at)
  ]
  act-Kept s i exited at = unmoved-Kept w s s refl refl refl

  pub turn-Kept : (s : ComputeScheduler u q rch) (i : ℕ) → Kept w s (turn s i)
  unfolding turn turn_at
  turn-Kept s i = elim (Option-cases (get_elem? s.workers i)) [
    | inl e ↦ subst (λ o. Kept w s (turn_at s i o)) (sym e) (unmoved-Kept w s s refl refl refl)
    | inr (pc, e) ↦ subst (λ o. Kept w s (turn_at s i o)) (sym e) (act-Kept s i pc e)
  ]
