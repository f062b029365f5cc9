-- ===== src/Compute/Shutdown.antt =====
-- src/compute/scheduler.rs: `shutdown` joins the threads after it has stored the stop flag, and each of
-- them ends.
use runact.Prelude.{
  get_elem?-some, length-replicate, ℕ, ◌-◌, ◌<◌, ◌≤◌, ◌≡◌, refl, sym, ◌∙◌, subst, inl, inr,
  Bool-cases, ==_iff, some, List, [], ◌∷◌, length, get_elem?, arith, ◌==◌,
}
use runact.Any.{Types}
use runact.Channel.{
  Channels, Sent, sent, full, disconnected, Received, got, empty, hung_up, zero_or_pos,
}
use runact.Channel
use runact.Channel.Unbounded.{Unbounded}
use runact.Channel.Unbounded
use runact.Compute.Tasks.{ComputeResult, Task}
use runact.Compute.{
  Pc, top, receiving, checking, running, returned, answering, exited, ComputeScheduler, new, turn,
  shutdown,
}
use runact.Compute.Events.{Event, turns, shuts_down, step, run}
use runact.Compute.Answers.{IsSound, step-IsSound, run-IsSound, new-IsSound}
use runact.Compute.Workers.{run-Staffed}
use runact.Compute.Apart.{Apart, turn-Apart, outside-Apart, own_turns, own_turns-cons}
use runact.Compute.Roomy.{Roomy, step-Roomy, run-Roomy}
use runact.Compute.Ending.{Ending, turns_left, turns_left-le, own_turn-Ending}

module _ {u : Types} {q : Unbounded (Task u)} {rch : Channels (ComputeResult u)}
    (q_lawful : Channel.Unbounded.IsLawful q) (r_lawful : Channel.IsLawful rch) where
  Apart-Ending :
      (s s' : ComputeScheduler u q rch) (i m : ℕ)
      → Apart s s' i
      → Ending q_lawful r_lawful s i m
      → Ending q_lawful r_lawful s' i m
  Apart-Ending s s' i m apart h = record {
    pc = h.pc;
    at = apart.0 ∙ h.at;
    near = h.near;
    stopping = apart.1 ∙ h.stopping;
  }

  nearer-Ending :
      (s : ComputeScheduler u q rch) (i m k : ℕ)
      → m ≤ k
      → Ending q_lawful r_lawful s i m
      → Ending q_lawful r_lawful s i k
  nearer-Ending s i m k le h = record {
    pc = h.pc;
    at = h.at;
    near = omega (arith, h.near);
    stopping = h.stopping;
  }

  turn-Ending :
      (s : ComputeScheduler u q rch) (i j m : ℕ)
      → IsSound s
      → ((k : ℕ) → Roomy r_lawful k s)
      → Ending q_lawful r_lawful s i m
      → Ending q_lawful r_lawful (turn s j) i (m - own_turns {u = u} i (turns j ∷ []))
  turn-Ending s i j m sound roomy h = elim (Bool-cases (j == i)) [
    | inl e ↦
        let same : j ≡ i = (==_iff j i).0 e in
        nearer-Ending (turn s j) i (m - 1) (m - own_turns {u = u} i (turns j ∷ []))
          (ground (arith, e))
          (subst (λ x. Ending q_lawful r_lawful (turn s x) i (m - 1)) (sym same)
            (own_turn-Ending q_lawful r_lawful s i m sound roomy h))
    | inr e ↦
        nearer-Ending (turn s j) i m (m - own_turns {u = u} i (turns j ∷ [])) (ground (arith, e))
          (Apart-Ending s (turn s j) i m (turn-Apart s i j (λ x. ground (arith, e, x))) h)
  ]

  -- One event brings a worker no further from its end, and its own turn brings it nearer.
  step-Ending :
      (s : ComputeScheduler u q rch) (e : Event u) (i m : ℕ)
      → IsSound s
      → ((j : ℕ) → Roomy r_lawful j s)
      → Ending q_lawful r_lawful s i m
      → Ending q_lawful r_lawful (step s e) i (m - own_turns i (e ∷ []))
  unfolding step
  step-Ending s e i m sound roomy h = elim (outside-Apart s e h.stopping) [
    | inl apart ↦
        nearer-Ending (step s e) i m (m - own_turns i (e ∷ [])) (omega (arith, (apart i).0))
          (Apart-Ending s (step s e) i m (apart i).1 h)
    | inr (j, own) ↦
        subst (λ e. Ending q_lawful r_lawful (step s e) i (m - own_turns i (e ∷ []))) (sym own)
          (turn-Ending s i j m sound roomy h)
  ]

  run-Ending :
      (s : ComputeScheduler u q rch) (es : List (Event u)) (i m : ℕ)
      → IsSound s
      → ((j : ℕ) → Roomy r_lawful j s)
      → Ending q_lawful r_lawful s i m
      → Ending q_lawful r_lawful (run s es) i (m - own_turns i es)
  unfolding run
  run-Ending s [] i m sound roomy h = nearer-Ending s i m (m - 0) (omega arith) h
  run-Ending s (e ∷ es) i m sound roomy h =
      nearer-Ending (run (step s e) es) i (m - own_turns i (e ∷ []) - own_turns i es)
        (m - own_turns i (e ∷ es)) (omega (arith, own_turns-cons i e es))
        (run-Ending (step s e) es i (m - own_turns i (e ∷ [])) (step-IsSound q_lawful s e sound)
          (λ j. step-Roomy r_lawful j s e (roomy j)) (step-Ending s e i m sound roomy h))

  turns_left_zero :
      (s : ComputeScheduler u q rch) (i : ℕ) (pc : Pc u)
      → get_elem? s.workers i ≡ some pc
      → turns_left pc ≤ 0
      → get_elem? s.workers i ≡ some exited
  turns_left_zero s i exited at near = at
  turns_left_zero s i top at near = absurd (omega (arith, near))
  turns_left_zero s i receiving at near = absurd (omega (arith, near))
  turns_left_zero s i (checking t) at near = absurd (omega (arith, near))
  turns_left_zero s i (running t) at near = absurd (omega (arith, near))
  turns_left_zero s i (returned t job) at near = absurd (omega (arith, near))
  turns_left_zero s i (answering t r) at near = absurd (omega (arith, near))

  -- A pool with `n` workers, after anything; then `shutdown` is called; then worker `i` takes six turns
  -- or more, in any interleaving with the other workers, the callers, the contexts and the handles:
  -- it has ended. (A worker in a job that neither returns nor panics gets no more turns.)
  pub shutdown-exits :
      (n : ℕ) (before after : List (Event u)) (i : ℕ)
      → i < n
      → 6 ≤ own_turns i after
      → get_elem? (run (shutdown (run (new {q = q} {rch = rch} n) before)) after).workers i
        ≡ some exited
  unfolding new step shutdown
  shutdown-exits n before after i h enough =
      let s = run (new {q = q} {rch = rch} n) before in
      let sound : IsSound s = run-IsSound q_lawful (new n) before (new-IsSound q_lawful n) in
      let staff : length s.workers ≡ n =
        run-Staffed (new {q = q} {rch = rch} n) before ∙ length-replicate {A = Pc u} n top in
      let (pc, at) = get_elem?-some s.workers i (omega (arith, h, staff)) in
      let ending =
        run-Ending (shutdown s) after i 6 (step-IsSound q_lawful s shuts_down sound)
          (λ j. step-Roomy r_lawful j s shuts_down (run-Roomy r_lawful j (new n) before tt))
          (record { pc = pc; at = at; near = turns_left-le pc; stopping = refl }) in
      turns_left_zero (run (shutdown s) after) i ending.pc ending.at
        (omega (arith, ending.near, enough))
