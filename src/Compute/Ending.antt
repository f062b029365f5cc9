-- ===== src/Compute/Ending.antt =====
-- src/compute/scheduler.rs: once `stop` is set, each turn of a worker brings it nearer to its end.
use runact.Prelude.{
  get_elem?-lt, get_elem?-some, total-ge, ℕ, ◌-◌, ◌<◌, ◌≤◌, ◌≡◌, refl, ap, sym, ◌∙◌, subst, ◌⊎◌,
  inl, inr, true, Bool-cases, some, length, get_elem?, set, get_elem?-set_self, Holds-some, total,
  arith, if_cases, if◌then◌else◌,
}
use runact.Any.{Types}
use runact.Channel.{
  Channels, Sent, sent, full, disconnected, Received, got, empty, hung_up, zero_or_pos,
}
use runact.Channel
use runact.Channel.Unbounded.{Unbounded}
use runact.Channel.Unbounded
use runact.Compute.Tasks.{ComputeResult, Task}
use runact.Compute.{
  Pc, top, receiving, checking, running, returned, answering, exited, ComputeScheduler, load_flag,
  compute_result, act, turn, turn_at, goto, exit, received, answer, answer_sent,
}
use runact.Compute.Conservation.{in_hand, of_answer}
use runact.Compute.Answers.{slot, IsSound}
use runact.Compute.Roomy.{IsRoomy, Roomy}

-- How many turns a thread at a program point needs until it ends, once `stop` is set.
abbrev pub turns_left : {u : Types} → Pc u → ℕ
turns_left exited = 0
turns_left top = 1
turns_left (answering t r) = 2
turns_left (returned t job) = 3
turns_left (running t) = 4
turns_left (checking t) = 5
turns_left receiving = 6

pub turns_left-le : {u : Types} (pc : Pc u) → turns_left pc ≤ 6
turns_left-le exited = omega arith
turns_left-le top = omega arith
turns_left-le (answering t r) = omega arith
turns_left-le (returned t job) = omega arith
turns_left-le (running t) = omega arith
turns_left-le (checking t) = omega arith
turns_left-le receiving = omega arith

module _ {u : Types} {q : Unbounded (Task u)} {rch : Channels (ComputeResult u)}
    (q_lawful : Channel.Unbounded.IsLawful q) (r_lawful : Channel.IsLawful rch) where
  -- Worker `i` stands `m` turns before its end at most, and `stop` is set.
  pub record Ending (s : ComputeScheduler u q rch) (i m : ℕ) : Type 0 where
    pub pc : Pc u
    pub at : get_elem? s.workers i ≡ some pc
    pub near : turns_left pc ≤ m
    pub stopping : s.stop ≡ true

  moved-Ending :
      (s s' : ComputeScheduler u q rch) (i m : ℕ) (pc pc' : Pc u)
      → get_elem? s.workers i ≡ some pc
      → s'.workers ≡ set s.workers i pc'
      → s'.stop ≡ true
      → turns_left pc' ≤ m
      → Ending s' i m
  moved-Ending s s' i m pc pc' at e stopping near = record {
    pc = pc';
    at =
        ap (λ ws. get_elem? ws i) e
        ∙ get_elem?-set_self s.workers i pc' (get_elem?-lt s.workers i at);
    near = near;
    stopping = stopping;
  }

  -- A worker with an answer has a channel for it that is empty, or whose receiver is gone.
  answering-free :
      (s : ComputeScheduler u q rch) (i : ℕ) (t : Task u) (r : ComputeResult u)
      → IsSound s
      → ((j : ℕ) → Roomy r_lawful j s)
      → get_elem? s.workers i ≡ some (answering t r)
      → (c : rch.Chan) × (get_elem? s.results t.result_sender ≡ some c)
        × (((rch.try_send c r).0 ≡ sent) ⊎ ((rch.try_send c r).0 ≡ disconnected))
  answering-free s i t r sound roomy at =
      let j = t.result_sender in
      let mine : slot j t ≡ 1 = ground arith in
      let held : 1 ≤ total (in_hand (slot j)) s.workers =
        omega (arith, total-ge (in_hand (slot j)) s.workers i at, mine) in
      let addressed : j < length s.results =
        ground (arith, held, sound.accounts (slot j), sound.slots j) in
      let unanswered : total (of_answer (slot j)) s.answered ≡ 0 =
        ground (arith, held, sound.accounts (slot j), sound.slots j) in
      let (c, here) = get_elem?-some s.results j addressed in
      let room : IsRoomy rch j s.answered c =
        Holds-some (IsRoomy rch j s.answered) here (roomy j) in
      (
        c,
        here,
        elim (Bool-cases (rch.receiving c)) [
          | inl alive ↦
              inl (r_lawful.send_room c r alive (omega (arith, room.0, room.1, unanswered))).0
          | inr gone ↦ inr (ap (λ p. p.0) (r_lawful.send_gone c r gone))
        ],
      )

  received-Ending :
      (s : ComputeScheduler u q rch) (i : ℕ) (p : Received (Task u) × q.Chan)
      → s.stop ≡ true
      → get_elem? s.workers i ≡ some receiving
      → Ending (received s i p) i 5
  unfolding received exit
  received-Ending s i (got t, c) stopping at =
      moved-Ending s _ i 5 receiving (checking t) at refl stopping (omega arith)
  received-Ending s i (empty, c) stopping at =
      moved-Ending s _ i 5 receiving top at refl stopping (omega arith)
  received-Ending s i (hung_up, c) stopping at =
      moved-Ending s _ i 5 receiving exited at refl stopping (omega arith)

  answer_sent-Ending :
      (s : ComputeScheduler u q rch) (i : ℕ) (t : Task u) (r : ComputeResult u) (v : Sent)
      (c : rch.Chan)
      → (v ≡ sent) ⊎ (v ≡ disconnected)
      → s.stop ≡ true
      → get_elem? s.workers i ≡ some (answering t r)
      → Ending (answer_sent s i t r (v, c)) i 1
  unfolding answer_sent
  answer_sent-Ending s i t r full c (inl e) stopping at = absurd (cc)
  answer_sent-Ending s i t r full c (inr e) stopping at = absurd (cc)
  answer_sent-Ending s i t r sent c free stopping at =
      moved-Ending s _ i 1 (answering t r) top at refl stopping (omega arith)
  answer_sent-Ending s i t r disconnected c free stopping at =
      moved-Ending s _ i 1 (answering t r) top at refl stopping (omega arith)

  act-Ending :
      (s : ComputeScheduler u q rch) (i : ℕ) (pc : Pc u)
      → IsSound s
      → ((j : ℕ) → Roomy r_lawful j s)
      → s.stop ≡ true
      → get_elem? s.workers i ≡ some pc
      → Ending (act s i pc) i (turns_left pc - 1)
  unfolding act exit answer
  act-Ending s i top sound roomy stopping at =
      subst (λ b. Ending (if b then exit s i else goto s i receiving) i 0) (sym stopping)
        (moved-Ending s (exit s i) i 0 top exited at refl stopping (omega arith))
  act-Ending s i receiving sound roomy stopping at =
      received-Ending s i (q.try_recv s.tasks) stopping at
  act-Ending s i (checking t) sound roomy stopping at =
      if_cases (λ pc. Ending (goto s i pc) i 4) (load_flag (get_elem? s.flags t.cancelled))
        (λ _.
          moved-Ending s _ i 4 (checking t) (answering t ComputeResult.cancelled) at refl stopping
            (omega arith))
        (λ _. moved-Ending s _ i 4 (checking t) (running t) at refl stopping (omega arith))
  act-Ending s i (running t) sound roomy stopping at =
      moved-Ending s _ i 3 (running t) (returned t t.job) at refl stopping (omega arith)
  act-Ending s i (returned t job) sound roomy stopping at =
      if_cases (λ pc. Ending (goto s i pc) i 2) (load_flag (get_elem? s.flags t.cancelled))
        (λ _.
          moved-Ending s _ i 2 (returned t job) (answering t ComputeResult.cancelled) at refl
            stopping (omega arith))
        (λ _.
          moved-Ending s _ i 2 (returned t job) (answering t (compute_result job)) at refl stopping
            (omega arith))
  act-Ending s i (answering t r) sound roomy stopping at =
      let (c, here, free) = answering-free s i t r sound roomy at in
      subst (λ o. Ending (answer s i t r o) i 1) (sym here)
        (answer_sent-Ending s i t r (rch.try_send c r).0 (rch.try_send c r).1 free stopping at)
  act-Ending s i exited sound roomy stopping at = record {
    pc = exited;
    at = at;
    near = omega arith;
    stopping = stopping;
  }

  pub own_turn-Ending :
      (s : ComputeScheduler u q rch) (i m : ℕ)
      → IsSound s
      → ((j : ℕ) → Roomy r_lawful j s)
      → Ending s i m
      → Ending (turn s i) i (m - 1)
  unfolding turn turn_at
  own_turn-Ending s i m sound roomy h =
      let moved = act-Ending s i h.pc sound roomy h.stopping h.at in
      subst (λ o. Ending (turn_at s i o) i (m - 1)) (sym h.at)
        (record {
          pc = moved.pc;
          at = moved.at;
          near = omega (arith, moved.near, h.near);
          stopping = moved.stopping;
        })
