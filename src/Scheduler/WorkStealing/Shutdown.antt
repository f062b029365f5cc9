-- ===== src/Scheduler/WorkStealing/Shutdown.antt =====
-- `Scheduler::shutdown` joins the threads after it has stored the stop flag: each thread ends.
use runact.Prelude.{
  get_elem?-lt, get_elem?-some, total-ge, subst, ℕ, zero, suc, ◌+◌, ◌-◌, ◌≤◌, ◌<◌, ◌≡◌, refl, sym,
  inl, inr, true, some, List, [], ◌∷◌, arith, length, get_elem?, set, get_elem?-set_self, total,
  Option-cases, if◌then◌else◌,
}
use runact.Scheduler.RunQueue.{RunQueue, pop, pop_front, steal_half, steal_half-splits}
use runact.Scheduler.WorkStealing.{
  Pc, top, popping, running, scanning, moving, exited, Scheduler, others, steal_targets, popped,
  pop_local, stolen, steal, push_local, act, turn, turn_at, turns, step, run,
}
use native.Mathlib.Decide.{ℕ_discrete}
use runact.Prelude.{Bool-cases, ==_iff, ◌==◌, ◌∙◌, ap}
use runact.Scheduler.WorkStealing.Conservation.{
  known, spawned, spawned-cons, load, step-known, step-length, turn-length,
}
use runact.Scheduler.WorkStealing.Apart.{
  Apart, own_turns, own_turns-cons, turn-Apart, crash-Apart, spawn-Apart,
}
use runact.Scheduler.WorkStealing.{
  Event, panics, spawns, stops, crash, crash_at, spawn, request_stop,
}

length-others : (id i n : ℕ) → length (others id i n) ≤ n
unfolding others
length-others id i zero = omega arith
length-others id i (suc n) = ground (arith, length-others id (i + 1) n)

total-one {ℓ} : {A : Type ℓ} (xs : List A) → total (λ _. 1) xs ≡ length xs
total-one [] = refl
total-one (x ∷ xs) = omega (arith, total-one xs)

module _ {ℓ} {T : Type ℓ} where
  -- The number of tasks that the scheduler knows of.
  abbrev pub task_count : Scheduler T → ℕ
  task_count s = known (λ _. 1) s

  -- A bound on the turns that a thread at `pc` needs until it ends, once `stop` is set.
  abbrev pub turns_left : (workers tasks : ℕ) → Pc T → ℕ
  turns_left n k exited = 0
  turns_left n k top = 1
  turns_left n k (running task) = 2
  turns_left n k (moving ts) = length ts + 2
  turns_left n k (scanning targets) = length targets + k + 3
  turns_left n k popping = n + k + 4

  -- The thread `i` of `s` stands at some `pc'` that is at least one turn nearer to its end.
  record Nearer (s : Scheduler T) (i n k : ℕ) (pc : Pc T) : Type ℓ where
    next : Pc T
    at : get_elem? s.workers i ≡ some next
    less : turns_left n k next ≤ turns_left n k pc - 1
    stopping : s.stop ≡ true

  module _ (s : Scheduler T) (i k : ℕ) (stopping : s.stop ≡ true) (few : task_count s ≤ k) where
    moved :
        (pc pc' : Pc T) (qs : List (RunQueue T)) (done : List T)
        → get_elem? s.workers i ≡ some pc
        → turns_left (length s.queues) k pc' ≤ turns_left (length s.queues) k pc - 1
        → Nearer
            (record s { queues = qs; workers = set s.workers i pc'; finished = done })
            i
            (length s.queues)
            k
            pc
    moved pc pc' qs done e less = record {
      next = pc';
      at = get_elem?-set_self s.workers i pc' (get_elem?-lt s.workers i e);
      less = less;
      stopping = stopping;
    }

    popped-Nearer :
        (ts : List T)
        → get_elem? s.workers i ≡ some popping
        → Nearer (popped s i (pop_front ts)) i (length s.queues) k popping
    unfolding popped pop_front steal_targets
    popped-Nearer [] e =
        moved popping _ s.queues s.finished e (omega (arith, length-others i 0 (length s.queues)))
    popped-Nearer (t ∷ ts) e = moved popping _ _ s.finished e (omega arith)

    stolen-Nearer :
        (j : ℕ) (targets : List ℕ) (ts : List T) (q : RunQueue T)
        → get_elem? s.workers i ≡ some (scanning (j ∷ targets))
        → length ts ≤ k
        → Nearer (stolen s i j targets (ts, q)) i (length s.queues) k (scanning (j ∷ targets))
    unfolding stolen
    stolen-Nearer j targets [] q e h = moved _ _ s.queues s.finished e (omega arith)
    stolen-Nearer j targets (t ∷ ts) q e h = moved _ _ _ s.finished e (omega arith)

    loot-le : (j : ℕ) (q : RunQueue T) → get_elem? s.queues j ≡ some q → length (steal_half q).0 ≤ k
    loot-le j q e =
        omega
          (arith, (steal_half-splits q).1, total-ge (load (λ _. 1)) s.queues j e, total-one q.queue)

    act-Nearer :
        (pc : Pc T)
        → i < length s.queues
        → get_elem? s.workers i ≡ some pc
        → Nearer (act s i pc) i (length s.queues) k pc
    unfolding act pop_local steal push_local pop
    act-Nearer top h e =
        subst
          (λ b.
            Nearer (record s { workers = set s.workers i (if b then exited else popping) }) i
              (length s.queues) k top)
          (sym stopping) (moved top exited s.queues s.finished e (omega arith))
    act-Nearer popping h e =
        let (q, here) = get_elem?-some s.queues i h in
        rw (here, pop_local) (popped-Nearer q.queue e)
    act-Nearer (running task) h e = moved _ top s.queues (task ∷ s.finished) e (omega arith)
    act-Nearer (scanning []) h e = moved _ top s.queues s.finished e (omega arith)
    act-Nearer (scanning (j ∷ targets)) h e = elim (Option-cases (get_elem? s.queues j)) [
      | inl gone ↦ rw (gone, steal) (moved _ _ s.queues s.finished e (omega arith))
      | inr (q, here) ↦
          rw (here, steal)
            (stolen-Nearer j targets (steal_half q).0 (steal_half q).1 e (loot-le j q here))
    ]
    act-Nearer (moving []) h e = moved _ top s.queues s.finished e (omega arith)
    act-Nearer (moving (t ∷ ts)) h e =
        let (q, here) = get_elem?-some s.queues i h in
        rw (here, push_local) (moved _ _ _ s.finished e (omega arith))
    act-Nearer exited h e = record {
      next = exited;
      at = e;
      less = omega arith;
      stopping = stopping;
    }

  turn-Nearer :
      (s : Scheduler T) (i k : ℕ) (pc : Pc T)
      → s.stop ≡ true
      → task_count s ≤ k
      → i < length s.queues
      → get_elem? s.workers i ≡ some pc
      → Nearer (turn s i) i (length s.queues) k pc
  unfolding turn turn_at
  turn-Nearer s i k pc stopping few h e = rw (e, turn_at) (act-Nearer s i k stopping few pc h e)

  -- The thread `i` of `s` stands where at most `m` of its own turns are left, for `k` tasks.
  record Ending (s : Scheduler T) (i k m : ℕ) : Type ℓ where
    pc : Pc T
    at : get_elem? s.workers i ≡ some pc
    left : turns_left (length s.queues) k pc ≤ m
    stopping : s.stop ≡ true

  Apart-Ending :
      (s s' : Scheduler T) (i k m : ℕ)
      → length s'.queues ≡ length s.queues
      → Apart i s s'
      → Ending s i k m
      → Ending s' i k m
  Apart-Ending s s' i k m same apart h = record {
    pc = h.pc;
    at = apart.place ∙ h.at;
    left = rw same h.left;
    stopping = apart.stop ∙ h.stopping;
  }

  nearer-Ending : (s : Scheduler T) (i k m m' : ℕ) → m ≤ m' → Ending s i k m → Ending s i k m'
  nearer-Ending s i k m m' le h = record {
    pc = h.pc;
    at = h.at;
    left = omega (arith, h.left);
    stopping = h.stopping;
  }

  own_turn-Ending :
      (s : Scheduler T) (i k m : ℕ)
      → task_count s ≤ k
      → i < length s.queues
      → Ending s i k m
      → Ending (turn s i) i k (m - 1)
  own_turn-Ending s i k m few h end =
      let nearer = turn-Nearer s i k end.pc end.stopping few h end.at in
      record {
        pc = nearer.next;
        at = nearer.at;
        left = rw (turn-length s i) (omega (arith, nearer.less, end.left));
        stopping = nearer.stopping;
      }

  turn-Ending :
      (s : Scheduler T) (i j k m : ℕ)
      → task_count s ≤ k
      → i < length s.queues
      → Ending s i k m
      → Ending (turn s j) i k (m - own_turns {T = T} i (turns j ∷ []))
  turn-Ending s i j k m few h end = elim (Bool-cases (j == i)) [
    | inl e ↦
        let same : j ≡ i = (==_iff j i).0 e in
        nearer-Ending (turn s j) i k (m - 1) (m - own_turns {T = T} i (turns j ∷ []))
          (ground (arith, e))
          (subst (λ x. Ending (turn s x) i k (m - 1)) (sym same)
            (own_turn-Ending s i k m few h end))
    | inr e ↦
        nearer-Ending (turn s j) i k m (m - own_turns {T = T} i (turns j ∷ [])) (ground (arith, e))
          (Apart-Ending s (turn s j) i k m (turn-length s j)
            (turn-Apart i s j (λ x. ground (arith, e, x))) end)
  ]

  -- A panic ends the thread whose task it is.
  crash_own-Ending :
      (s : Scheduler T) (i k m : ℕ) (pc : Pc T)
      → get_elem? s.workers i ≡ some pc
      → Ending s i k m
      → Ending (crash_at s i (some pc)) i k m
  unfolding crash_at
  crash_own-Ending s i k m (running task) at end = record {
    pc = exited;
    at = get_elem?-set_self s.workers i exited (get_elem?-lt s.workers i at);
    left = omega arith;
    stopping = end.stopping;
  }
  crash_own-Ending s i k m pc at end = end

  crash-Ending : (s : Scheduler T) (i j k m : ℕ) → Ending s i k m → Ending (crash s j) i k m
  unfolding crash step
  crash-Ending s i j k m end = elim (ℕ_discrete j i) [
    | yes same ↦
        subst (λ x. Ending (crash s x) i k m) (sym same)
          (subst (λ o. Ending (crash_at s i o) i k m) (sym end.at)
            (crash_own-Ending s i k m end.pc end.at end))
    | no ne ↦ Apart-Ending s (crash s j) i k m (step-length s (panics j)) (crash-Apart i s j ne) end
  ]

  -- One event brings a thread no further from its end, and its own turn brings it nearer.
  step-Ending :
      (s : Scheduler T) (e : Event T) (i k m : ℕ)
      → task_count s ≤ k
      → i < length s.queues
      → Ending s i k m
      → Ending (step s e) i k (m - own_turns i (e ∷ []))
  unfolding step request_stop
  step-Ending s (turns j) i k m few h end = turn-Ending s i j k m few h end
  step-Ending s (panics j) i k m few h end =
      nearer-Ending (crash s j) i k m (m - 0) (omega arith) (crash-Ending s i j k m end)
  step-Ending s (spawns task) i k m few h end =
      nearer-Ending (spawn s task) i k m (m - 0) (omega arith) (
        Apart-Ending s (spawn s task) i k m (step-length s (spawns task)) (spawn-Apart i s task)
          end)
  step-Ending s stops i k m few h end = record {
    pc = end.pc;
    at = end.at;
    left = omega (arith, end.left);
    stopping = refl;
  }

  run-Ending :
      (s : Scheduler T) (es : List (Event T)) (i k m : ℕ)
      → task_count s + spawned (λ _. 1) es ≤ k
      → i < length s.queues
      → Ending s i k m
      → Ending (run s es) i k (m - own_turns i es)
  unfolding run
  run-Ending s [] i k m few h end = nearer-Ending s i k m (m - 0) (omega arith) end
  run-Ending s (e ∷ es) i k m few h end =
      let counted = step-known (λ _. 1) s e (omega arith) in
      let ends =
        run-Ending (step s e) es i k (m - own_turns i (e ∷ []))
          (omega (arith, counted, few, spawned-cons (λ _. 1) e es)) (rw (step-length s e) h)
          (step-Ending s e i k m (omega (arith, few)) h end) in
      nearer-Ending (run (step s e) es) i k (m - own_turns i (e ∷ []) - own_turns i es)
        (m - own_turns i (e ∷ es)) (omega (arith, own_turns-cons i e es)) ends

  nothing_left : (n k : ℕ) (pc : Pc T) → turns_left n k pc ≤ 0 → pc ≡ exited
  nothing_left n k exited le = refl
  nothing_left n k top le = absurd (omega arith)
  nothing_left n k (running t) le = absurd (omega arith)
  nothing_left n k (moving ts) le = absurd (omega arith)
  nothing_left n k (scanning js) le = absurd (omega arith)
  nothing_left n k popping le = absurd (omega arith)

  -- Once `stop` is set, a worker thread has ended after `turns_left` of its own accesses, wherever it
  -- stands, in every interleaving with the accesses of other threads, with panics and with calls of
  -- `spawn`, where an access inside a task is the return of that task: 1 at the head of the loop, 2 in a
  -- task, and otherwise a number bounded by the queues, the tasks in its hands and the tasks that the
  -- scheduler knows of, those included that are spawned meanwhile.
  pub shutdown-ends :
      (s : Scheduler T) (es : List (Event T)) (i : ℕ) (pc : Pc T)
      → s.stop ≡ true
      → i < length s.queues
      → get_elem? s.workers i ≡ some pc
      → turns_left (length s.queues) (task_count s + spawned (λ _. 1) es) pc ≤ own_turns i es
      → get_elem? (run s es).workers i ≡ some exited
  shutdown-ends s es i pc stopping h at enough =
      let k = task_count s + spawned (λ _. 1) es in
      let end =
        run-Ending s es i k (turns_left (length s.queues) k pc) (omega arith) h
          (record { pc = pc; at = at; left = omega arith; stopping = stopping }) in
      let over =
        nothing_left (length (run s es).queues) k end.pc (omega (arith, end.left, enough)) in
      end.at ∙ ap some over
