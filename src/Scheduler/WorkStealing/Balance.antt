-- ===== src/Scheduler/WorkStealing/Balance.antt =====
-- How `Scheduler::spawn` deals tasks to the queues, and which queues a worker steals from.
use native.Mathlib.Nat.{
  mod-add-mod, mod-lt, mod_self, mod-eq_of_lt, div-eq_of_lt, add-div_right, add-mod_right,
}
use runact.Prelude.{
  get_elem?-some, ◌&&◌, leb, total, length-replicate, ◌∙◌, sym, ==_iff, Bool-cases, ℕ, zero, suc,
  ◌+◌, ◌%◌, ◌/◌, ◌^◌, ◌<◌, ◌≡◌, refl, inl, inr, true, false, none, some, Bool, List, [], ◌∷◌, map,
  arith, length, get_elem?, set, length-append, ltb, ◌==◌, if◌then◌else◌, Option, replicate,
}
use runact.Scheduler.RunQueue.{RunQueue, push, len}
use runact.Scheduler.RunQueue
use runact.Scheduler.WorkStealing.{
  Scheduler, new, spawn, spawn_at, spawn_index, spawns, step, run, steal_targets, others,
}
use runact.Scheduler.WorkStealing.Conservation.{step-length}

abbrev pub as_number : Bool → ℕ
as_number true = 1
as_number false = 0

next-mod : (n c : ℕ) → 0 < n → (c + 1) % n ≡ (if c % n + 1 == n then 0 else c % n + 1)
next-mod n c h = sym (mod-add-mod c n 1) ∙ next (c % n) (mod-lt c h)
  where
    next : (r : ℕ) → r < n → (r + 1) % n ≡ (if r + 1 == n then 0 else r + 1)
    next r hr = elim (Bool-cases (r + 1 == n)) [
      | inl e ↦ let same : r + 1 ≡ n = (==_iff (r + 1) n).0 e in rw (e, same) (mod_self n)
      | inr e ↦ rw e (mod-eq_of_lt (ground arith))
    ]

-- One step of a round over `n` queues that stands at `r`, in numbers.
wrap-step :
    (n r i k : ℕ)
    → i < n
    → r + 1 ≡ n
    → as_number (r == i) + as_number (ltb i r) + (0 + k) / n + as_number (ltb i ((0 + k) % n))
      ≡ as_number (ltb i 0) + (r + suc k) / n + as_number (ltb i ((r + suc k) % n))
wrap-step n r i k h e =
    let sum : r + suc k ≡ k + n = omega arith in
    let none_yet : 0 + k ≡ k = omega arith in
    let room : 0 < n = omega arith in
    rw (sum, none_yet, add-div_right k room, add-mod_right k n) (ground arith)

round-step :
    (n r i k : ℕ)
    → i < n
    → r < n
    → let r' = (if r + 1 == n then 0 else r + 1) in
      as_number (r == i) + as_number (ltb i r) + (r' + k) / n + as_number (ltb i ((r' + k) % n))
      ≡ as_number (ltb i r') + (r + suc k) / n + as_number (ltb i ((r + suc k) % n))
round-step n r i k h hr = elim (Bool-cases (r + 1 == n)) [
  | inl e ↦ rw e (wrap-step n r i k h ((==_iff (r + 1) n).0 e))
  | inr e ↦ let sum : r + 1 + k ≡ r + suc k = omega arith in rw (e, sum) (ground arith)
]

module _ {ℓ} {T : Type ℓ} where
  abbrev pub entry_length : Option (RunQueue T) → ℕ
  entry_length none = 0
  entry_length (some q) = length q.queue

  -- The number of tasks in queue `i`.
  abbrev pub queue_length : Scheduler T → ℕ → ℕ
  queue_length s i = entry_length (get_elem? s.queues i)

  entry-set :
      (qs : List (RunQueue T)) (k i : ℕ) (q : RunQueue T) (task : T)
      → get_elem? qs k ≡ some q
      → entry_length (get_elem? (set qs k (push q task)) i)
        ≡ entry_length (get_elem? qs i) + as_number (k == i)
  unfolding push
  entry-set [] k i q task h = absurd (cc)
  entry-set (p ∷ qs) zero zero q task h = ground (arith, length-append q.queue (task ∷ []))
  entry-set (p ∷ qs) zero (suc i) q task h = ground arith
  entry-set (p ∷ qs) (suc k) zero q task h = ground arith
  entry-set (p ∷ qs) (suc k) (suc i) q task h = ground (arith, entry-set qs k i q task h)

  spawn-entry :
      (s : Scheduler T) (task : T) (i : ℕ)
      → 0 < length s.queues
      → s.next_worker + 1 < 2 ^ 64
      → (queue_length (spawn s task) i
          ≡ queue_length s i + as_number (s.next_worker % length s.queues == i))
        × ((spawn s task).next_worker ≡ s.next_worker + 1)
  unfolding spawn spawn_at spawn_index
  spawn-entry s task i some_queue no_wrap =
      let (q, e) = get_elem?-some s.queues (s.next_worker % length s.queues) (omega arith) in
      rw (e, spawn_at)
        (entry-set s.queues (s.next_worker % length s.queues) i q task e, omega arith)

  -- Tasks dealt from a scheduler that stands at `next_worker` in the round.
  deal-length :
      (s : Scheduler T) (ts : List T) (i : ℕ)
      → i < length s.queues
      → s.next_worker + length ts < 2 ^ 64
      → queue_length (run s (map spawns ts)) i + as_number (ltb i (s.next_worker % length s.queues))
        ≡ queue_length s i
          + (s.next_worker % length s.queues + length ts) / length s.queues
          + as_number (ltb i ((s.next_worker % length s.queues + length ts) % length s.queues))
  unfolding run step
  deal-length s [] i h no_wrap =
      let small : s.next_worker % length s.queues < length s.queues = omega arith in
      let same : s.next_worker % length s.queues + 0 ≡ s.next_worker % length s.queues =
        omega arith in
      rw (same, div-eq_of_lt small, mod-eq_of_lt small) (omega arith)
  deal-length s (t ∷ ts) i h no_wrap =
      let (here, next) = spawn-entry s t i (omega arith) (omega arith) in
      let same : length (spawn s t).queues ≡ length s.queues = step-length s (spawns t) in
      let rest =
        rw (same, next, next-mod (length s.queues) s.next_worker (omega arith), here) at
          (deal-length (spawn s t) ts i (omega arith) (omega arith)) in
      omega (
        arith,
        rest,
        round-step (length s.queues) (s.next_worker % length s.queues) i (length ts) h
            (omega arith),
      )

  entry-replicate :
      (n i : ℕ) (q : RunQueue T) → q.queue ≡ [] → entry_length (get_elem? (replicate n q) i) ≡ 0
  entry-replicate zero i q e = refl
  entry-replicate (suc n) zero q e = rw e
  entry-replicate (suc n) (suc i) q e = entry-replicate n i q e

  -- Dealing fewer than 2 ^ 64 tasks to a new scheduler with n queues, before any worker moves,
  -- leaves in each queue i < n the n-th part of the tasks, rounded down, and one more in the first
  -- queues: those with i below the remainder.
  pub deal-new :
      (n : ℕ) (ts : List T) (i : ℕ)
      → i < n
      → length ts < 2 ^ 64
      → queue_length (run (new n) (map spawns ts)) i
        ≡ length ts / n + as_number (ltb i (length ts % n))
  unfolding new RunQueue.new
  deal-new n ts i h no_wrap =
      let size : length (replicate n (RunQueue.new {T = T})) ≡ n = length-replicate n _ in
      let start : 0 % n ≡ 0 = mod-eq_of_lt (omega arith) in
      let none_yet : 0 + length ts ≡ length ts = omega arith in
      let dealt =
        rw (size, start, none_yet) at (deal-length (new n) ts i (rw size h) (omega arith)) in
      ground (arith, dealt, entry-replicate n i RunQueue.new refl)

others-count :
    (id i n j : ℕ)
    → total (λ k. as_number (k == j)) (others id i n)
      ≡ (if j == id then 0 else as_number (leb i j && ltb j (i + n)))
unfolding others
others-count id i zero j = ground arith
others-count id i (suc n) j = ground (arith, others-count id (i + 1) n j)

-- A worker tries each other queue exactly once, and never its own.
pub steal_targets-count :
    (id n j : ℕ)
    → total (λ k. as_number (k == j)) (steal_targets id n)
      ≡ (if j == id then 0 else as_number (ltb j n))
unfolding steal_targets
steal_targets-count id n j = ground (arith, others-count id 0 n j)
