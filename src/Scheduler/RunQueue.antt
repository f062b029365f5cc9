-- ===== src/Scheduler/RunQueue.antt =====
-- src/scheduler/run_queue.rs. A `RunQueue` is a `VecDeque` behind a mutex; each method holds the
-- lock for its whole body, so a method is one atomic step. Nothing panics under the lock, so
-- `lock().unwrap()` always succeeds. A task is a value of any type `T`.
use runact.Prelude.{
  ℕ, ◌-◌, ◌/◌, ◌≤◌, ◌≡◌, Bool, true, false, Option, none, some, List, [], ◌∷◌, ◌++◌, arith, length,
  take, drop, leb, if◌then◌else◌, length-take, length-drop, take-append-drop,
}

pub record RunQueue {ℓ} (T : Type ℓ) : Type ℓ where
  pub queue : List T

module _ {ℓ} {T : Type ℓ} where
  unfoldable pub new : RunQueue T
  new = record { queue = [] }

  unfoldable pub push : RunQueue T → T → RunQueue T
  push q task = record { queue = q.queue ++ task ∷ [] }

  unfoldable pub pop_front : List T → Option T × RunQueue T
  pop_front [] = (none, record { queue = [] })
  pop_front (task ∷ rest) = (some task, record { queue = rest })

  unfoldable pub pop : RunQueue T → Option T × RunQueue T
  unfolding pop_front
  pop q = pop_front q.queue

  unfoldable pub len : RunQueue T → ℕ
  len q = length q.queue

  is_empty_list : List T → Bool
  is_empty_list [] = true
  is_empty_list (task ∷ rest) = false

  unfoldable pub is_empty : RunQueue T → Bool
  unfolding is_empty_list
  is_empty q = is_empty_list q.queue

  -- `drain(..len / 2)`, unless at most one task is queued
  unfoldable pub steal_half : RunQueue T → List T × RunQueue T
  unfolding len
  steal_half q =
      if leb (len q) 1
      then ([], q)
      else (take (len q / 2) q.queue, record { queue = drop (len q / 2) q.queue })

  -- What is stolen, followed by what stays, is what was queued, in the same order; the thief gets
  -- half of the tasks, rounded down.
  pub steal_half-splits :
      (q : RunQueue T)
      → ((steal_half q).0 ++ (steal_half q).1.queue ≡ q.queue)
        × (length (steal_half q).0 ≡ length q.queue / 2)
        × (len (steal_half q).1 ≡ length q.queue - length q.queue / 2)
  unfolding steal_half len
  steal_half-splits q = ground (
    arith,
    take-append-drop (length q.queue / 2) q.queue,
    length-take (length q.queue / 2) q.queue,
    length-drop (length q.queue / 2) q.queue,
  )

  pub steal_half_small : (q : RunQueue T) → length q.queue ≤ 1 → steal_half q ≡ ([], q)
  unfolding steal_half len
  steal_half_small q h = ground arith

  -- A queue is first in, first out: after `push`, `pop` returns the oldest task, and the new one
  -- stays behind all others.
  pub pop-push :
      (q : RunQueue T) (task : T)
      → (q.queue ≡ [] → pop (push q task) ≡ (some task, new))
        × ((first : T) (rest : List T)
            → q.queue ≡ first ∷ rest
            → pop (push q task) ≡ (some first, push (record { queue = rest }) task))
  unfolding pop push new pop_front
  pop-push q task = (λ e. rw e, λ first rest e. rw e)
