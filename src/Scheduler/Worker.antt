-- ===== src/Scheduler/Worker.antt =====
-- src/scheduler/worker.rs: a worker with its own queue, and stealing in one call.
use runact.Prelude.{ℕ, ◌/◌, ◌≡◌, refl, ◌∙◌, List, [], ◌∷◌, ◌++◌, length, append_assoc, append-nil}
use runact.Scheduler.RunQueue.{RunQueue, push, steal_half, steal_half-splits}
use runact.Scheduler.RunQueue

pub record Worker {ℓ} (T : Type ℓ) : Type ℓ where
  pub id : ℕ
  pub queue : RunQueue T

module _ {ℓ} {T : Type ℓ} where
  unfoldable pub new : ℕ → Worker T
  unfolding RunQueue.new
  new id = record { id = id; queue = RunQueue.new }

  -- `for task in stolen { queue.push(task) }`
  unfoldable pub push_all : RunQueue T → List T → RunQueue T
  push_all q [] = q
  push_all q (task ∷ stolen) = push_all (push q task) stolen

  -- The count of stolen tasks, the worker and the victim after the call.
  unfoldable pub steal_from : Worker T → RunQueue T → ℕ × Worker T × RunQueue T
  steal_from w victim =
      let (stolen, victim') = steal_half victim in
      (length stolen, record w { queue = push_all w.queue stolen }, victim')

  pub push_all-append : (q : RunQueue T) (ts : List T) → (push_all q ts).queue ≡ q.queue ++ ts
  unfolding push_all push
  push_all-append q [] = simp append-nil
  push_all-append q (t ∷ ts) = push_all-append (push q t) ts ∙ append_assoc q.queue (t ∷ []) ts

  -- `steal_from` moves the older half of the victim's tasks, rounded down, behind the worker's
  -- own, keeps the order of both parts, and returns the number of tasks moved.
  pub steal_from_lem :
      (w : Worker T) (victim : RunQueue T)
      → let (count, w', victim') = steal_from w victim in
        (stolen : List T) × (w'.queue.queue ≡ w.queue.queue ++ stolen)
        × (stolen ++ victim'.queue ≡ victim.queue)
        × (length stolen ≡ count)
        × (count ≡ length victim.queue / 2)
        × (w'.id ≡ w.id)
  unfolding steal_from
  steal_from_lem w victim = (
    (steal_half victim).0,
    push_all-append w.queue (steal_half victim).0,
    (steal_half-splits victim).0,
    refl,
    (steal_half-splits victim).1,
    refl,
  )
