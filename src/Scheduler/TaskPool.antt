-- ===== src/Scheduler/TaskPool.antt =====
-- What the scheduler of src/scheduler promises, without queues or threads: tasks are submitted, and
-- some submitted task returns or panics, in any order.
use mathlib.Core.List.{List, [], ◌∷◌}
use mathlib.Core.Quot
use mathlib.Core.Quot.{Quot, Quot-set}
use runact.Prelude.{ℕ, ◌≡◌, total, arith}

module _ {ℓ} {T : Type ℓ} where
  -- Two lists hold the same tasks, each as often: every weight adds up to the same.
  abbrev pub SameTasks : List T → List T → Type ℓ
  SameTasks xs ys = (w : T → ℕ) → total w xs ≡ total w ys

  pub SameTasks-cons : (t : T) (xs ys : List T) → SameTasks xs ys → SameTasks (t ∷ xs) (t ∷ ys)
  SameTasks-cons t xs ys h w = omega (arith, h w)

-- Tasks without an order.
abbrev pub Bag {ℓ} : Type ℓ → Type ℓ
Bag T = Quot (SameTasks {T = T})

module _ {ℓ} {T : Type ℓ} where
  abbrev pub bag : List T → Bag T
  bag xs = Quot.mk xs

  unfoldable pub put : T → Bag T → Bag T
  put t =
      Quot.lift Quot-set (λ xs. Quot.mk (t ∷ xs)) (λ xs ys h. Quot.sound (SameTasks-cons t xs ys h))

pub record TaskPool {ℓ} (T : Type ℓ) : Type ℓ where
  pub unfinished : Bag T
  pub finished : Bag T
  pub panicked : Bag T

module _ {ℓ} {T : Type ℓ} where
  abbrev pub pool : Bag T → Bag T → Bag T → TaskPool T
  pool b f p = record { unfinished = b; finished = f; panicked = p }

-- The runs of the pool, by the tasks that are submitted to it.
pub data Runs {ℓ} {T : Type ℓ} : List T → TaskPool T → TaskPool T → Type ℓ where
  done : {p : TaskPool T} → Runs [] p p
  submit :
      (t : T) {ts : List T} {b f p : Bag T} {end : TaskPool T}
      → Runs ts (pool (put t b) f p) end
      → Runs (t ∷ ts) (pool b f p) end
  finish :
      (t : T) {ts : List T} {b f p : Bag T} {end : TaskPool T}
      → Runs ts (pool b (put t f) p) end
      → Runs ts (pool (put t b) f p) end
  fail :
      (t : T) {ts : List T} {b f p : Bag T} {end : TaskPool T}
      → Runs ts (pool b f (put t p)) end
      → Runs ts (pool (put t b) f p) end
