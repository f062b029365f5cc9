-- ===== src/Runtime/World/Counting.antt =====
-- src/runtime.rs: as many actors have taken a message as tasks hold a worker, at most.
use runact.Prelude.{
  ℕ, suc, zero, ◌<◌, ◌≤◌, ◌+◌, ◌≡◌, refl, ap, List, [], ◌∷◌, length, get_elem?, some, total, arith,
}
use runact.Any.{Types}
use runact.Scheduler.WorkStealing.{Scheduler, Pc, top, popping, running, scanning, moving, exited}
use runact.Scheduler.WorkStealing.Held.{busy, hold}
use runact.Runtime.{ActorTask}
use runact.Runtime.World.{Mail}
use runact.Runtime.World.Exclusive.{loop_of, counts}
use runact.Runtime.World.Occupied.{started, Held}

-- The numbers from `a` on, `n` of them.
abbrev pub from : ℕ → ℕ → List ℕ
from a zero = []
from a (suc n) = a ∷ from (suc a) n

from-none : (k a n : ℕ) → k < a → total (λ m. counts m k) (from a n) ≡ 0
from-none k a zero h = refl
from-none k a (suc n) h = ground (arith, from-none k (suc a) n (omega (arith, h)))

-- Each number is there once.
from-once : (k a n : ℕ) → total (λ m. counts m k) (from a n) ≤ 1
from-once k a zero = omega arith
from-once k a (suc n) = ground (arith, from-once k (suc a) n, from-none k (suc a) n)

-- What bounds each entry bounds all.
total-started :
    {u : Types} (mail : List (Mail u)) (a : ℕ) (f : ℕ → ℕ)
    → ((m : ℕ) (x : Mail u) → get_elem? mail m ≡ some x → started x ≤ f (a + m))
    → total started mail ≤ total f (from a (length mail))
total-started [] a f h = omega arith
total-started (x ∷ mail) a f h =
    let here : a + 0 ≡ a = omega arith in
    let next : (m : ℕ) → a + suc m ≡ suc a + m = λ m. omega arith in
    omega (
      arith,
      ap f here,
      h 0 x refl,
      total-started mail (suc a) f (λ m y at. omega (arith, h (suc m) y at, ap f (next m))),
    )

pub started_of-le :
    {u : Types} (mail : List (Mail u)) (s : Scheduler ActorTask)
    → Held mail s
    → total started mail ≤ total (λ m. busy (loop_of m) s) (from 0 (length mail))
started_of-le mail s h =
    total-started mail 0 (λ m. busy (loop_of m) s)
      (λ m x at.
        let same : 0 + m ≡ m = omega arith in
        omega (arith, h m x at, ap (λ k. busy (loop_of k) s) same))

module _ {ℓ} {B : Type ℓ} where
  total-plus : (f g : B → ℕ) (xs : List B) → total (λ x. f x + g x) xs ≡ total f xs + total g xs
  total-plus f g [] = refl
  total-plus f g (x ∷ xs) = omega (arith, total-plus f g xs)

  total-zero : (xs : List B) → total (λ _. 0) xs ≡ 0
  total-zero [] = refl
  total-zero (x ∷ xs) = omega (arith, total-zero xs)

  -- A sum of sums, in the other order.
  swap-le :
      {C : Type 0} (f : B → C → ℕ) (one : C → ℕ) (ms : List B)
      → ((c : C) → total (λ m. f m c) ms ≤ one c)
      → (cs : List C) → total (λ m. total (f m) cs) ms ≤ total one cs
  swap-le f one ms h [] = omega (arith, total-zero ms)
  swap-le f one ms h (c ∷ cs) =
      omega (arith, total-plus (λ m. f m c) (λ m. total (f m) cs) ms, h c, swap-le f one ms h cs)

hold-once :
    (n : ℕ) (pc : Pc ActorTask) → total (λ m. hold (loop_of m) pc) (from 0 n) ≤ hold (λ _. 1) pc
hold-once n (running t) = from-once t.mailbox 0 n
hold-once n top = omega (arith, total-zero (from 0 n))
hold-once n popping = omega (arith, total-zero (from 0 n))
hold-once n (scanning js) = omega (arith, total-zero (from 0 n))
hold-once n (moving ts) = omega (arith, total-zero (from 0 n))
hold-once n exited = omega (arith, total-zero (from 0 n))

-- A task is the loop of one mailbox.
pub busy-le :
    (s : Scheduler ActorTask) (n : ℕ) → total (λ m. busy (loop_of m) s) (from 0 n) ≤ busy (λ _. 1) s
busy-le s n = omega (
  arith,
  total-plus (λ m. total (hold (loop_of m)) s.workers) (λ m. total (loop_of m) s.panicked)
      (from 0 n),
  swap-le (λ m. hold (loop_of m)) (hold (λ _. 1)) (from 0 n) (hold-once n) s.workers,
  swap-le loop_of (λ _. 1) (from 0 n) (λ t. from-once t.mailbox 0 n) s.panicked,
)
