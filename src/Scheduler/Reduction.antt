-- ===== src/Scheduler/Reduction.antt =====
-- src/scheduler/reduction.rs: the counter by which an actor loop yields its thread. `AtomicU64`
-- wraps at 2 ^ 64; each operation is one atomic access.
use runact.Prelude.{
  ℕ, zero, suc, ◌+◌, ◌%◌, ◌/◌, ◌^◌, ◌≤◌, ◌≡◌, refl, Bool, true, false, arith, leb, if◌then◌else◌,
}

abbrev pub max_reductions : ℕ
max_reductions = 4000

pub record ReductionCounter : Type 0 where
  pub count : ℕ

unfoldable pub new : ReductionCounter
new = record { count = 0 }

-- `fetch_add(1)`: the value before the addition is returned
unfoldable pub increment : ReductionCounter → ℕ × ReductionCounter
increment c = (c.count, record { count = (c.count + 1) % 2 ^ 64 })

unfoldable pub reset : ReductionCounter → ReductionCounter
reset c = record { count = 0 }

unfoldable pub should_preempt : ReductionCounter → Bool
should_preempt c = leb max_reductions c.count

-- What an actor loop does after each message: count it, and at the limit reset and yield. The
-- flag says whether the thread yields.
unfoldable pub after_message : ReductionCounter → Bool × ReductionCounter
unfolding increment reset
after_message c =
    let (old, c') = increment c in if leb max_reductions old then (true, reset c') else (false, c')

-- The number of yields in `n` messages handled without an idle timeout, and the counter after.
unfoldable pub after_messages : ℕ → ReductionCounter → ℕ × ReductionCounter
unfolding after_message
after_messages zero c = (0, c)
after_messages (suc n) c =
    let (yields, c') = after_messages n c in
    let (yielded, c'') = after_message c' in ((if yielded then yields + 1 else yields), c'')

-- From a fresh counter, n messages handled with no timeout between them make the thread yield
-- n / 4001 times, and leave n % 4001 in the counter: the loop yields on each 4001st message.
pub after_messages-new :
    (n : ℕ) → ((after_messages n new).0 ≡ n / 4001) × ((after_messages n new).1.count ≡ n % 4001)
unfolding after_messages new
after_messages-new zero = (refl, refl)
after_messages-new (suc n) = ground (arith, after_messages-new n)

-- The counter never wraps: it stays within 0 to 4000.
pub after_messages-le : (n : ℕ) → (after_messages n new).1.count ≤ max_reductions
after_messages-le n = omega (arith, (after_messages-new n).1)
