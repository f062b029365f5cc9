-- ===== src/Supervision/SupervisorActor/Backoff.antt =====
-- The delay between restarts.
use native.Mathlib.Nat.{pow-suc, mul_assoc, mod-eq_of_lt, pow-le-pow_right, mul-le-mul_left}
use runact.Prelude.{◌∙◌, ℕ, zero, suc, ◌+◌, ◌-◌, ◌*◌, ◌^◌, ◌≤◌, ◌<◌, ◌≡◌, ap, some, arith, min}
use runact.Supervision.Duration.{from_secs, duration_limit, mul_u32, mul_u32-some}
use runact.Supervision.Strategy.{RestartStrategy, one_for_one}
use runact.Supervision.SupervisorActor.{base_backoff, shift, cap_delay, backoff_delay}

product_small : (base e : ℕ) → base < from_secs (2 ^ 34) → e ≤ 30 → base * 2 ^ e < duration_limit
product_small base e h le =
    omega (arith, mul-le-mul_left base (pow-le-pow_right {n = 2} (omega arith) le))

delay_at :
    (base e : ℕ)
    → base < from_secs (2 ^ 34)
    → e ≤ 30
    → cap_delay (mul_u32 base (2 ^ e)) ≡ some (min (base * 2 ^ e) (from_secs 30))
unfolding cap_delay
delay_at base e h le = rw (mul_u32-some base (2 ^ e) (product_small base e h le), cap_delay)

shift-le : (n : ℕ) → shift n ≤ 30
unfolding shift
shift-le n = omega arith

-- With such a base the delay is defined for every restart count.
pub backoff_delay-some :
    (strategy : RestartStrategy) (n : ℕ)
    → base_backoff strategy < from_secs (2 ^ 34)
    → (d : ℕ) × (backoff_delay strategy n ≡ some d)
unfolding backoff_delay
backoff_delay-some strategy n h = (_, delay_at (base_backoff strategy) (shift n) h (shift-le n))

shift-min : (n : ℕ) → n < 2 ^ 32 → shift n ≡ min (n - 1) 30
unfolding shift
shift-min n small = rw (mod-eq_of_lt small)

-- No base backoff up to 2 ^ 34 - 1 seconds makes the multiplication panic, and the delay after the
-- n-th restart, n < 2 ^ 32, is the base times 2 ^ (n - 1), with the exponent at most 30 and the delay
-- at most 30 seconds.
pub backoff_delay_lem :
    (max within base n : ℕ)
    → base < from_secs (2 ^ 34)
    → n < 2 ^ 32
    → backoff_delay (one_for_one max within base) n
      ≡ some (min (base * 2 ^ min (n - 1) 30) (from_secs 30))
unfolding backoff_delay
backoff_delay_lem max within base n h small =
    rw (shift-min n small) (delay_at base (min (n - 1) 30) h (omega arith))

-- The delay before the cap, for a restart count.
abbrev pub raw_delay : ℕ → ℕ → ℕ
raw_delay base n = base * 2 ^ min (n - 1) 30

raw_delay-suc : (base n : ℕ) → 1 ≤ n → n ≤ 30 → raw_delay base (n + 1) ≡ raw_delay base n * 2
raw_delay-suc base (suc n) ge le =
    let one_more : min (suc n + 1 - 1) 30 ≡ suc n = omega arith in
    let here : min (suc n - 1) 30 ≡ n = omega arith in
    rw (one_more, here, pow-suc 2 n, mul_assoc base (2 ^ n) 2)
raw_delay-suc base zero ge le = absurd (omega arith)

-- From the first restart to the thirtieth, each delay is twice the one before it, up to the cap of
-- 30 seconds; the first delay is the base itself, capped.
pub backoff_delay-doubles :
    (max within base n : ℕ)
    → base < from_secs (2 ^ 34)
    → 1 ≤ n
    → n ≤ 30
    → (d : ℕ) × (backoff_delay (one_for_one max within base) n ≡ some d)
      × (backoff_delay (one_for_one max within base) (n + 1) ≡ some (min (d * 2) (from_secs 30)))
      × (backoff_delay (one_for_one max within base) 1 ≡ some (min base (from_secs 30)))
backoff_delay-doubles max within base n h ge le = (
  min (raw_delay base n) (from_secs 30),
  backoff_delay_lem max within base n h (omega arith),
  backoff_delay_lem max within base (n + 1) h (omega arith)
      ∙ ap some (omega (arith, raw_delay-suc base n ge le)),
  backoff_delay_lem max within base 1 h (omega arith) ∙ ap some (omega arith),
)

raw_delay_mono : (base n m : ℕ) → n ≤ m → raw_delay base n ≤ raw_delay base m
raw_delay_mono base n m le =
    mul-le-mul_left base (pow-le-pow_right {n = 2} (omega arith) (omega arith))

-- A later restart never waits less, and no restart waits more than 30 seconds, for restart counts
-- below 2 ^ 32 and a base below 2 ^ 34 seconds.
pub backoff_delay_mono :
    (max within base n m d e : ℕ)
    → base < from_secs (2 ^ 34)
    → n ≤ m
    → m < 2 ^ 32
    → backoff_delay (one_for_one max within base) n ≡ some d
    → backoff_delay (one_for_one max within base) m ≡ some e
    → (d ≤ e) × (e ≤ from_secs 30)
backoff_delay_mono max within base n m d e h le small at_n at_m =
    let dn : min (raw_delay base n) (from_secs 30) ≡ d =
      cc (backoff_delay_lem max within base n h (omega arith)) in
    let em : min (raw_delay base m) (from_secs 30) ≡ e =
      cc (backoff_delay_lem max within base m h small) in
    let mono = raw_delay_mono base n m le in (omega arith, omega arith)
