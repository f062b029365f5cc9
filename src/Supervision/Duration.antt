-- ===== src/Supervision/Duration.antt =====
-- `std::time::Duration` and `Instant` as numbers of nanoseconds. A `Duration` holds less than
-- 2 ^ 64 seconds; its multiplication by a `u32` panics beyond that (`none`). `elapsed` is zero for
-- an instant in the future.
use runact.Prelude.{ℕ, ◌-◌, ◌*◌, ◌^◌, ◌<◌, ◌≡◌, Option, none, some, ltb, if◌then◌else◌, lt→ltb}

abbrev pub from_secs : ℕ → ℕ
from_secs s = s * 1_000_000_000

abbrev pub from_millis : ℕ → ℕ
from_millis ms = ms * 1_000_000

-- One more than the longest duration.
abbrev pub duration_limit : ℕ
duration_limit = 2 ^ 64 * 1_000_000_000

unfoldable pub mul_u32 : ℕ → ℕ → Option ℕ
mul_u32 d k = if ltb (d * k) duration_limit then some (d * k) else none

abbrev pub elapsed : ℕ → ℕ → ℕ
elapsed now last = now - last

pub mul_u32-some : (d k : ℕ) → d * k < duration_limit → mul_u32 d k ≡ some (d * k)
unfolding mul_u32
mul_u32-some d k h = rw (lt→ltb (d * k) duration_limit h)
