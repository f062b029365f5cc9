-- ===== src/Supervision/Supervisor.antt =====
-- src/supervision/supervisor.rs: the supervisor that decides by a count for each child.
use mathlib.Core.Path.{ap₂}
use runact.Prelude.{
  ℕ, ◌+◌, ◌%◌, ◌^◌, ◌<◌, ◌≤◌, length, ◌≡◌, refl, ap, Bool, true, false, Option, none, some, List,
  [], ◌∷◌, ◌++◌, arith, ltb, leb, ◌==◌, if◌then◌else◌,
}
use runact.Prelude.HashMap.{HashMap, lookup, insert, lookup-insert}
use runact.Actor.ActorId.{ActorId}
use runact.Supervision.Strategy.{RestartStrategy, one_for_one, ChildSpec}

pub record Supervisor : Type 0 where
  pub id : ActorId
  pub strategy : RestartStrategy
  pub children : List ChildSpec
  pub restart_counts : HashMap ℕ

unfoldable pub new : ActorId → RestartStrategy → Supervisor
new id strategy = record { id = id; strategy = strategy; children = []; restart_counts = [] }

unfoldable pub child : Supervisor → ChildSpec → Supervisor
child s spec = record s { children = s.children ++ spec ∷ [] }

-- `entry(child_id).or_insert(0)`
abbrev pub or_zero : Option ℕ → ℕ
or_zero none = 0
or_zero (some n) = n

unfoldable pub restart_count : Supervisor → ActorId → ℕ
restart_count s child_id = or_zero (lookup child_id.raw s.restart_counts)

may_restart : RestartStrategy → ℕ → Bool
may_restart (one_for_one max_restarts within base_backoff) count =
    if ltb max_restarts count then false else true

-- `*count += 1` on a `usize`, which wraps.
unfoldable pub handle_child_failure : Supervisor → ActorId → Bool × Supervisor
unfolding may_restart restart_count
handle_child_failure s child_id =
    let count = (restart_count s child_id + 1) % 2 ^ 64 in
    (
      may_restart s.strategy count,
      record s { restart_counts = insert child_id.raw count s.restart_counts },
    )

-- The answers to a sequence of failures.
unfoldable pub handle_all : Supervisor → List ActorId → List Bool
unfolding handle_child_failure
handle_all s [] = []
handle_all s (c ∷ cs) =
    let (answer, s') = handle_child_failure s c in let rest = handle_all s' cs in answer ∷ rest

-- The same answers from the history alone: a failure is answered by a restart as long as the child
-- has failed at most `max_restarts` times, this time included.
abbrev pub failures : ActorId → List ActorId → ℕ
failures c [] = 0
failures c (d ∷ ds) = (if d.raw == c.raw then 1 else 0) + failures c ds

abbrev pub answers : ℕ → List ActorId → List ActorId → List Bool
answers max_restarts before [] = []
answers max_restarts before (c ∷ cs) =
    leb (failures c before + 1) max_restarts ∷ answers max_restarts (c ∷ before) cs

failures-le : (c : ActorId) (ds : List ActorId) → failures c ds ≤ length ds
failures-le c [] = omega arith
failures-le c (d ∷ ds) = ground (arith, failures-le c ds)

-- The counts stand for the failures in `before`.
abbrev Counts : Supervisor → List ActorId → Type 0
Counts s before = (c : ActorId) → restart_count s c ≡ failures c before

-- A count that has not reached its limit does not wrap.
next_count :
    (s : Supervisor) (before : List ActorId) (c : ActorId)
    → length before + 1 < 2 ^ 64
    → Counts s before
    → (restart_count s c + 1) % 2 ^ 64 ≡ failures c before + 1
next_count s before c small h = omega (arith, h c, failures-le c before)

handle-Counts :
    (s : Supervisor) (before : List ActorId) (c : ActorId)
    → length before + 1 < 2 ^ 64
    → Counts s before
    → Counts (handle_child_failure s c).1 (c ∷ before)
unfolding handle_child_failure restart_count
handle-Counts s before c small h d = ground (
  arith,
  next_count s before c small h,
  h c,
  h d,
  ap or_zero (
      lookup-insert c.raw d.raw ((or_zero (lookup c.raw s.restart_counts) + 1) % 2 ^ 64)
        s.restart_counts),
)

may_restart-leb :
    (strategy : RestartStrategy) (max_restarts within base_backoff count n : ℕ)
    → strategy ≡ one_for_one max_restarts within base_backoff
    → count ≡ n
    → may_restart strategy count ≡ leb n max_restarts
unfolding may_restart
may_restart-leb strategy m w b count n e same = rw (e, same, may_restart) (ground arith)

handle_all-answers :
    (s : Supervisor) (max_restarts within base_backoff : ℕ) (before cs : List ActorId)
    → length before + length cs < 2 ^ 64
    → s.strategy ≡ one_for_one max_restarts within base_backoff
    → Counts s before
    → handle_all s cs ≡ answers max_restarts before cs
unfolding handle_all handle_child_failure
handle_all-answers s m w b before [] small e h = refl
handle_all-answers s m w b before (c ∷ cs) small e h =
    let few : length before + 1 < 2 ^ 64 = omega arith in
    ap₂ ◌∷◌ (may_restart-leb s.strategy m w b _ _ e (next_count s before c few h)) (
      handle_all-answers (handle_child_failure s c).1 m w b (c ∷ before) cs (omega arith) e
        (handle-Counts s before c few h))

-- A new supervisor answers each failure of a child by a restart exactly as long as that child, and
-- no matter which others, has failed at most `max_restarts` times: the answers to any sequence of
-- fewer than 2 ^ 64 failures are those that the history alone gives.
pub handle_all-new :
    (id : ActorId) (max_restarts within base_backoff : ℕ) (cs : List ActorId)
    → length cs < 2 ^ 64
    → handle_all (new id (one_for_one max_restarts within base_backoff)) cs
      ≡ answers max_restarts [] cs
unfolding new restart_count lookup
handle_all-new id m w b cs small =
    handle_all-answers (new id (one_for_one m w b)) m w b [] cs (omega arith) refl (λ c. refl)
