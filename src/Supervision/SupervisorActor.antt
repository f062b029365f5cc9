-- ===== src/Supervision/SupervisorActor.antt =====
-- src/supervision/supervisor_actor.rs: the supervisor that is itself an actor. A message is handled
-- in one call; the clock is read in two places, so a call takes the two instants as arguments: the
-- one that `last.elapsed()` reads and the one of the later `Instant::now()`. `usize` arithmetic
-- wraps at 2 ^ 64, `as u32` at 2 ^ 32. Logging is left out. A panic of the delay's multiplication
-- is an outcome of its own.
pub mod Backoff
pub mod Restarts
pub mod Window
use Prim.Native.String.{String}
use runact.Prelude.{
  ℕ, suc, ◌+◌, ◌-◌, ◌%◌, ◌^◌, min, Bool, true, false, Option, none, some, List, [], ◌∷◌, map, ltb,
  leb, if◌then◌else◌,
}
use runact.Prelude.HashMap.{HashMap, lookup, insert}
use runact.Actor.ActorId.{ActorId}
use runact.Supervision.Duration.{from_secs, mul_u32, elapsed}
use runact.Supervision.Strategy.{RestartStrategy, one_for_one}

pub data SupervisorMessage : Type 0 where
  child_started : (child_id : ActorId) (name : String) → SupervisorMessage
  child_crashed : (child_id : ActorId) (reason : String) → SupervisorMessage
  get_status : SupervisorMessage

pub record ChildStatus : Type 0 where
  pub id : ActorId
  pub name : String
  pub restart_count : ℕ
  pub alive : Bool

pub record ChildEntry : Type 0 where
  pub name : String
  pub restart_count : ℕ
  pub alive : Bool
  pub last_restart_at : Option ℕ

pub record SupervisorActor : Type 0 where
  pub children : HashMap ChildEntry
  pub strategy : RestartStrategy

unfoldable pub new : RestartStrategy → SupervisorActor
new strategy = record { children = []; strategy = strategy }

unfoldable pub max_restarts : RestartStrategy → ℕ
max_restarts (one_for_one max within base) = max

unfoldable pub base_backoff : RestartStrategy → ℕ
base_backoff (one_for_one max within base) = base

-- `(restart_count as u32).saturating_sub(1).min(30)`
unfoldable pub shift : ℕ → ℕ
shift restart_count = min (restart_count % 2 ^ 32 - 1) 30

cap_delay : Option ℕ → Option ℕ
cap_delay none = none
cap_delay (some delay) = some (min delay (from_secs 30))

unfoldable pub backoff_delay : RestartStrategy → ℕ → Option ℕ
unfolding base_backoff shift cap_delay mul_u32
backoff_delay strategy restart_count =
    cap_delay (mul_u32 (base_backoff strategy) (2 ^ shift restart_count))

-- The reply, if one is sent, with the new state; or the handler panics.
pub data Handled : Type 0 where
  handled : Option (List ChildStatus) → SupervisorActor → Handled
  panicked : Handled

-- `children.get(&child_id).map(|e| e.restart_count + 1).unwrap_or(0)`
unfoldable pub new_restart_count : Option ChildEntry → ℕ
new_restart_count none = 0
new_restart_count (some e) = (e.restart_count + 1) % 2 ^ 64

-- Whether the backoff since the last restart is over.
unfoldable pub backoff_over : Option ℕ → (now delay : ℕ) → Bool
backoff_over none now delay = true
backoff_over (some last) now delay = if ltb (elapsed now last) delay then false else true

-- The entry of a crashed child: restarted, kept dead by the backoff, or given up.
unfoldable pub crashed_entry : ChildEntry → (count max delay elapsed_at now : ℕ) → ChildEntry
unfolding backoff_over
crashed_entry e count max delay elapsed_at now =
    if leb count max
    then if backoff_over e.last_restart_at elapsed_at delay
      then record e { restart_count = count; alive = true; last_restart_at = some now }
      else record e { restart_count = count; alive = false }
    else record e { restart_count = count; alive = false }

update_crashed :
    SupervisorActor
    → ActorId
    → (count delay elapsed_at now : ℕ) → Option ChildEntry
    → SupervisorActor
unfolding crashed_entry max_restarts
update_crashed s child_id count delay elapsed_at now none = s
update_crashed s child_id count delay elapsed_at now (some e) = record s {
  children =
      insert child_id.raw (crashed_entry e count (max_restarts s.strategy) delay elapsed_at now)
        s.children;
}

crash_with : SupervisorActor → ActorId → (count elapsed_at now : ℕ) → Option ℕ → Handled
unfolding update_crashed
crash_with s child_id count elapsed_at now none = panicked
crash_with s child_id count elapsed_at now (some delay) =
    handled none
      (update_crashed s child_id count delay elapsed_at now (lookup child_id.raw s.children))

status : ℕ × ChildEntry → ChildStatus
status (id, e) = record {
  id = record { raw = id };
  name = e.name;
  restart_count = e.restart_count;
  alive = e.alive;
}

unfoldable pub handle : SupervisorActor → SupervisorMessage → (elapsed_at now : ℕ) → Handled
unfolding crash_with new_restart_count backoff_delay status
handle s (child_started child_id name) elapsed_at now = handled none (record s {
  children =
      insert child_id.raw
        (record { name = name; restart_count = 0; alive = true; last_restart_at = none })
        s.children;
})
handle s (child_crashed child_id reason) elapsed_at now =
    let count = new_restart_count (lookup child_id.raw s.children) in
    crash_with s child_id count elapsed_at now (backoff_delay s.strategy count)
handle s get_status elapsed_at now = handled (some (map status s.children)) s

-- A message with the two instants at which its handler reads the clock.
pub record Delivery : Type 0 where
  pub message : SupervisorMessage
  pub elapsed_at : ℕ
  pub now : ℕ

-- The replies to a sequence of messages, and the state after it.
abbrev pub Replies : Type 0
Replies = List (Option (List ChildStatus)) × Option SupervisorActor

-- A panic ends the actor's thread: no later message is handled.
follow : (SupervisorActor → Replies) → Handled → Replies
follow next panicked = ([], none)
follow next (handled reply s) = (reply ∷ (next s).0, (next s).1)

unfoldable pub handle_all : SupervisorActor → List Delivery → Replies
unfolding handle follow
handle_all s [] = ([], some s)
handle_all s (d ∷ ds) = follow (λ s'. handle_all s' ds) (handle s d.message d.elapsed_at d.now)

-- `TestCounter`, the actor of the tests.
pub data TestCounterMessage : Type 0 where
  increment get_value : TestCounterMessage

pub record TestCounter : Type 0 where
  pub count : ℕ

-- The reply and the new state; `count` is a `u64`.
unfoldable pub handle_counter : TestCounter → TestCounterMessage → Option ℕ × TestCounter
handle_counter c increment = (none, record { count = (c.count + 1) % 2 ^ 64 })
handle_counter c get_value = (some c.count, c)
