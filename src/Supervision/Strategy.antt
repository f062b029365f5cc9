-- ===== src/Supervision/Strategy.antt =====
-- src/supervision/strategy.rs and src/supervision/child.rs.
use Prim.Native.String.{String}
use runact.Prelude.{ℕ}
use runact.Supervision.Duration.{from_secs, from_millis}

-- `OneForOne`, the one strategy, with its fields.
pub data RestartStrategy : Type 0 where
  one_for_one : (max_restarts within base_backoff : ℕ) → RestartStrategy

abbrev pub default_strategy : RestartStrategy
default_strategy = one_for_one 5 (from_secs 60) (from_millis 100)

pub data RestartPolicy : Type 0 where
  permanent temporary transient : RestartPolicy

pub record ChildSpec : Type 0 where
  pub name : String
  pub policy : RestartPolicy
  pub timeout : ℕ

unfoldable pub new : String → ChildSpec
new name = record { name = name; policy = permanent; timeout = from_secs 5 }

unfoldable pub restart_policy : ChildSpec → RestartPolicy → ChildSpec
restart_policy spec policy = record spec { policy = policy }

unfoldable pub shutdown_timeout : ChildSpec → ℕ → ChildSpec
shutdown_timeout spec timeout = record spec { timeout = timeout }
