-- ===== src/Actor/Error.antt =====
-- src/error.rs and src/actor/error.rs: the errors, and `std::result::Result`.
use Prim.Native.String.{String}
use runact.Actor.ActorId.{ActorId}

pub data RuntimeError : Type 0 where
  actor_not_found mailbox_full actor_exists : ActorId → RuntimeError
  shutdown_timeout runtime_stopped : RuntimeError

pub data ActorError : Type 0 where
  handler panic : String → ActorError
  cancelled timeout : ActorError

pub data Result {ℓ κ} (A : Type ℓ) (E : Type κ) : Type (ℓ ⊔ κ) where
  ok : A → Result A E
  err : E → Result A E

module _ {ℓ κ μ} {A : Type ℓ} {B : Type κ} {E : Type μ} where
  -- `?`: go on with the value, or return the error.
  infixl 5 ◌>>=◌
  abbrev pub ◌>>=◌ : Result A E → (A → Result B E) → Result B E
  ok a >>= f = f a
  err e >>= f = err e
