-- ===== src/Actor/ActorId.antt =====
-- src/actor/id.rs: `ActorId` wraps a `u64`.
use runact.Prelude.{ℕ, ◌≡◌, refl, Bool, true, ◌==◌, ltb, ◌↔◌, arith}

pub record ActorId : Type 0 where
  pub raw : ℕ

unfoldable pub new : ℕ → ActorId
new id = record { raw = id }

unfoldable pub as_u64 : ActorId → ℕ
as_u64 id = id.raw

-- `PartialEq` and `Ord` are derived: they compare the numbers.
unfoldable pub eq : ActorId → ActorId → Bool
eq a b = a.raw == b.raw

unfoldable pub lt : ActorId → ActorId → Bool
lt a b = ltb a.raw b.raw

pub eq_iff : (a b : ActorId) → (eq a b ≡ true) ↔ (a ≡ b)
unfolding eq
eq_iff a b = ground arith

pub as_u64-new : (id : ℕ) → as_u64 (new id) ≡ id
unfolding as_u64 new
as_u64-new id = refl
