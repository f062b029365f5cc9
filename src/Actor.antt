-- ===== src/Actor.antt =====
-- src/actor: ids and errors.
pub mod ActorId
pub mod Error
pub mod Context
