-- ===== src/Scheduler.antt =====
-- src/scheduler: the work-stealing scheduler that runs actor loops on worker threads.
pub mod TaskPool
pub mod RunQueue
pub mod Reduction
pub mod Worker
pub mod WorkStealing
mod Tests
