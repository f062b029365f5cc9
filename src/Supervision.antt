-- ===== src/Supervision.antt =====
-- src/supervision: child specifications, restart strategies, and two supervisors.
pub mod Duration
pub mod Strategy
pub mod Supervisor
pub mod SupervisorActor
mod Tests
