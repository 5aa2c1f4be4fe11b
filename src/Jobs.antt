-- ===== src/Jobs.antt =====
-- Jobs, the central unit of work (backend/apps/jobs): their rows and state machine, the services
-- that move them, and the theorems on both.
pub mod Model
pub mod Services
pub mod Machine
pub mod Invariant
mod Tests
