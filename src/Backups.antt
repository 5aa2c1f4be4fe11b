-- ===== src/Backups.antt =====
-- Backups of VMs (backend/apps/backups/).
pub mod Model
pub mod Tasks
pub mod Services
pub mod Schedules
pub mod Mirrored
mod ScheduleTests
pub mod Ends
pub mod Retention
mod Tests
