-- ===== src/Snapshots.antt =====
-- VM snapshots (backend/apps/snapshots): the rows, the services that admit an operation, the
-- Celery tasks that perform it, and what a failed or a finished operation leaves behind.
pub mod Model
pub mod Tasks
pub mod Ends
pub mod Restored
pub mod Services
pub mod Admitted
mod Tests
