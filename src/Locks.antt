-- ===== src/Locks.antt =====
-- The distributed lock over Redis (backend/apps/common/locks.py).
pub mod Redis
pub mod Exclusion
mod Tests
