-- ===== src/Quota.antt =====
-- Quotas of organizations and projects (backend/apps/organizations/services.py).
pub mod Check
pub mod Admission
mod Tests
