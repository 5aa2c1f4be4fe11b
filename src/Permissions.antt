-- ===== src/Permissions.antt =====
-- Who may do what (backend/apps/permissions/policies.py, backend/apps/permissions/models.py,
-- backend/apps/common/permissions.py, the list query of backend/apps/common/viewsets.py and the
-- API tokens of backend/apps/authentication/).
pub mod Model
pub mod Policy
pub mod History
pub mod Credentials
pub mod Gate
pub mod Granted
mod Tests
