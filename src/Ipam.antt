-- ===== src/Ipam.antt =====
-- IP address management (backend/apps/networks/).
pub mod Addresses
pub mod Allocation
pub mod Agreement
mod Tests
