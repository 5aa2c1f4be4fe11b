-- ===== src/Networks.antt =====
-- Networks of nodes and their tasks (backend/apps/networks/).
pub mod Tasks
pub mod Ends
mod Tests
