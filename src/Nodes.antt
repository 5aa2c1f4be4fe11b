-- ===== src/Nodes.antt =====
-- Nodes and their agents: computed status, heartbeats, sweeps (backend/apps/nodes/).
pub mod Model
pub mod Services
pub mod Scheduler
pub mod Status
pub mod Sweep
pub mod Choice
pub mod Samples
mod Tests
