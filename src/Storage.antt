-- ===== src/Storage.antt =====
-- Storage pools on the controller (backend/apps/storage): the rows, and the task that registers
-- a pool with how it ends.
pub mod Model
pub mod Tasks
pub mod Ends
