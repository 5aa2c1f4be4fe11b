-- ===== src/Vm.antt =====
-- Virtual machines: rows, payloads, tasks (backend/apps/virtual_machines/).
pub mod Model
pub mod Payload
pub mod Rows
pub mod Tasks
pub mod Services
pub mod Attach
pub mod Attached
pub mod Creation
pub mod Inserted
pub mod Placed
pub mod Admitted
pub mod Samples
mod CloneTests
mod CreationTests
mod ProvisionTests
mod Tests
