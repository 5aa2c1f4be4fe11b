-- ===== src/Vm/Tasks.antt =====
-- The Celery tasks on VMs (backend/apps/virtual_machines/tasks.py).
pub mod Provision
pub mod Lifecycle
pub mod Devices
pub mod Clone
pub mod CloneEnds
pub mod Cloned
pub mod CloneMade
pub mod CloneDone
pub mod Ends
pub mod Results
pub mod Provisioned
pub mod Attached
pub mod UnderLock
