-- ===== src/Host.antt =====
-- What the agent runs on its node (agent/nodepilot_agent/): the storage backends, the operations
-- on disks and pools, and the commands of its networks.
pub mod Names
pub mod Shell
pub mod Backends
pub mod Volumes
pub mod PoolSizes
pub mod Disks
pub mod Facts
pub mod Confined
pub mod Safe
pub mod Created
pub mod Cloned
pub mod Operations
pub mod Reached
pub mod Links
pub mod LinkRules
pub mod Ensured
pub mod Again
mod Tests
