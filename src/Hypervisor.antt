-- ===== src/Hypervisor.antt =====
-- The agent on a node (agent/nodepilot_agent/): the XML that it gives to libvirt, and its Linux
-- bridges and VLANs.
pub mod Text
pub mod DomainXml
pub mod Domain
pub mod Quoted
pub mod Network
pub mod Isolation
mod Tests
