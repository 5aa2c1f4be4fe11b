-- ===== src/Host/Operations.antt =====
-- The operations on disks (agent/nodepilot_agent/operations/disk_ops.py), seeding from an image
-- included, against what is allowed.
use node_pilot.Common.Exec.{◌>>◌}
use node_pilot.Hypervisor.Text.{Text}
