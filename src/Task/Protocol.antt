-- ===== src/Task/Protocol.antt =====
-- The agent protocol, as the controller and the agent both declare it
-- (backend/apps/nodes/protocol.py, agent/nodepilot_agent/protocol.py).
use node_pilot.Common.{ℕ, String, Bool, Option, none}

pub data OperationType : Type 0 where
  get_host_info get_domain_info : OperationType
  create_vm delete_vm start_vm stop_vm shutdown_vm reboot_vm reset_vm : OperationType
  pause_vm resume_vm migrate_vm : OperationType
  create_disk delete_disk resize_disk attach_disk detach_disk clone_disk : OperationType
  attach_iso detach_iso : OperationType
  create_network delete_network attach_nic detach_nic : OperationType
  create_snapshot delete_snapshot rollback_snapshot : OperationType
  create_storage_pool delete_storage_pool get_storage_pool_info : OperationType
  generate_cloud_init open_console : OperationType
  create_backup restore_backup : OperationType

-- The `data` of a response: of its keys, those that the controller reads.
pub record AgentData : Type 0 where
  pub volume_id : Option String
  pub device : Option String
  pub format : Option String
  pub snapshot_id : Option String
  pub backup_ref : Option String
  pub checksum : Option String
  pub size_bytes : Option ℕ
  pub capacity_bytes : Option ℕ
  pub used_bytes : Option ℕ
  pub available_bytes : Option ℕ

-- `AgentResponse`, without the request id and the error text.
pub record AgentResponse : Type 0 where
  pub success : Bool
  pub payload : AgentData

abbrev pub no_data : AgentData
no_data = record {
  volume_id = none;
  device = none;
  format = none;
  snapshot_id = none;
  backup_ref = none;
  checksum = none;
  size_bytes = none;
  capacity_bytes = none;
  used_bytes = none;
  available_bytes = none;
}
