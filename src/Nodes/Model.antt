-- ===== src/Nodes/Model.antt =====
-- backend/apps/nodes/models.py.
use node_pilot.Common.{
  ℕ, ◌-◌, ◌*◌, String, Bool, true, false, ◌&&◌, Option, none, some, if◌then◌else◌, ltb,
}

pub data NodeAdminState : Type 0 where
  active maintenance disabled : NodeAdminState

pub data NodeStatus : Type 0 where
  online offline warning maintenance disabled : NodeStatus

pub data AgentStatus : Type 0 where
  active disabled revoked offline : AgentStatus

-- A node; its times are in seconds, and an agent's token hash that is blank is the text "".
pub record Node : Type 0 where
  pub uuid : ℕ
  pub organization : ℕ
  pub hostname : String
  pub admin_state : NodeAdminState
  pub agent : Option AgentStatus
  pub agent_version : String
  pub kernel : String
  pub architecture : String
  pub cpu_model : String
  pub cpu_threads : ℕ
  pub cpu_cores : ℕ
  pub cpu_sockets : ℕ
  pub memory_total_mb : ℕ
  pub memory_available_mb : ℕ
  pub storage_total_gb : ℕ
  pub storage_available_gb : ℕ
  pub reported_vm_count : ℕ
  pub last_seen : Option ℕ
  pub created_at : ℕ

pub record Agent : Type 0 where
  pub node : ℕ
  pub status : AgentStatus
  pub token_hash : String
  pub protocol_version : String
  pub last_heartbeat_at : Option ℕ
  pub revoked_at : Option ℕ

abbrev pub is_online : NodeStatus → Bool
is_online online = true
is_online _ = false

abbrev pub is_offline : NodeStatus → Bool
is_offline offline = true
is_offline _ = false

-- The part of `effective_status` that looks at the heartbeat. `age > threshold / 2` is true
-- division: `2 * age > threshold`.
unfoldable pub fresh_status : ℕ → ℕ → Option AgentStatus → Option ℕ → NodeStatus
fresh_status now threshold agent none = offline
fresh_status now threshold agent (some seen) =
    if ltb threshold (now - seen)
    then offline
    else if ltb threshold (2 * (now - seen))
    then warning
    else elim agent [ none ↦ online | some s ↦ elim s [ active ↦ online | _ ↦ warning ] ]

-- `Node.effective_status`, at a time and with the configured threshold.
unfoldable pub effective_status : ℕ → ℕ → Node → NodeStatus
unfolding fresh_status
effective_status now threshold node = elim node.admin_state [
  | disabled ↦ disabled
  | maintenance ↦ maintenance
  | active ↦ fresh_status now threshold node.agent node.last_seen
]

abbrev pub is_active : NodeAdminState → Bool
is_active active = true
is_active _ = false

-- `Node.is_schedulable`
unfoldable pub is_schedulable : ℕ → ℕ → Node → Bool
unfolding effective_status
is_schedulable now threshold node =
    is_online (effective_status now threshold node) && is_active node.admin_state

-- `Agent.is_usable`
unfoldable pub is_usable : Agent → Bool
is_usable agent = elim agent.status [ active ↦ true | _ ↦ false ]

-- `Agent.revoke`
unfoldable pub revoke : ℕ → Agent → Agent
revoke now agent = record agent { status = revoked; revoked_at = some now; token_hash = "" }
