-- ===== src/Nodes/Status.antt =====
-- The computed status of a node, and what a heartbeat makes of it.
use node_pilot.Common.{ℕ, ◌-◌, ◌*◌, ◌≤◌, ◌≡◌, ◌≢◌, ◌↔◌, ◌⊎◌, true, none, some, List, arith}
use node_pilot.Common.Exec.{ok}
use node_pilot.Nodes.Model.{
  Node, Agent, online, NodeAdminState, AgentStatus, effective_status, is_schedulable,
}
use node_pilot.Nodes.Services.{Heartbeat, Accepted, record_heartbeat}

-- A node takes VMs exactly when an administrator left it active, its last heartbeat is no older
-- than half the threshold, and its agent, if it has one, is active.
pub schedulable_iff :
    (now threshold : ℕ) (node : Node)
    → (is_schedulable now threshold node ≡ true) ↔ (
        (node.admin_state ≡ NodeAdminState.active)
        × ((seen : ℕ) × (node.last_seen ≡ some seen) × (2 * (now - seen) ≤ threshold))
        × ((node.agent ≡ none) ⊎ (node.agent ≡ some AgentStatus.active)))
unfolding is_schedulable effective_status
schedulable_iff now threshold node = ground arith

-- A heartbeat that is accepted makes an active node with an active agent ONLINE, for as long as
-- half the threshold lasts, and it announces the node exactly when it was not ONLINE before.
pub heartbeat_revives :
    (now later threshold : ℕ) (minimum : List ℕ) (p : Heartbeat) (agent : Agent) (node : Node)
    (a : Accepted)
    → record_heartbeat now threshold minimum p agent node ≡ ok a
    → node.admin_state ≡ NodeAdminState.active
    → node.agent ≡ some AgentStatus.active
    → 2 * (later - now) ≤ threshold
    → (effective_status later threshold a.node ≡ online)
      × ((a.announced ≡ true) ↔ (effective_status now threshold node ≢ online))
unfolding record_heartbeat
heartbeat_revives now later threshold minimum p agent node a h active working fresh = ground arith
