-- ===== src/Nodes/Services.antt =====
-- Heartbeats, the offline sweep and reconciliation (backend/apps/nodes/services.py,
-- reconciliation.py, tasks.py).
use node_pilot.Common.{
  ℕ, suc, ◌+◌, ◌-◌, ◌*◌, String, Bool, true, false, not, ◌&&◌, Option, some, List, [], ◌∷◌,
  if◌then◌else◌, or_else, ltb, leb, ◌==◌, any, length, filter_by,
}
use node_pilot.Common.Error.{agent_version_unsupported}
use node_pilot.Common.Exec.{Result, ok, err}
use node_pilot.Vm.Model.{VirtualMachine, deleting, same_status}
use node_pilot.Nodes.Model.{Node, Agent, is_online, is_offline, is_active, effective_status}
use node_pilot.Nodes.Scheduler.{on_node}

-- A text is the list of its codes here: 46 is the dot, 48 to 57 are the digits (`isdigit` on
-- ASCII).
abbrev pub is_digit : ℕ → Bool
is_digit c = leb 48 c && leb c 57

-- The chunks between the dots; `value` is that of the digits of the chunk so far.
unfoldable pub version_chunks : ℕ → List ℕ → List ℕ
version_chunks value [] = value ∷ []
version_chunks value (c ∷ cs) =
    if c == 46
    then value ∷ version_chunks 0 cs
    else if is_digit c
    then version_chunks (value * 10 + (c - 48)) cs
    else version_chunks value cs

-- `_version_tuple`
unfoldable pub version_tuple : List ℕ → List ℕ
unfolding version_chunks
version_tuple version = version_chunks 0 version

-- `<` of tuples.
unfoldable pub tuple_lt : List ℕ → List ℕ → Bool
tuple_lt [] [] = false
tuple_lt [] (_ ∷ _) = true
tuple_lt (_ ∷ _) [] = false
tuple_lt (a ∷ xs) (b ∷ ys) = if a == b then tuple_lt xs ys else ltb a b

-- `check_agent_version_compatible`
unfoldable pub check_agent_version_compatible : List ℕ → List ℕ → Result (Unit {0})
unfolding version_tuple tuple_lt
check_agent_version_compatible minimum version =
    if tuple_lt (version_tuple version) (version_tuple minimum)
    then err agent_version_unsupported
    else ok tt

-- The payload of a heartbeat, each key optional; the version is there as codes and as a text.
pub record Heartbeat : Type 0 where
  pub agent_version : Option (List ℕ)
  pub agent_version_text : Option String
  pub protocol_version : Option String
  pub kernel : Option String
  pub architecture : Option String
  pub cpu_model : Option String
  pub cpu_threads : Option ℕ
  pub cpu_cores : Option ℕ
  pub cpu_sockets : Option ℕ
  pub memory_total_mb : Option ℕ
  pub memory_available_mb : Option ℕ
  pub storage_total_gb : Option ℕ
  pub storage_available_gb : Option ℕ
  pub vms : Option ℕ

-- The assignments to the node.
unfoldable pub reported : ℕ → Heartbeat → Node → Node
reported now p node = record node {
  agent_version = or_else p.agent_version_text node.agent_version;
  kernel = or_else p.kernel node.kernel;
  architecture = or_else p.architecture node.architecture;
  cpu_model = or_else p.cpu_model node.cpu_model;
  cpu_threads = or_else p.cpu_threads node.cpu_threads;
  cpu_cores = or_else p.cpu_cores node.cpu_cores;
  cpu_sockets = or_else p.cpu_sockets node.cpu_sockets;
  memory_total_mb = or_else p.memory_total_mb node.memory_total_mb;
  memory_available_mb = or_else p.memory_available_mb node.memory_available_mb;
  storage_total_gb = or_else p.storage_total_gb node.storage_total_gb;
  storage_available_gb = or_else p.storage_available_gb node.storage_available_gb;
  reported_vm_count = or_else p.vms node.reported_vm_count;
  last_seen = some now;
}

-- What a heartbeat leaves: the rows, and whether NODE_ONLINE was emitted.
pub record Accepted : Type 0 where
  pub node : Node
  pub agent : Agent
  pub announced : Bool

-- `record_heartbeat`; metrics and the broadcast are outside the model.
unfoldable pub record_heartbeat : ℕ → ℕ → List ℕ → Heartbeat → Agent → Node → Result Accepted
unfolding check_agent_version_compatible effective_status reported
record_heartbeat now threshold minimum p agent node =
    elim (check_agent_version_compatible minimum (or_else p.agent_version [])) [
      | err e ↦ err e
      | ok _ ↦ ok (record {
        node = reported now p node;
        agent = record agent {
          last_heartbeat_at = some now;
          protocol_version = or_else p.protocol_version agent.protocol_version;
        };
        announced = not (is_online (effective_status now threshold node));
      })
    ]

-- A NODE_OFFLINE event: its node and its time.
pub record OfflineEvent : Type 0 where
  pub node : ℕ
  pub created_at : ℕ

-- `node.last_seen or node.created_at`
abbrev pub since : Node → ℕ
since node = or_else node.last_seen node.created_at

unfoldable pub already_notified : Node → List OfflineEvent → Bool
already_notified node events =
    any (λ e. e.node == node.uuid && leb (since node) e.created_at) events

-- `mark_offline_if_stale`, with the events that it leaves.
unfoldable pub mark_offline_if_stale : ℕ → ℕ → Node → List OfflineEvent → Bool × List OfflineEvent
unfolding effective_status already_notified
mark_offline_if_stale now threshold node events =
    if not (is_offline (effective_status now threshold node))
    then (false, events)
    else if already_notified node events
    then (false, events)
    else (true, record { node = node.uuid; created_at = now } ∷ events)

-- `sweep_offline_nodes`: how many were found newly offline.
unfoldable pub sweep_offline_nodes : ℕ → ℕ → List Node → List OfflineEvent → ℕ × List OfflineEvent
unfolding mark_offline_if_stale
sweep_offline_nodes now threshold [] events = (0, events)
sweep_offline_nodes now threshold (node ∷ nodes) events =
    if not (is_active node.admin_state)
    then sweep_offline_nodes now threshold nodes events
    else (let (marked, events') = mark_offline_if_stale now threshold node events in
        let (changed, events'') = sweep_offline_nodes now threshold nodes events' in
        ((if marked then suc changed else changed), events''))

-- `reconcile_node`: whether a mismatch was emitted.
unfoldable pub reconcile_node : ℕ → ℕ → List VirtualMachine → Node → Bool
unfolding effective_status
reconcile_node now threshold vms node =
    is_online (effective_status now threshold node)
    && not (
        length
          (filter_by (λ v. on_node node.uuid v.node && not (same_status v.status deleting)) vms)
        == node.reported_vm_count)

-- `reconcile_all`
unfoldable pub reconcile_all : ℕ → ℕ → List VirtualMachine → List Node → ℕ
unfolding reconcile_node
reconcile_all now threshold vms nodes = length (filter_by (reconcile_node now threshold vms) nodes)
