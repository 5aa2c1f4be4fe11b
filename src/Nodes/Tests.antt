-- ===== src/Nodes/Tests.antt =====
-- The theorems on nodes at concrete rows.
use node_pilot.Common.{◌≡◌, refl, true, false, ltb, none, some, [], ◌∷◌, arith}
use mathlib.Core.List.{Memᴰ}
use node_pilot.Nodes.Model.{Node, Agent, AgentStatus, effective_status, is_schedulable}
use node_pilot.Nodes.Services.{Heartbeat, already_notified}
use node_pilot.Nodes.Scheduler.{SchedulingRequest, fits, score, candidates, select_node}
use node_pilot.Nodes.Sweep.{reports, reported_once}
use node_pilot.Nodes.Samples.{host, whole, whole-IsOrder, empty_site, hosts}
use node_pilot.Nodes.Choice.{chosen_best}

abbrev beat : Heartbeat
beat = record {
  agent_version = some (49 ∷ 46 ∷ 50 ∷ []);
  agent_version_text = some "1.2";
  protocol_version = none;
  kernel = none;
  architecture = none;
  cpu_model = none;
  cpu_threads = none;
  cpu_cores = none;
  cpu_sockets = none;
  memory_total_mb = none;
  memory_available_mb = some 4096;
  storage_total_gb = none;
  storage_available_gb = none;
  vms = some 3;
}

abbrev agent : Agent
agent = record {
  node = 1;
  status = AgentStatus.active;
  token_hash = "c0ffee";
  protocol_version = "1.0";
  last_heartbeat_at = none;
  revoked_at = none;
}

reported_once_example : reports 90 (host 1 8192) (150 ∷ 200 ∷ 260 ∷ []) [] ≡ 1
unfolding already_notified effective_status
reported_once_example =
    reported_once 90 (host 1 8192) (150 ∷ 200 ∷ 260 ∷ []) [] refl
      (omega arith, (omega arith, (omega arith, tt)))

abbrev request : SchedulingRequest
request = record { organization = 1; cpu_count = 2; memory_mb = 2048; disk_gb = 20 }

chosen_best_example :
    Memᴰ (host 3 8192) (candidates hosts request)
    × (fits empty_site request (host 3 8192) ≡ true)
    × ((m : Node)
        → Memᴰ m (candidates hosts request)
        → fits empty_site request m ≡ true
        → ltb (score whole empty_site request (host 3 8192)) (score whole empty_site request m)
          ≡ false)
unfolding select_node effective_status is_schedulable
chosen_best_example = chosen_best whole empty_site request whole-IsOrder hosts (host 3 8192) refl
