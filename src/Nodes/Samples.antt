-- ===== src/Nodes/Samples.antt =====
-- Nodes, and floats that are whole numbers, to try things on.
use node_pilot.Common.{ℕ, ◌+◌, ◌-◌, ◌*◌, some, List, [], ◌∷◌, ltb, arith}
use node_pilot.Nodes.Model.{Node, NodeAdminState, AgentStatus}
use node_pilot.Nodes.Scheduler.{Floats, Inventory}
use node_pilot.Nodes.Choice.{IsOrder}

abbrev pub host : ℕ → ℕ → Node
host uuid free_mb = record {
  uuid = uuid;
  organization = 1;
  hostname = "kvm";
  admin_state = NodeAdminState.active;
  agent = some AgentStatus.active;
  agent_version = "1.2.0";
  kernel = "6.8";
  architecture = "x86_64";
  cpu_model = "EPYC";
  cpu_threads = 8;
  cpu_cores = 4;
  cpu_sockets = 1;
  memory_total_mb = 16384;
  memory_available_mb = free_mb;
  storage_total_gb = 500;
  storage_available_gb = 400;
  reported_vm_count = 0;
  last_seen = some 100;
  created_at = 10;
}

-- Whole numbers in place of floats.
abbrev pub whole : Floats
whole = record {
  Float = ℕ;
  over = λ a b. a * 1000 - b;
  times = λ a b. a * b;
  add = λ a b. a + b;
  round_2 = λ a. a;
  below = ltb;
}

pub whole-IsOrder : IsOrder whole
whole-IsOrder = record { asym = λ a b h. ground arith; step = λ a b c h k. ground arith }

abbrev pub empty_site : Inventory
empty_site = record { now = 110; threshold = 90; vms = []; disks = [] }

abbrev pub hosts : List Node
hosts = host 1 1024 ∷ host 2 4096 ∷ host 3 8192 ∷ []
