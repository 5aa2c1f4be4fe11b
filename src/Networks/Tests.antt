-- ===== src/Networks/Tests.antt =====
-- The network theorem at a concrete world.
use node_pilot.Common.{refl, inl, true, false, none, some, [], ◌∷◌}
use node_pilot.Jobs.Model.{Job, network_delete}
use node_pilot.Jobs.Services.{create_job}
use node_pilot.Task.Protocol.{no_data}
use node_pilot.Task.World.{World, Reply}
use node_pilot.Task.Run.{celery_run}
use node_pilot.Task.Keeps.{Ends}
use node_pilot.Task.Ends.{IsSucceeded, IsFailed}
use node_pilot.Task.Saved.{Saved}
use node_pilot.Networks.Tasks.{NetworkType, NetworkStatus, Network, Payload}
use node_pilot.Networks.Ends.{deletes, body_of, network_task_ends}

abbrev lan : Network
lan = record {
  uuid = 3;
  node = 1;
  name = "lan";
  type = NetworkType.vlan;
  bridge = "vmbr0";
  vlan_id = some 20;
  dhcp_enabled = false;
  status = NetworkStatus.active;
}

abbrev waiting_job : Job
waiting_job = create_job network_delete "Network" "3" 1 (some 1) none "" 600

abbrev answer : Reply
answer = record {
  took = 1;
  cancel = false;
  usable = true;
  connected = true;
  polls = some (record { success = true; payload = no_data }) ∷ [];
}

abbrev world : World Payload (Saved Network)
world = record {
  row = waiting_job;
  job = waiting_job;
  now = 100;
  busy = λ _. false;
  held = [];
  replies = answer ∷ [];
  sent = [];
  events = [];
  res = record { object = lan; stored = some lan };
}

network_task_ends_example :
    Ends {A = Unit {0}} IsSucceeded IsFailed (celery_run "t-6" (body_of deletes lan) world)
network_task_ends_example = (network_task_ends deletes lan "t-6").at world (inl (refl, refl))
