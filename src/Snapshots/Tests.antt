-- ===== src/Snapshots/Tests.antt =====
-- The snapshot theorems at concrete worlds.
use node_pilot.Common.{◌≡◌, refl, inl, true, false, none, some, [], ◌∷◌}
use node_pilot.Jobs.Model.{Job, snapshot_delete}
use node_pilot.Jobs.Services.{create_job}
use node_pilot.Task.Protocol.{no_data}
use node_pilot.Task.World.{World, Reply}
use node_pilot.Task.Run.{celery_run}
use node_pilot.Task.Keeps.{Ends}
use node_pilot.Task.Ends.{IsSucceeded, IsFailed}
use node_pilot.Snapshots.Model.{Snapshot, ready, Payload, Rows}
use node_pilot.Snapshots.Tasks.{delete_snapshot_task}
use node_pilot.Snapshots.Ends.{deletes, snapshot_task_ends, body_of}
use node_pilot.Snapshots.Restored.{delete_snapshot_restores}

abbrev kept : Snapshot
kept = record {
  uuid = 7;
  vm = 1;
  name = "before-upgrade";
  description = "";
  status = ready;
  size_bytes = 4096;
  agent_snapshot_id = "snap-7";
}

abbrev waiting_job : Job
waiting_job = create_job snapshot_delete "Snapshot" "7" 1 none none "" 600

-- The agent answers that it failed.
abbrev failing : Reply
failing = record {
  took = 2;
  cancel = false;
  usable = true;
  connected = true;
  polls = none ∷ some (record { success = false; payload = no_data }) ∷ [];
}

abbrev world : World Payload Rows
world = record {
  row = waiting_job;
  job = waiting_job;
  now = 100;
  busy = λ _. false;
  held = [];
  replies = failing ∷ [];
  sent = [];
  events = [];
  res = record { snapshot = kept; stored = some kept };
}

snapshot_task_ends_example :
    Ends {A = Unit {0}} IsSucceeded IsFailed (celery_run "t-1" (body_of deletes) world)
snapshot_task_ends_example = (snapshot_task_ends deletes "t-1").at world (inl (refl, refl))

delete_snapshot_restores_example :
    Ends {A = Unit {0}}
      (λ w'. IsSucceeded w' × (w'.res.stored ≡ none))
      (λ e w'. IsFailed e w' × (w'.res.stored ≡ some kept))
      (celery_run "t-1" delete_snapshot_task world)
delete_snapshot_restores_example = delete_snapshot_restores "t-1" world (inl (refl, refl)) refl
