-- ===== src/Vm/Tests.antt =====
-- The VM theorems at a concrete world.
use node_pilot.Common.{inl, refl, true, false, none, some, [], ◌∷◌}
use node_pilot.Jobs.Model.{Job, vm_create}
use node_pilot.Jobs.Services.{create_job}
use node_pilot.Task.Protocol.{no_data}
use node_pilot.Task.World.{World, Reply}
use node_pilot.Task.Run.{celery_run}
use node_pilot.Task.Keeps.{Ends}
use node_pilot.Task.Ends.{IsSucceeded, IsFailed}
use node_pilot.Vm.Services.{Site}
use node_pilot.Vm.Model.{VmStatus, VirtualMachine, VmDisk}
use node_pilot.Vm.Samples.{small, root_disk}
use node_pilot.Vm.Payload.{Payload}
use node_pilot.Task.World.{storage}
use node_pilot.Task.Locked.{IsLocked}
use node_pilot.Task.Saved.{Saved}
use node_pilot.Vm.Tasks.Attached.{detaches, disk_task_of, disk_task_ends}
use node_pilot.Vm.Tasks.UnderLock.{disk_commands-IsLocked}
use node_pilot.Vm.Rows.{Rows}
use node_pilot.Vm.Tasks.Results.{provisions, body_of, vm_task_ends}

abbrev waiting_job : Job
waiting_job = create_job vm_create "VirtualMachine" "5" 1 (some 1) none "" 600

-- The agent answers, and a user cancels the job while it creates the disk.
abbrev cancelling : Reply
cancelling = record {
  took = 3;
  cancel = true;
  usable = true;
  connected = true;
  polls = some (record { success = true; payload = no_data }) ∷ [];
}

abbrev world : World Payload Rows
world = record {
  row = waiting_job;
  job = waiting_job;
  now = 100;
  busy = λ _. false;
  held = [];
  replies = cancelling ∷ [];
  sent = [];
  events = [];
  res = record { vm = small; stored = some small; disks = root_disk ∷ []; nics = [] };
}

vm_task_ends_example :
    Ends {A = Unit {0}} IsSucceeded IsFailed (celery_run "t-1" (body_of provisions) world)
vm_task_ends_example = (vm_task_ends provisions "t-1").at world (inl (refl, refl))

abbrev disk_world : World Payload (Saved VmDisk)
disk_world = record {
  row = waiting_job;
  job = waiting_job;
  now = 100;
  busy = λ _. false;
  held = [];
  replies = cancelling ∷ cancelling ∷ [];
  sent = [];
  events = [];
  res = record { object = root_disk; stored = some root_disk };
}

disk_task_ends_example :
    Ends {A = Unit {0}} IsSucceeded IsFailed
      (celery_run "t-2" (disk_task_of small "9" detaches) disk_world)
disk_task_ends_example = (disk_task_ends small "9" detaches "t-2").at disk_world (inl (refl, refl))

disk_commands-IsLocked_example :
    Ends {A = Unit {0}}
      (IsLocked storage)
      (λ _. IsLocked storage)
      (celery_run "t-2" (disk_task_of small "9" detaches) disk_world)
disk_commands-IsLocked_example =
    (disk_commands-IsLocked small "9" detaches "t-2").at disk_world refl

abbrev up : VirtualMachine
up = record small { status = VmStatus.running }

abbrev site : Site
site = record { jobs = []; queued = []; quotas = []; entries = []; busy = λ _. false }
