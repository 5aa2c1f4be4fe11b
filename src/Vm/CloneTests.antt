-- ===== src/Vm/CloneTests.antt =====
-- A cloning that succeeds, and one whose agent is gone.
use node_pilot.Common.{refl, ◌≡◌, ◌+◌, true, false, none, some, List, [], ◌∷◌}
use node_pilot.Common.Exec.{err, for_each}
use node_pilot.Common.Error.{agent_unavailable}
use node_pilot.Jobs.Model.{Job, vm_clone}
use node_pilot.Jobs.Services.{create_job}
use node_pilot.Task.Protocol.{no_data}
use node_pilot.Task.World.{World, Reply, with_lock}
use node_pilot.Task.Agent.{send_operation}
use node_pilot.Task.Run.{job_run, fail_job}
use node_pilot.Vm.Samples.{small, root_disk}
use node_pilot.Vm.Payload.{Payload}
use node_pilot.Vm.Tasks.Clone.{CloneRows, Draws, new_clone, clone_vm_task}

abbrev draws : Draws
draws = record {
  uuid4 = λ n. 1000 + n;
  mac = λ n. "52:54:00:00:00:01";
  uuid_text = λ n. "c";
  name_taken = false;
  mac_taken = λ m. false;
}

abbrev waiting : Job
waiting = create_job vm_clone "VirtualMachine" "5" 1 (some 1) none "" 600

abbrev answering : Reply
answering = record {
  took = 3;
  cancel = false;
  usable = true;
  connected = true;
  polls =
      some (record { success = true; payload = record no_data { volume_id = some "/p/c" } }) ∷ [];
}

abbrev source_rows : CloneRows
source_rows = record {
  source = small;
  source_disks = root_disk ∷ [];
  source_nics = [];
  clone = none;
  disks = [];
  nics = [];
  uuids = 0;
  macs = 0;
}

abbrev world_with : List Reply → World Payload CloneRows
world_with replies = record {
  row = waiting;
  job = waiting;
  now = 100;
  busy = λ _. false;
  held = [];
  replies = replies;
  sent = [];
  events = [];
  res = source_rows;
}

abbrev calm : World Payload CloneRows
calm = world_with (answering ∷ answering ∷ [])

-- A clone whose agent is gone after the first step stays there with status CREATING.
clone_left : (clone_vm_task draws "web-2" true (world_with [])).0 ≡ err agent_unavailable
unfolding clone_vm_task with_lock job_run for_each send_operation fail_job
clone_left = refl

clone_left_creating :
    (clone_vm_task draws "web-2" true (world_with [])).1.res.clone
    ≡ some (new_clone draws small none "web-2" 0)
unfolding clone_vm_task with_lock job_run for_each send_operation fail_job
clone_left_creating = refl
