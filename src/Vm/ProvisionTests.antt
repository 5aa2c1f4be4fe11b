-- ===== src/Vm/ProvisionTests.antt =====
-- A provisioning that succeeds.
use node_pilot.Common.{refl, true, false, none, some, [], ◌∷◌}
use node_pilot.Common.Exec.{for_each}
use node_pilot.Jobs.Model.{Job, vm_create}
use node_pilot.Jobs.Services.{create_job}
use node_pilot.Task.Protocol.{no_data}
use node_pilot.Task.World.{World, Reply, with_lock}
use node_pilot.Task.Agent.{send_operation, poll}
use node_pilot.Task.Run.{job_run}
use node_pilot.Vm.Samples.{small, root_disk}
use node_pilot.Vm.Payload.{Payload}
use node_pilot.Vm.Rows.{Rows}
use node_pilot.Vm.Tasks.Provision.{
  provision_vm, provision_disks, provision_disk, define_domain, attach_cloud_init, start_domain,
}
use node_pilot.Vm.Tasks.Provisioned.{Settles, provision_vm-Settles}

abbrev waiting : Job
waiting = create_job vm_create "VirtualMachine" "5" 1 (some 1) none "" 600

abbrev answering : Reply
answering = record {
  took = 3;
  cancel = false;
  usable = true;
  connected = true;
  polls = some (record { success = true; payload = no_data }) ∷ [];
}

abbrev calm : World Payload Rows
calm = record {
  row = waiting;
  job = waiting;
  now = 100;
  busy = λ _. false;
  held = [];
  replies = answering ∷ answering ∷ answering ∷ answering ∷ [];
  sent = [];
  events = [];
  res = record { vm = small; stored = some small; disks = root_disk ∷ []; nics = [] };
}

provision_vm-Settles_example : Settles (provision_vm calm).1.res.stored
unfolding provision_vm with_lock job_run provision_disks for_each provision_disk send_operation poll
    define_domain attach_cloud_init start_domain
provision_vm-Settles_example = provision_vm-Settles calm refl
