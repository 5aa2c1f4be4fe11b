-- ===== src/Vm/Tasks/Provision.antt =====
-- `provision_vm` and `_cleanup_partial_vm` (backend/apps/virtual_machines/tasks.py).
use node_pilot.Common.{ℕ, String, Bool, true, false, not, none, some, List, [], ◌∷◌, ◌++◌}
use node_pilot.Common.Error.{Error, lock_acquisition}
use node_pilot.Common.Exec.{pure, raise, gets, catch, when, for_each, ◌>>=◌, ◌>>◌}
use node_pilot.Jobs.Model.{success, failed, is_terminal}
use node_pilot.Task.Protocol.{
  create_vm, delete_vm, start_vm, create_disk, delete_disk, generate_cloud_init,
}
use node_pilot.Task.World.{World, lifecycle, transition, with_lock, update, read, emit}
use node_pilot.Task.Agent.{send_operation, rpc_timeout}
use node_pilot.Task.Run.{job_run, fail_job}
use node_pilot.Vm.Model.{
  VmStatus, stopped, running, ProvisioningState, allocating, disk_created, network_created,
  domain_created, cloud_init_attached, started, ready, VirtualMachine, VmDisk,
}
use node_pilot.Vm.Payload.{
  Payload, empty, domain, remove_domain, new_disk, volume, cloud_init, build_domain_payload,
  new_disk_payload, volume_ref,
}
use node_pilot.Vm.Rows.{
  Rows, Task, save, copy_both, save_provisioning, change_disk, created, with_volume,
}

-- A disk that is seeded from an image has an hour; any other the default time.
abbrev pub disk_timeout : VmDisk → ℕ
disk_timeout disk = elim disk.source_image [ none ↦ rpc_timeout | some _ ↦ 3600 ]

-- The body of the loop over the disks.
unfoldable pub provision_disk : VmDisk → Task (Unit {0})
provision_disk disk = do
  answer ←
      send_operation create_disk
        (new_disk (new_disk_payload (some disk.name) disk.source_image disk)) (disk_timeout disk)
  update (λ r. record r { disks = change_disk disk.uuid (created disk answer) r.disks })

unfoldable pub provision_disks : Task (Unit {0})
unfolding save
provision_disks = do
  disks ← read (λ (r : Rows). r.disks)
  for_each disks provision_disk
  save_provisioning disk_created

unfoldable pub define_domain : Task (Unit {0})
unfolding save
define_domain = do
  rows ← read (λ (r : Rows). r)
  send_operation create_vm (domain (build_domain_payload rows.vm rows.disks rows.nics)) rpc_timeout
  save_provisioning domain_created

unfoldable pub generate_iso : VirtualMachine → Task (Unit {0})
generate_iso vm = do
  send_operation generate_cloud_init (cloud_init vm.cloud_init_config) rpc_timeout
  pure tt

-- `if vm.cloud_init_enabled:`
unfoldable pub attach_cloud_init : VirtualMachine → Task (Unit {0})
unfolding generate_iso
attach_cloud_init vm = when vm.cloud_init_enabled (job_run "Attaching cloud-init" (generate_iso vm))

unfoldable pub start_running : Task (Unit {0})
unfolding save
start_running = do
  send_operation start_vm empty rpc_timeout
  save (λ v. record v { status = running; provisioning_state = started }) copy_both

-- `if vm.autostart:`, and `else: vm.status = STOPPED` on the object.
unfoldable pub start_domain : Bool → Task (Unit {0})
unfolding start_running
start_domain true = job_run "Starting VM" start_running
start_domain false = update (λ r. record r { vm = record (r.vm) { status = stopped } })

-- The steps under the lifecycle lock. The settings of the VM (`vm`) do not change meanwhile.
unfoldable pub provision_steps : Task (Unit {0})
unfolding save
provision_steps = do
  vm ← read (λ (r : Rows). r.vm)
  job_run "Allocating resources" (save_provisioning allocating)
  job_run "Creating disks" provision_disks
  job_run "Configuring network" (save_provisioning network_created)
  job_run "Creating domain" define_domain
  attach_cloud_init vm
  save_provisioning cloud_init_attached
  start_domain vm.autostart
  save (λ v. record v { provisioning_state = ready }) copy_both

-- One clean-up action: a failure is noted, and does not stop the next one.
abbrev pub attempt : {A : Type 0} → String → Task A → Task (List String)
attempt label m = catch (do m; pure []) (λ _. pure (label ∷ []))

unfoldable pub cleanup_disks : List VmDisk → Task (List String)
cleanup_disks [] = pure []
cleanup_disks (d ∷ ds) = do
  problem ← attempt d.name (send_operation delete_disk (volume (volume_ref d)) rpc_timeout)
  others ← cleanup_disks ds
  pure (problem ++ others)

-- Whether the domain may exist already.
abbrev pub has_domain : ProvisioningState → Bool
has_domain domain_created = true
has_domain cloud_init_attached = true
has_domain started = true
has_domain _ = false

unfoldable pub cleanup_domain : Bool → Task (List String)
cleanup_domain true =
    attempt "domain cleanup" (send_operation delete_vm (remove_domain false) rpc_timeout)
cleanup_domain false = pure []

abbrev pub has_problems : List String → Bool
has_problems [] = false
has_problems (_ ∷ _) = true

-- `_cleanup_partial_vm`
unfoldable pub cleanup_partial_vm : Task (Unit {0})
unfolding cleanup_disks cleanup_domain
cleanup_partial_vm = do
  vm ← read (λ (r : Rows). r.vm)
  about_domain ← cleanup_domain (has_domain vm.provisioning_state)
  disks ← read (λ (r : Rows). with_volume r.disks)
  about_disks ← cleanup_disks disks
  when (has_problems (about_domain ++ about_disks)) (emit "VM_CLEANUP_INCOMPLETE")

-- The columns that the handler saves.
abbrev pub failed_copy : VirtualMachine → VirtualMachine → VirtualMachine
failed_copy vm row = record row {
  status = vm.status;
  provisioning_state = vm.provisioning_state;
  last_error = vm.last_error;
}

unfoldable pub record_failure : Error → Task (Unit {0})
unfolding save
record_failure exc =
    save
      (λ vm. record vm {
        status = VmStatus.error;
        provisioning_state = ProvisioningState.error;
        last_error = some exc;
      })
      failed_copy

-- `except LockAcquisitionError`: nothing was touched but the job, whose state the task's own
-- object gives.
unfoldable pub lock_failed : Error → Task (Unit {0})
lock_failed exc = do
  ended ← gets (λ (w : World Payload Rows). is_terminal w.job)
  when (not ended) (transition failed none (some exc))
  raise exc

-- `except Exception`
unfoldable pub steps_failed : Error → Task (Unit {0})
unfolding cleanup_partial_vm record_failure
steps_failed exc = do cleanup_partial_vm; record_failure exc; fail_job exc

unfoldable pub provision_failed : Error → Task (Unit {0})
unfolding lock_failed steps_failed
provision_failed (lock_acquisition k) = lock_failed (lock_acquisition k)
provision_failed exc = steps_failed exc

-- `provision_vm`
unfoldable pub provision_vm : Task (Unit {0})
unfolding provision_steps provision_failed
provision_vm =
    catch
      (do
        with_lock lifecycle provision_steps
        transition success (some "VM created successfully") none
        emit "VM_CREATED")
      provision_failed
