-- ===== src/Vm/Tasks/Lifecycle.antt =====
-- The lifecycle tasks: start, stop, reboot, pause, resume, delete
-- (backend/apps/virtual_machines/tasks.py).
use node_pilot.Common.{String, true, none, some, []}
use node_pilot.Common.Exec.{pure, gets, catch, for_each, ◌>>=◌, ◌>>◌}
use node_pilot.Jobs.Model.{success, JobType, vm_stop, vm_reset}
use node_pilot.Task.Protocol.{
  OperationType, start_vm, stop_vm, shutdown_vm, reboot_vm, reset_vm, pause_vm, resume_vm,
  delete_vm, delete_disk,
}
use node_pilot.Task.World.{World, lifecycle, storage, transition, with_lock, update, read, emit}
use node_pilot.Task.Agent.{send_operation, rpc_timeout}
use node_pilot.Task.Run.{job_run, fail_job}
use node_pilot.Vm.Model.{VmStatus, stopped, running, paused, deleting, VmDisk}
use node_pilot.Vm.Payload.{Payload, empty, remove_domain, volume, volume_ref}
use node_pilot.Vm.Rows.{Rows, Task, save, copy_error, save_status, with_volume}

-- `_simple_lifecycle_task`
unfoldable pub simple_lifecycle_task : OperationType → VmStatus → String → String → Task (Unit {0})
unfolding save
simple_lifecycle_task operation running_status step event =
    catch
      (do
        with_lock lifecycle (
            job_run step
              (do send_operation operation empty rpc_timeout; save_status running_status))
        transition success (some step) none
        emit event)
      (λ exc. do save (λ vm. record vm { last_error = some exc }) copy_error; fail_job exc)

unfoldable pub start_vm_task : Task (Unit {0})
unfolding simple_lifecycle_task
start_vm_task = simple_lifecycle_task start_vm running "Starting VM" "VM_STARTED"

-- `stop_vm_task` serves VM_STOP and VM_SHUTDOWN, by the type of the job.
unfoldable pub stop_by_type : JobType → Task (Unit {0})
unfolding simple_lifecycle_task
stop_by_type vm_stop = simple_lifecycle_task stop_vm stopped "Stopping VM" "VM_STOPPED"
stop_by_type _ = simple_lifecycle_task shutdown_vm stopped "Shutting down VM" "VM_STOPPED"

unfoldable pub stop_vm_task : Task (Unit {0})
unfolding stop_by_type
stop_vm_task = do type ← gets (λ (w : World Payload Rows). w.job.type); stop_by_type type

-- `reboot_vm_task` serves VM_RESET and VM_REBOOT.
unfoldable pub reboot_by_type : JobType → Task (Unit {0})
unfolding simple_lifecycle_task
reboot_by_type vm_reset = simple_lifecycle_task reset_vm running "Resetting VM" "VM_REBOOTED"
reboot_by_type _ = simple_lifecycle_task reboot_vm running "Rebooting VM" "VM_REBOOTED"

unfoldable pub reboot_vm_task : Task (Unit {0})
unfolding reboot_by_type
reboot_vm_task = do type ← gets (λ (w : World Payload Rows). w.job.type); reboot_by_type type

unfoldable pub pause_vm_task : Task (Unit {0})
unfolding simple_lifecycle_task
pause_vm_task = simple_lifecycle_task pause_vm paused "Pausing VM" "VM_PAUSED"

unfoldable pub resume_vm_task : Task (Unit {0})
unfolding simple_lifecycle_task
resume_vm_task = simple_lifecycle_task resume_vm running "Resuming VM" "VM_RESUMED"

-- What `vm.delete()` takes with it.
abbrev pub deleted_rows : Rows → Rows
deleted_rows r = record r { stored = none; disks = []; nics = [] }

unfoldable pub delete_volume : VmDisk → Task (Unit {0})
delete_volume disk = do send_operation delete_disk (volume (volume_ref disk)) rpc_timeout; pure tt

-- The body of the step "Deleting VM": the domain, then each volume.
unfoldable pub delete_everything : Task (Unit {0})
unfolding save
delete_everything = do
  save_status deleting
  send_operation delete_vm (remove_domain true) rpc_timeout
  disks ← read (λ (r : Rows). with_volume r.disks)
  for_each disks delete_volume

-- `delete_vm_task`
unfoldable pub delete_vm_task : Task (Unit {0})
unfolding delete_everything
delete_vm_task =
    catch
      (do
        with_lock lifecycle (with_lock storage (job_run "Deleting VM" delete_everything))
        update deleted_rows
        transition success (some "VM deleted") none
        emit "VM_DELETED")
      (λ exc. do
        save (λ vm. record vm { status = VmStatus.error; last_error = some exc })
            (λ vm row. record row { status = vm.status; last_error = vm.last_error })
        fail_job exc)
