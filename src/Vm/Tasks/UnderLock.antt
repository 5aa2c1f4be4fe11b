-- ===== src/Vm/Tasks/UnderLock.antt =====
-- Under which lock the disk tasks send their commands.
use node_pilot.Common.{String, ℕ}
use node_pilot.Common.Exec.{Exec}
use node_pilot.Task.World.{World, storage}
use node_pilot.Task.Run.{celery_run, fail_job}
use node_pilot.Task.Keeps.{Runs, Runs-catch}
use node_pilot.Task.Locked.{
  IsLocked, IsInside, silent-Runs, take-Runs, job_run-Inside, celery-Runs, then-Locked,
  inside_rules, fail_job-IsSilent, transition-IsSilent,
}
use node_pilot.Task.Saved.{save_object-IsSilent}
use node_pilot.Vm.Model.{VirtualMachine, VmDisk}
use node_pilot.Vm.Payload.{Payload}
use node_pilot.Vm.Tasks.Devices.{
  disk_or_nic_task, run_attach_disk, attach_disk_task, delete_volume_of, run_detach_disk,
  detach_disk_task, run_resize_disk, resize_disk_task,
}
use node_pilot.Vm.Tasks.Attached.{DiskOperation, attaches, detaches, resizes, disk_task_of}

-- `disk_or_nic_task` around any operation.
device-Locked :
    {R : Type 0} (step : String) (run_op : Exec (World Payload R) (Unit {0}))
    → Runs (IsInside storage) (IsInside storage) (λ _. IsInside storage) run_op
    → Runs
        (IsLocked storage)
        (IsLocked storage)
        (λ _. IsLocked storage)
        (disk_or_nic_task step run_op)
unfolding disk_or_nic_task
device-Locked step run_op k =
    Runs-catch _ fail_job
      (then-Locked storage _ _ (take-Runs storage _ (job_run-Inside storage _ _ k))
        (silent-Runs storage _ (transition-IsSilent _ _ _)))
      (λ e. silent-Runs storage (fail_job e) (fail_job-IsSilent (Unit {0}) e))

attach_disk-Inside :
    (vm : VirtualMachine)
    → Runs (IsInside storage) (IsInside storage) (λ _. IsInside storage) (run_attach_disk vm)
unfolding run_attach_disk
attach_disk-Inside vm = search (inside_rules, save_object-IsSilent) depth 9

delete_volume_of-Inside :
    (disk : VmDisk)
    → Runs (IsInside storage) (IsInside storage) (λ _. IsInside storage) (delete_volume_of disk)
unfolding delete_volume_of
delete_volume_of-Inside disk = search inside_rules

detach_disk-Inside :
    (vm : VirtualMachine)
    → Runs (IsInside storage) (IsInside storage) (λ _. IsInside storage) (run_detach_disk vm)
unfolding run_detach_disk
detach_disk-Inside vm = search (inside_rules, delete_volume_of-Inside) depth 9

resize_disk-Inside :
    (size : ℕ)
    → Runs (IsInside storage) (IsInside storage) (λ _. IsInside storage) (run_resize_disk size)
unfolding run_resize_disk
resize_disk-Inside size = search (inside_rules, save_object-IsSilent) depth 9

-- A task that attaches, detaches or resizes a disk sends every command to the agent while it
-- holds the VM's storage lock, also on the paths that fail; the lock's lifetime of 300 seconds is
-- left aside.
pub disk_commands-IsLocked :
    (vm : VirtualMachine) (label : String) (operation : DiskOperation) (task_id : String)
    → Runs
        (IsLocked storage)
        (IsLocked storage)
        (λ _. IsLocked storage)
        (celery_run task_id (disk_task_of vm label operation))
unfolding attach_disk_task detach_disk_task resize_disk_task
disk_commands-IsLocked vm label attaches id =
    celery-Runs storage id (disk_task_of vm label attaches)
      (device-Locked _ _ (attach_disk-Inside vm))
disk_commands-IsLocked vm label detaches id =
    celery-Runs storage id (disk_task_of vm label detaches)
      (device-Locked _ _ (detach_disk-Inside vm))
disk_commands-IsLocked vm label (resizes size) id =
    celery-Runs storage id (disk_task_of vm label (resizes size))
      (device-Locked _ _ (resize_disk-Inside size))
