-- ===== src/Vm/Tasks/Attached.antt =====
-- How the tasks on disks and NICs end their jobs.
use node_pilot.Common.{ℕ, String}
use node_pilot.Task.World.{World}
use node_pilot.Task.Run.{fail_job, celery_run}
use node_pilot.Common.Exec.{Exec}
use node_pilot.Task.Keeps.{Runs, Runs-catch}
use node_pilot.Task.Ends.{
  IsOpen, IsBusy, IsHalted, IsSucceeded, IsStopped, IsFailed, then-Runs, with_lock-Runs,
  job_run-Runs, succeed-Runs, fail_job-Stops, celery_run-Runs, body_rules,
}
use node_pilot.Task.Saved.{saved_rules}
use node_pilot.Vm.Model.{VirtualMachine, VmDisk}
use node_pilot.Vm.Payload.{Payload}
use node_pilot.Vm.Tasks.Devices.{
  disk_or_nic_task, DiskTask, run_attach_disk, attach_disk_task, delete_volume_of, run_detach_disk,
  detach_disk_task, run_resize_disk, resize_disk_task, run_attach_nic, run_detach_nic,
}

-- Any operation that keeps its job at work, run as these tasks run theirs.
pub disk_or_nic_task-Runs :
    {R : Type 0} (step : String) (run_op : Exec (World Payload R) (Unit {0}))
    → Runs IsBusy IsBusy IsHalted run_op
    → Runs IsOpen IsSucceeded IsStopped (disk_or_nic_task step run_op)
unfolding disk_or_nic_task
disk_or_nic_task-Runs step run_op k =
    Runs-catch _ fail_job (then-Runs _ _ (with_lock-Runs _ _ (job_run-Runs _ _ k)) (succeed-Runs _))
      (fail_job-Stops (Unit {0}))

run_attach_disk-Runs : (vm : VirtualMachine) → Runs IsBusy IsBusy IsHalted (run_attach_disk vm)
unfolding run_attach_disk
run_attach_disk-Runs vm = search (body_rules, saved_rules) depth 9

delete_volume_of-Runs : (disk : VmDisk) → Runs IsBusy IsBusy IsHalted (delete_volume_of disk)
unfolding delete_volume_of
delete_volume_of-Runs disk = search body_rules

run_detach_disk-Runs : (vm : VirtualMachine) → Runs IsBusy IsBusy IsHalted (run_detach_disk vm)
unfolding run_detach_disk
run_detach_disk-Runs vm = search (body_rules, saved_rules, delete_volume_of-Runs)

run_resize_disk-Runs : (size : ℕ) → Runs IsBusy IsBusy IsHalted (run_resize_disk size)
unfolding run_resize_disk
run_resize_disk-Runs size = search (body_rules, saved_rules)

run_attach_nic-Runs : (vm : VirtualMachine) → Runs IsBusy IsBusy IsHalted (run_attach_nic vm)
unfolding run_attach_nic
run_attach_nic-Runs vm = search body_rules

run_detach_nic-Runs : (vm : VirtualMachine) → Runs IsBusy IsBusy IsHalted (run_detach_nic vm)
unfolding run_detach_nic
run_detach_nic-Runs vm = search (body_rules, saved_rules)

pub data DiskOperation : Type 0 where
  attaches detaches : DiskOperation
  resizes : ℕ → DiskOperation

-- The task of each operation on a disk, of a VM and by the text of the disk's name or UUID.
abbrev pub disk_task_of : VirtualMachine → String → DiskOperation → DiskTask
disk_task_of vm label attaches = attach_disk_task vm label
disk_task_of vm label detaches = detach_disk_task vm label
disk_task_of vm label (resizes size) = resize_disk_task size label

-- However the agent answers, whether or not the storage lock stays taken and whenever a user
-- cancels, a task that attaches, detaches or resizes a disk and that begins with a waiting or
-- working job ends with the job SUCCESS if it returns and FAILED if it raises.
pub disk_task_ends :
    (vm : VirtualMachine) (label : String) (operation : DiskOperation) (task_id : String)
    → Runs IsOpen IsSucceeded IsFailed (celery_run task_id (disk_task_of vm label operation))
unfolding attach_disk_task detach_disk_task resize_disk_task
disk_task_ends vm label attaches id =
    celery_run-Runs id (disk_task_of vm label attaches)
      (disk_or_nic_task-Runs _ _ (run_attach_disk-Runs vm))
disk_task_ends vm label detaches id =
    celery_run-Runs id (disk_task_of vm label detaches)
      (disk_or_nic_task-Runs _ _ (run_detach_disk-Runs vm))
disk_task_ends vm label (resizes size) id =
    celery_run-Runs id (disk_task_of vm label (resizes size))
      (disk_or_nic_task-Runs _ _ (run_resize_disk-Runs size))
