-- ===== src/Vm/Tasks/Results.antt =====
-- What a Celery run of a VM task does to its job.
use node_pilot.Common.{String}
use node_pilot.Task.Run.{celery_run}
use node_pilot.Task.Keeps.{Runs}
use node_pilot.Task.Ends.{IsOpen, IsSucceeded, IsStopped, IsFailed, celery_run-Runs}
use node_pilot.Vm.Rows.{Task}
use node_pilot.Vm.Tasks.Provision.{provision_vm}
use node_pilot.Vm.Tasks.Lifecycle.{
  start_vm_task, stop_vm_task, reboot_vm_task, pause_vm_task, resume_vm_task, delete_vm_task,
}
use node_pilot.Vm.Tasks.Ends.{
  provision_vm-Runs, start_vm_task-Runs, stop_vm_task-Runs, reboot_vm_task-Runs, pause_vm_task-Runs,
  resume_vm_task-Runs, delete_vm_task-Runs,
}

pub data VmTask : Type 0 where
  provisions starts stops reboots pauses resumes deletes : VmTask

-- The body of each task.
abbrev pub body_of : VmTask → Task (Unit {0})
body_of provisions = provision_vm
body_of starts = start_vm_task
body_of stops = stop_vm_task
body_of reboots = reboot_vm_task
body_of pauses = pause_vm_task
body_of resumes = resume_vm_task
body_of deletes = delete_vm_task

body_of-Runs : (which : VmTask) → Runs IsOpen IsSucceeded IsStopped (body_of which)
body_of-Runs provisions = provision_vm-Runs
body_of-Runs starts = start_vm_task-Runs
body_of-Runs stops = stop_vm_task-Runs
body_of-Runs reboots = reboot_vm_task-Runs
body_of-Runs pauses = pause_vm_task-Runs
body_of-Runs resumes = resume_vm_task-Runs
body_of-Runs deletes = delete_vm_task-Runs

-- However the agent answers, whichever locks stay taken and whenever a user cancels: a task that
-- provisions, starts, stops, reboots, pauses, resumes or deletes a VM, and that begins with a
-- waiting or working job, ends with the job SUCCESS if it returns and FAILED if it raises.
pub vm_task_ends :
    (which : VmTask) (task_id : String)
    → Runs IsOpen IsSucceeded IsFailed (celery_run task_id (body_of which))
vm_task_ends which id = celery_run-Runs id (body_of which) (body_of-Runs which)
