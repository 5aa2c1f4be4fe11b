-- ===== src/Vm/Tasks/Ends.antt =====
-- How the VM tasks end their jobs.
use node_pilot.Common.{refl, String, Bool, true, false, some, List, [], ◌∷◌, ◌++◌, arith}
use node_pilot.Common.Error.{Error, lock_acquisition}
use node_pilot.Common.Exec.{pure, when, ◌>>=◌, ◌>>◌}
use node_pilot.Jobs.Model.{JobType, vm_stop, vm_reset}
use node_pilot.Task.Protocol.{OperationType, delete_disk}
use node_pilot.Task.World.{transition, emit, update, read}
use node_pilot.Task.Agent.{send_operation, rpc_timeout}
use node_pilot.Task.Run.{fail_job}
use node_pilot.Task.Keeps.{
  Runs, Runs-by, Runs-bind, Runs-catch, Runs-weaken, Runs-pure, Runs-gets, Runs-when,
}
use node_pilot.Task.Ends.{
  IsOpen, IsBusy, IsStopped, IsHalted, IsSucceeded, IsQuiet, quiet-Runs, then-Runs, read-Runs,
  handler-Runs, job_run-Runs, later_step-Runs, with_lock-Runs, succeed-Runs, emit-Runs,
  quiet_between-Runs, finish-Runs, body_rules, send_after-Runs,
}
use node_pilot.Vm.Model.{
  VmStatus, ProvisioningState, allocating, network_created, ready, cloud_init_attached,
  VirtualMachine, VmDisk,
}
use node_pilot.Vm.Payload.{Payload, volume, volume_ref}
use node_pilot.Vm.Rows.{
  Rows, Task, with_volume, save, copy_error, save_provisioning, copy_provisioning, copy_both,
}
use node_pilot.Vm.Tasks.Provision.{
  provision_disk, provision_disks, define_domain, generate_iso, attach_cloud_init, start_running,
  start_domain, provision_steps, attempt, has_domain, failed_copy, cleanup_disks, cleanup_domain,
  has_problems, cleanup_partial_vm, record_failure, lock_failed, steps_failed, provision_failed,
  provision_vm,
}
use node_pilot.Vm.Tasks.Lifecycle.{
  simple_lifecycle_task, start_vm_task, stop_by_type, stop_vm_task, reboot_by_type, reboot_vm_task,
  pause_vm_task, resume_vm_task, delete_volume, delete_everything, delete_vm_task, deleted_rows,
}

pub save-IsQuiet :
    (change : VirtualMachine → VirtualMachine)
    (copy : VirtualMachine → VirtualMachine → VirtualMachine)
    → IsQuiet (save change copy)
unfolding save
save-IsQuiet change copy = record {
  same_row = λ w. ground arith;
  never_cancels = λ w. ground arith;
}

pub update-IsQuiet : (f : Rows → Rows) → IsQuiet (update {P = Payload} f)
update-IsQuiet f = record { same_row = λ w. refl; never_cancels = λ w. ground arith }

-- A handler that saves the VM and then fails the job.
failing-Runs :
    (e : Error) (change : VirtualMachine → VirtualMachine)
    (copy : VirtualMachine → VirtualMachine → VirtualMachine)
    → Runs (IsStopped e) IsSucceeded IsStopped (save change copy >> fail_job {A = Unit {0}} e)
failing-Runs e change copy = handler-Runs (save change copy) e (save-IsQuiet change copy)

pub simple_lifecycle_task-Runs :
    (op : OperationType) (s : VmStatus) (step event : String)
    → Runs IsOpen IsSucceeded IsStopped (simple_lifecycle_task op s step event)
unfolding simple_lifecycle_task
simple_lifecycle_task-Runs op s step event =
    Runs-catch _ _
      (finish-Runs _ _ _
        (with_lock-Runs _ _ (job_run-Runs _ _ (search (body_rules, save-IsQuiet)))))
      λ e. failing-Runs e (λ vm. record vm { last_error = some e }) copy_error

pub stop_by_type-Runs : (t : JobType) → Runs IsOpen IsSucceeded IsStopped (stop_by_type t)
unfolding stop_by_type
stop_by_type-Runs vm_stop = simple_lifecycle_task-Runs _ _ _ _
stop_by_type-Runs _ = simple_lifecycle_task-Runs _ _ _ _

pub reboot_by_type-Runs : (t : JobType) → Runs IsOpen IsSucceeded IsStopped (reboot_by_type t)
unfolding reboot_by_type
reboot_by_type-Runs vm_reset = simple_lifecycle_task-Runs _ _ _ _
reboot_by_type-Runs _ = simple_lifecycle_task-Runs _ _ _ _

delete_volume-Runs : (d : VmDisk) → Runs IsBusy IsBusy IsHalted (delete_volume d)
unfolding delete_volume
delete_volume-Runs d = search body_rules

delete_everything-Runs : Runs IsBusy IsBusy IsHalted delete_everything
unfolding delete_everything
delete_everything-Runs = search (body_rules, save-IsQuiet, delete_volume-Runs)

pub delete_vm_task-Runs : Runs IsOpen IsSucceeded IsStopped delete_vm_task
unfolding delete_vm_task
delete_vm_task-Runs =
    Runs-catch _ _
      (Runs-bind _ _
        (with_lock-Runs _ _ (with_lock-Runs _ _ (job_run-Runs _ _ delete_everything-Runs)))
        λ _.
          Runs-bind (update deleted_rows) _
            (quiet_between-Runs (update deleted_rows) (update-IsQuiet deleted_rows))
            λ _. Runs-bind _ _ (succeed-Runs (some "VM deleted")) λ _. emit-Runs "VM_DELETED")
      λ e.
        failing-Runs e (λ vm. record vm { status = VmStatus.error; last_error = some e })
          (λ vm row. record row { status = vm.status; last_error = vm.last_error })

provision_disk-Runs : (d : VmDisk) → Runs IsBusy IsBusy IsHalted (provision_disk d)
unfolding provision_disk
provision_disk-Runs d = search body_rules

provision_disks-Runs : Runs IsBusy IsBusy IsHalted provision_disks
unfolding provision_disks
provision_disks-Runs = search (body_rules, save-IsQuiet, provision_disk-Runs)

define_domain-Runs : Runs IsBusy IsBusy IsHalted define_domain
unfolding define_domain
define_domain-Runs = search (body_rules, save-IsQuiet)

generate_iso-Runs : (vm : VirtualMachine) → Runs IsBusy IsBusy IsHalted (generate_iso vm)
unfolding generate_iso
generate_iso-Runs vm = search body_rules

attach_cloud_init-Runs : (vm : VirtualMachine) → Runs IsBusy IsBusy IsStopped (attach_cloud_init vm)
unfolding attach_cloud_init
attach_cloud_init-Runs vm = Runs-when _ _ (later_step-Runs _ _ (generate_iso-Runs vm))

start_running-Runs : Runs IsBusy IsBusy IsHalted start_running
unfolding start_running
start_running-Runs = search (body_rules, save-IsQuiet)

start_domain-Runs : (autostart : Bool) → Runs IsBusy IsBusy IsStopped (start_domain autostart)
unfolding start_domain
start_domain-Runs true = later_step-Runs _ _ start_running-Runs
start_domain-Runs false = quiet_between-Runs _ (update-IsQuiet _)

saved-Runs :
    (change : VirtualMachine → VirtualMachine)
    (copy : VirtualMachine → VirtualMachine → VirtualMachine)
    → Runs IsBusy IsBusy IsStopped (save change copy)
saved-Runs change copy = quiet_between-Runs (save change copy) (save-IsQuiet change copy)

save_step-Runs : (s : ProvisioningState) → Runs IsBusy IsBusy IsHalted (save_provisioning s)
save_step-Runs s =
    quiet-Runs _ (save-IsQuiet (λ vm. record vm { provisioning_state = s }) copy_provisioning)

provision_steps-Runs : Runs IsOpen IsBusy IsStopped provision_steps
unfolding provision_steps
provision_steps-Runs = Runs-bind (read (λ (r : Rows). r.vm)) _ (read-Runs _) λ vm.
    then-Runs _ _ (job_run-Runs _ _ (save_step-Runs allocating)) (
      then-Runs _ _ (later_step-Runs _ _ provision_disks-Runs) (
        then-Runs _ _ (later_step-Runs _ _ (save_step-Runs network_created)) (
          then-Runs _ _ (later_step-Runs _ _ define_domain-Runs) (
            then-Runs _ _ (attach_cloud_init-Runs vm) (
              then-Runs _ _
                (saved-Runs (λ v. record v { provisioning_state = cloud_init_attached })
                  copy_provisioning)
                (then-Runs _ _ (start_domain-Runs vm.autostart)
                  (saved-Runs (λ v. record v { provisioning_state = ready }) copy_both)))))))

attempt-Runs :
    {A : Type 0} (e : Error) (label : String) (m : Task A)
    → Runs (IsStopped e) (IsStopped e) IsStopped m
    → Runs (IsStopped e) (IsStopped e) IsStopped (attempt label m)
attempt-Runs {A} e label m k =
    Runs-catch (m >>= λ _. pure []) (λ _. pure (label ∷ []))
      (Runs-bind m (λ _. pure []) k (λ _. Runs-pure []))
      (λ x.
        Runs-weaken (pure (label ∷ [])) (λ w h. h) (λ w h. h) (λ _ w h. h)
          (Runs-pure {E = IsStopped} (label ∷ [])))

cleanup_disks-Runs :
    (e : Error) (ds : List VmDisk) → Runs (IsStopped e) (IsStopped e) IsStopped (cleanup_disks ds)
unfolding cleanup_disks
cleanup_disks-Runs e [] = Runs-pure []
cleanup_disks-Runs e (d ∷ ds) =
    Runs-bind (attempt d.name (send_operation delete_disk (volume (volume_ref d)) rpc_timeout)) _
      (attempt-Runs e d.name _ (send_after-Runs e _ _ _))
      λ problem.
        Runs-bind (cleanup_disks ds) (λ others. pure (problem ++ others)) (cleanup_disks-Runs e ds)
          (λ others. Runs-pure (problem ++ others))

cleanup_domain-Runs :
    (e : Error) (c : Bool) → Runs (IsStopped e) (IsStopped e) IsStopped (cleanup_domain c)
unfolding cleanup_domain
cleanup_domain-Runs e true = attempt-Runs e "domain cleanup" _ (send_after-Runs e _ _ _)
cleanup_domain-Runs e false = Runs-pure []

emit_after-Runs :
    (e : Error) (event : String)
    → Runs (IsStopped e) (IsStopped e) IsStopped (emit {P = Payload} {R = Rows} event)
emit_after-Runs e event = record { at = λ w h. h }

cleanup_partial_vm-Runs :
    (e : Error) → Runs (IsStopped e) (IsStopped e) IsStopped cleanup_partial_vm
unfolding cleanup_partial_vm
cleanup_partial_vm-Runs e = Runs-bind (read (λ (r : Rows). r.vm)) _ (read-Runs _) λ vm.
    Runs-bind (cleanup_domain (has_domain vm.provisioning_state)) _ (cleanup_domain-Runs e _) λ a.
      Runs-bind (read (λ (r : Rows). with_volume r.disks)) _ (read-Runs _) λ ds.
        Runs-bind (cleanup_disks ds)
          (λ b. when (has_problems (a ++ b)) (emit "VM_CLEANUP_INCOMPLETE"))
          (cleanup_disks-Runs e ds)
          λ b.
            Runs-when _ (emit "VM_CLEANUP_INCOMPLETE") (emit_after-Runs e "VM_CLEANUP_INCOMPLETE")

lock_failed-Runs : (e : Error) → Runs (IsStopped e) IsSucceeded IsStopped (lock_failed e)
unfolding lock_failed transition
lock_failed-Runs e = Runs-by (lock_failed e) (λ w h a p. ground arith) (λ w h x p. ground arith)

steps_failed-Runs : (e : Error) → Runs (IsStopped e) IsSucceeded IsStopped (steps_failed e)
unfolding steps_failed record_failure
steps_failed-Runs e = Runs-bind cleanup_partial_vm _ (cleanup_partial_vm-Runs e) λ _.
    failing-Runs e
      (λ vm. record vm {
        status = VmStatus.error;
        provisioning_state = ProvisioningState.error;
        last_error = some e;
      })
      failed_copy

provision_failed-Runs : (e : Error) → Runs (IsStopped e) IsSucceeded IsStopped (provision_failed e)
unfolding provision_failed
provision_failed-Runs (lock_acquisition k) = lock_failed-Runs _
provision_failed-Runs _ = steps_failed-Runs _

pub provision_vm-Runs : Runs IsOpen IsSucceeded IsStopped provision_vm
unfolding provision_vm
provision_vm-Runs =
    Runs-catch _ provision_failed (finish-Runs _ _ _ (with_lock-Runs _ _ provision_steps-Runs))
      provision_failed-Runs

pub start_vm_task-Runs : Runs IsOpen IsSucceeded IsStopped start_vm_task
unfolding start_vm_task
start_vm_task-Runs = simple_lifecycle_task-Runs _ _ _ _

pub pause_vm_task-Runs : Runs IsOpen IsSucceeded IsStopped pause_vm_task
unfolding pause_vm_task
pause_vm_task-Runs = simple_lifecycle_task-Runs _ _ _ _

pub resume_vm_task-Runs : Runs IsOpen IsSucceeded IsStopped resume_vm_task
unfolding resume_vm_task
resume_vm_task-Runs = simple_lifecycle_task-Runs _ _ _ _

pub stop_vm_task-Runs : Runs IsOpen IsSucceeded IsStopped stop_vm_task
unfolding stop_vm_task
stop_vm_task-Runs = Runs-bind _ stop_by_type (Runs-gets _) stop_by_type-Runs

pub reboot_vm_task-Runs : Runs IsOpen IsSucceeded IsStopped reboot_vm_task
unfolding reboot_vm_task
reboot_vm_task-Runs = Runs-bind _ reboot_by_type (Runs-gets _) reboot_by_type-Runs
