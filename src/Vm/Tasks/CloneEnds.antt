-- ===== src/Vm/Tasks/CloneEnds.antt =====
-- How the cloning of a VM (backend/apps/virtual_machines/tasks.py) ends its job.
use node_pilot.Common.{◌≡◌, Option, refl, String, Bool, some, none, arith}
use node_pilot.Common.Error.{Error, attribute_error, integrity_error}
use node_pilot.Common.Exec.{Result, err, raise_if, gets}
use node_pilot.Task.World.{World}
use node_pilot.Task.Run.{celery_run}
use node_pilot.Task.Keeps.{Ends, Runs, Runs-by, Runs-catch, Runs-weaken, Runs-gets}
use node_pilot.Task.Ends.{
  IsOpen, IsBusy, IsStopped, IsHalted, IsSucceeded, IsFailed, quiet-Runs, then-Runs, job_run-Runs,
  later_step-Runs, with_lock-Runs, finish-Runs, body_rules, celery_run-Runs, fail_job-Stops,
}
use node_pilot.Vm.Model.{VirtualMachine, VmDisk, VmNic}
use node_pilot.Vm.Payload.{Payload}
use node_pilot.Vm.Tasks.Clone.{
  CloneRows, CloneTask, Draws, save_resource_id, prepare_clone, with_clone, clone_one_disk,
  clone_disks, clone_one_nic, clone_nics, send_domain, define_clone, clone_steps, clone_vm_task,
}

abbrev Keeps : {A : Type 0} → CloneTask A → Type 0
Keeps d = Runs IsBusy IsBusy IsHalted d

raise_if-Keeps : (c : Bool) → Keeps (raise_if c integrity_error)
raise_if-Keeps c =
    quiet-Runs (raise_if c integrity_error)
      (record { same_row = λ w. refl; never_cancels = λ w. ground arith })

save_resource_id-Keeps : (draws : Draws) (id : String) → Keeps (save_resource_id draws id)
unfolding save_resource_id
save_resource_id-Keeps draws id =
    Runs-by (save_resource_id draws id) (λ w h a p. h) (λ w h e p. absurd cc)

-- What uses the clone, from its use at every clone.
module _ (draws : Draws) {P Q : World Payload CloneRows → Type 0}
    {E : Error → World Payload CloneRows → Type 0} where
  with_clone-Ends :
      (body : VirtualMachine → CloneTask (Unit {0})) (w : World Payload CloneRows)
      (o : Option VirtualMachine)
      → w.res.clone ≡ o
      → ((w : World Payload CloneRows) → P w → E attribute_error w)
      → ((clone : VirtualMachine) → Runs (λ w. P w × (w.res.clone ≡ some clone)) Q E (body clone))
      → P w
      → Ends {A = Unit {0}} Q E (elim o as (λ _. Result (Unit {0}) × World Payload CloneRows) [
        | none ↦ (err attribute_error, w)
        | some clone ↦ body clone w
      ])
  with_clone-Ends body w none e fails k h = fails w h
  with_clone-Ends body w (some clone) e fails k h = (k clone).at w (h, e)

  pub with_clone-Runs :
      (body : VirtualMachine → CloneTask (Unit {0}))
      → ((w : World Payload CloneRows) → P w → E attribute_error w)
      → ((clone : VirtualMachine) → Runs (λ w. P w × (w.res.clone ≡ some clone)) Q E (body clone))
      → Runs P Q E (with_clone draws body)
  unfolding with_clone
  with_clone-Runs body fails k = record {
    at = λ w h. with_clone-Ends body w w.res.clone refl fails k h;
  }

with_clone-Keeps :
    (draws : Draws) (body : VirtualMachine → CloneTask (Unit {0}))
    → ((clone : VirtualMachine) → Keeps (body clone))
    → Keeps (with_clone draws body)
with_clone-Keeps draws body k =
    with_clone-Runs draws body (λ w h. (ground (arith, h), λ e. absurd cc))
      λ clone. Runs-weaken (body clone) (λ w h. h.0) (λ w h. h) (λ e w h. h) (k clone)

gets-Keeps : {A : Type 0} (f : World Payload CloneRows → A) → Keeps (gets f)
gets-Keeps f = Runs-gets f

module _ (draws : Draws) where
  prepare_clone-Keeps : (new_name : String) → Keeps (prepare_clone draws new_name)
  unfolding prepare_clone
  prepare_clone-Keeps new_name = search (body_rules, gets-Keeps, raise_if-Keeps)

  clone_one_disk-Keeps :
      (clone : VirtualMachine) (linked : Bool) (disk : VmDisk)
      → Keeps (clone_one_disk draws clone linked disk)
  unfolding clone_one_disk
  clone_one_disk-Keeps clone linked disk = search body_rules

  clone_disks-Keeps : (linked : Bool) → Keeps (clone_disks draws linked)
  unfolding clone_disks
  clone_disks-Keeps linked = search (body_rules, with_clone-Keeps, clone_one_disk-Keeps)

  clone_one_nic-Keeps : (nic : VmNic) → Keeps (clone_one_nic draws nic)
  unfolding clone_one_nic
  clone_one_nic-Keeps nic = search (body_rules, raise_if-Keeps)

  clone_nics-Keeps : Keeps (clone_nics draws)
  unfolding clone_nics
  clone_nics-Keeps = search (body_rules, clone_one_nic-Keeps)

  send_domain-Keeps : (clone : VirtualMachine) → Keeps (send_domain draws clone)
  unfolding send_domain
  send_domain-Keeps clone = search body_rules

  define_clone-Keeps : Keeps (define_clone draws)
  unfolding define_clone
  define_clone-Keeps = search (body_rules, with_clone-Keeps, send_domain-Keeps)

  clone_steps-Runs :
      (new_name : String) (linked : Bool)
      → Runs IsOpen IsBusy IsStopped (clone_steps draws new_name linked)
  unfolding clone_steps
  clone_steps-Runs new_name linked =
      then-Runs _ _ (job_run-Runs _ _ (prepare_clone-Keeps new_name)) (
        then-Runs _ _ (later_step-Runs _ _ (clone_disks-Keeps linked)) (
          then-Runs _ _ (later_step-Runs _ _ clone_nics-Keeps)
            (later_step-Runs _ _ define_clone-Keeps)))

  clone_vm_task-Runs :
      (new_name : String) (linked : Bool)
      → Runs IsOpen IsSucceeded IsStopped (clone_vm_task draws new_name linked)
  unfolding clone_vm_task
  clone_vm_task-Runs new_name linked =
      Runs-catch _ _
        (finish-Runs _ _ _
          (with_lock-Runs _ _ (with_lock-Runs _ _ (clone_steps-Runs new_name linked))))
        λ e. fail_job-Stops (Unit {0}) e

-- However the agent answers, whichever locks stay taken and whenever a user cancels: the cloning of
-- a VM that begins with a waiting or working job ends with the job SUCCESS if it returns and FAILED
-- if it raises.
pub clone_task_ends :
    (draws : Draws) (new_name task_id : String) (linked : Bool)
    → Runs IsOpen IsSucceeded IsFailed (celery_run task_id (clone_vm_task draws new_name linked))
clone_task_ends draws new_name id linked =
    celery_run-Runs id (clone_vm_task draws new_name linked)
      (clone_vm_task-Runs draws new_name linked)
