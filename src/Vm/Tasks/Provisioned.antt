-- ===== src/Vm/Tasks/Provisioned.antt =====
-- What a run of `provision_vm` leaves of the VM's row.
use node_pilot.Common.{◌≡◌, ◌≢◌, refl, ◌⊎◌, inr, Bool, true, false, Option, none, some, arith}
use node_pilot.Common.Error.{Error, lock_acquisition}
use node_pilot.Common.Exec.{Result, ok, err}
use node_pilot.Jobs.Model.{success}
use node_pilot.Task.World.{World, lifecycle, transition, with_lock, read, emit}
use node_pilot.Task.Protocol.{start_vm}
use node_pilot.Task.Agent.{send_operation, rpc_timeout}
use node_pilot.Task.Run.{job_run, fail_job}
use node_pilot.Task.Keeps.{Ends, Runs, Runs-by, Runs-bind, Runs-catch, Runs-weaken}
use node_pilot.Task.Rows.{
  OnRows, frame-Runs, transition-IsFrame, fail_job-IsFrame, fail_job_raises, raising-Runs,
  job_run-OnRows, lock-OnRows,
}
use node_pilot.Vm.Model.{stopped, running, cloud_init_attached, started, ready, VirtualMachine}
use node_pilot.Vm.Payload.{Payload, empty}
use node_pilot.Vm.Rows.{Rows, Task, save, save_provisioning, copy_both}
use node_pilot.Vm.Tasks.Provision.{
  provision_vm, provision_steps, provision_failed, lock_failed, steps_failed, attach_cloud_init,
  start_domain, start_running, record_failure, cleanup_partial_vm,
}

abbrev Anything : Rows → Type 0
Anything r = Unit {0}

-- The row is ready, and its status is that of a VM that was started or was left stopped.
abbrev pub Settles : Option VirtualMachine → Type 0
Settles none = ⊥
Settles (some row) =
    (row.provisioning_state ≡ ready) × ((row.status ≡ running) ⊎ (row.status ≡ stopped))

abbrev SettledObject : Rows → Type 0
SettledObject r = (r.vm.status ≡ running) ⊎ (r.vm.status ≡ stopped)

abbrev SettledRow : Rows → Type 0
SettledRow r = Settles r.stored

any-Runs :
    {A : Type 0} (m : Task A) → Runs (OnRows Anything) (OnRows Anything) (λ _. OnRows Anything) m
any-Runs m = Runs-by m (λ w h a p. tt) (λ w h e p. tt)

save_running-Settled :
    Runs
      (OnRows Anything)
      (OnRows SettledObject)
      (λ _. OnRows Anything)
      (save (λ v. record v { status = running; provisioning_state = started }) copy_both)
unfolding save
save_running-Settled = Runs-by (save _ copy_both) (λ w h a p. ground (arith, h, p)) (λ w h e p. tt)

start_running-Settled :
    Runs (OnRows Anything) (OnRows SettledObject) (λ _. OnRows Anything) start_running
unfolding start_running
start_running-Settled =
    Runs-bind (send_operation start_vm empty rpc_timeout) _ (any-Runs _) λ _. save_running-Settled

start_domain-Settled :
    (b : Bool)
    → Runs (OnRows Anything) (OnRows SettledObject) (λ _. OnRows Anything) (start_domain b)
unfolding start_domain
start_domain-Settled true =
    job_run-OnRows Anything SettledObject Anything _ start_running (λ r h. tt) start_running-Settled
start_domain-Settled false = Runs-by (start_domain false) (λ w h a p. inr refl) (λ w h e p. tt)

ready-Settled :
    Runs
      (OnRows SettledObject)
      (OnRows SettledRow)
      (λ _. OnRows Anything)
      (save (λ v. record v { provisioning_state = ready }) copy_both)
unfolding save
ready-Settled = Runs-by (save _ copy_both) (λ w h a p. ground (arith, h, p)) (λ w h e p. tt)

provision_steps-Settled :
    Runs (OnRows Anything) (OnRows SettledRow) (λ _. OnRows Anything) provision_steps
unfolding provision_steps
provision_steps-Settled = Runs-bind (read (λ (r : Rows). r.vm)) _ (any-Runs _) λ vm.
    Runs-bind (job_run _ _) _ (any-Runs _) λ _. Runs-bind (job_run _ _) _ (any-Runs _) λ _.
      Runs-bind (job_run _ _) _ (any-Runs _) λ _. Runs-bind (job_run _ _) _ (any-Runs _) λ _.
        Runs-bind (attach_cloud_init vm) _ (any-Runs _) λ _.
          Runs-bind (save_provisioning cloud_init_attached) _ (any-Runs _) λ _.
            Runs-bind (start_domain vm.autostart) _ (start_domain-Settled vm.autostart)
              λ _. ready-Settled

lock_failed_raises :
    (e : Error) (w : World Payload Rows) (a : Unit {0}) → (lock_failed e w).0 ≢ ok a
unfolding lock_failed transition
lock_failed_raises e w a = ground arith

lock_failed-Settled :
    (e : Error) → Runs (OnRows Anything) (OnRows SettledRow) (λ _. OnRows Anything) (lock_failed e)
lock_failed-Settled e =
    Runs-by (lock_failed e) (λ w h a p. absurd (lock_failed_raises e w a p)) (λ w h x p. tt)

steps_failed-Settled :
    (e : Error) → Runs (OnRows Anything) (OnRows SettledRow) (λ _. OnRows Anything) (steps_failed e)
unfolding steps_failed
steps_failed-Settled e = Runs-bind cleanup_partial_vm _ (any-Runs _) λ _.
    Runs-bind (record_failure e) _ (any-Runs _) λ _.
      raising-Runs SettledRow Anything (fail_job e) (fail_job-IsFrame _ e) (fail_job_raises _ e)

provision_failed-Settled :
    (e : Error)
    → Runs (OnRows Anything) (OnRows SettledRow) (λ _. OnRows Anything) (provision_failed e)
unfolding provision_failed
provision_failed-Settled (lock_acquisition k) = lock_failed-Settled _
provision_failed-Settled _ = steps_failed-Settled _

provision_vm-Settled :
    Runs (OnRows Anything) (OnRows SettledRow) (λ _. OnRows Anything) provision_vm
unfolding provision_vm
provision_vm-Settled =
    Runs-catch _ provision_failed
      (Runs-bind (with_lock lifecycle provision_steps) _
        (lock-OnRows Anything SettledRow Anything _ _ (λ r h. tt) provision_steps-Settled)
        λ _.
          Runs-bind (transition success (some "VM created successfully") none) _
            (Runs-weaken _ (λ w h. h) (λ w h. h) (λ e w h. tt)
              (frame-Runs SettledRow _ (transition-IsFrame _ _ _)))
            λ _. Runs-by (emit "VM_CREATED") (λ w h a p. h) (λ w h e p. tt))
      provision_failed-Settled

returned :
    {A S : Type 0} (Q : S → Type 0) (E : Error → S → Type 0) (x : Result A × S) {a : A}
    → Ends Q E x
    → x.0 ≡ ok a
    → Q x.1
returned Q E (ok a, s) h e = h
returned Q E (err x, s) h e = absurd (ground (arith, e))

-- From whatever rows, and however the agent answers, the locks stand and the user cancels: a
-- provisioning that returns leaves the VM's row in the table, READY, and RUNNING or STOPPED.
pub provision_vm-Settles :
    (w : World Payload Rows) → (provision_vm w).0 ≡ ok tt → Settles (provision_vm w).1.res.stored
provision_vm-Settles w e =
    returned (OnRows SettledRow) (λ _. OnRows Anything) (provision_vm w)
      (provision_vm-Settled.at w tt) e
