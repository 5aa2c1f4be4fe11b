-- ===== src/Networks/Ends.antt =====
-- How the network tasks end their jobs.
use node_pilot.Common.{String, some}
use node_pilot.Task.Run.{celery_run}
use node_pilot.Task.Keeps.{Runs, Runs-catch}
use node_pilot.Task.Ends.{
  IsOpen, IsBusy, IsHalted, IsStopped, IsSucceeded, IsFailed, then-Runs, finish-Runs, job_run-Runs,
  succeed-Runs, emit-Runs, quiet_between-Runs, celery_run-Runs, body_rules,
}
use node_pilot.Task.Saved.{
  delete_object-IsQuiet, save_then_fail-Runs, save_then_emit-Runs, saved_rules,
}
use node_pilot.Networks.Tasks.{
  Network, NetworkStatus, Task, copy_status, with_status, run_create, create_network_task,
  run_delete, delete_network_task,
}

run_create-Runs : (n : Network) → Runs IsBusy IsBusy IsHalted (run_create n)
unfolding run_create
run_create-Runs n = search (body_rules, saved_rules)

run_delete-Runs : (n : Network) → Runs IsBusy IsBusy IsHalted (run_delete n)
unfolding run_delete
run_delete-Runs n = search body_rules

pub data NetworkTask : Type 0 where
  creates deletes : NetworkTask

abbrev pub body_of : NetworkTask → Network → Task
body_of creates = create_network_task
body_of deletes = delete_network_task

body_of-Runs :
    (which : NetworkTask) (n : Network) → Runs IsOpen IsSucceeded IsStopped (body_of which n)
unfolding create_network_task delete_network_task
body_of-Runs creates n =
    Runs-catch _ _ (finish-Runs _ _ _ (job_run-Runs _ _ (run_create-Runs n)))
      (λ e. save_then_emit-Runs e "NETWORK_ERROR" (with_status NetworkStatus.error) copy_status)
body_of-Runs deletes n =
    Runs-catch _ _
      (then-Runs _ _ (job_run-Runs _ _ (run_delete-Runs n)) (
        then-Runs _ _ (quiet_between-Runs _ delete_object-IsQuiet)
          (then-Runs _ _ (succeed-Runs (some "Network deleted")) (emit-Runs "NETWORK_DELETED"))))
      (λ e. save_then_fail-Runs e (with_status NetworkStatus.error) copy_status)

-- However the agent answers and whenever a user cancels, the creation or deletion of a network
-- that begins with a waiting or working job ends with the job SUCCESS if it returns and FAILED if
-- it raises.
pub network_task_ends :
    (which : NetworkTask) (n : Network) (task_id : String)
    → Runs IsOpen IsSucceeded IsFailed (celery_run task_id (body_of which n))
network_task_ends which n id = celery_run-Runs id (body_of which n) (body_of-Runs which n)
