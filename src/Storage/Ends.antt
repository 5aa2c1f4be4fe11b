-- ===== src/Storage/Ends.antt =====
-- How the task that registers a storage pool ends its job.
use node_pilot.Common.{ℕ, String, Option, none, some, arith}
use node_pilot.Common.Exec.{lift}
use node_pilot.Task.World.{World}
use node_pilot.Task.Run.{celery_run}
use node_pilot.Task.Keeps.{Runs, Runs-by, Runs-catch}
use node_pilot.Task.Ends.{
  IsOpen, IsBusy, IsHalted, IsStopped, IsSucceeded, IsFailed, finish-Runs, job_run-Runs,
  celery_run-Runs, body_rules,
}
use node_pilot.Task.Saved.{Saved, save_then_emit-Runs, saved_rules}
use node_pilot.Storage.Model.{
  StorageType, directory, lvm, lvm_thin, zfs, nfs, ceph_rbd, StoragePoolStatus, StoragePool,
}
use node_pilot.Storage.Tasks.{
  Payload, copy_status, required, refresh_storage_pool_info, provision_pool, run_create,
  create_storage_pool_task,
}

required-Runs :
    (key : Option ℕ)
    → Runs {S = World Payload (Saved StoragePool)} IsBusy IsBusy IsHalted (lift (required key))
unfolding required
required-Runs none =
    Runs-by (lift (required none)) (λ w h a p. ground arith) (λ w h e p. ground arith)
required-Runs (some n) =
    Runs-by (lift (required (some n))) (λ w h a p. ground arith) (λ w h e p. ground arith)

refresh-Runs : (pool : StoragePool) → Runs IsBusy IsBusy IsHalted (refresh_storage_pool_info pool)
unfolding refresh_storage_pool_info
refresh-Runs pool = search (body_rules, saved_rules, required-Runs) depth 12

provision_pool-Runs :
    (type : StorageType) (pool : StoragePool)
    → Runs IsBusy IsBusy IsHalted (provision_pool type pool)
unfolding provision_pool
provision_pool-Runs directory pool = search body_rules
provision_pool-Runs lvm pool = search body_rules
provision_pool-Runs lvm_thin pool = search body_rules
provision_pool-Runs zfs pool = search body_rules
provision_pool-Runs nfs pool = search body_rules
provision_pool-Runs ceph_rbd pool = search body_rules

run_create-Runs : (pool : StoragePool) → Runs IsBusy IsBusy IsHalted (run_create pool)
unfolding run_create
run_create-Runs pool = search (body_rules, provision_pool-Runs, refresh-Runs)

body-Runs : (pool : StoragePool) → Runs IsOpen IsSucceeded IsStopped (create_storage_pool_task pool)
unfolding create_storage_pool_task
body-Runs pool = Runs-catch _ _ (finish-Runs _ _ _ (job_run-Runs _ _ (run_create-Runs pool))) (λ e.
    save_then_emit-Runs e "STORAGE_POOL_ERROR" (λ p. record p { status = StoragePoolStatus.error })
      copy_status)

-- However the agent answers, keys missing from its answer included, and whenever a user cancels,
-- the registration of a pool that begins with a waiting or working job ends with the job SUCCESS
-- if it returns and FAILED if it raises.
pool_task_ends :
    (pool : StoragePool) (task_id : String)
    → Runs IsOpen IsSucceeded IsFailed (celery_run task_id (create_storage_pool_task pool))
pool_task_ends pool id = celery_run-Runs id (create_storage_pool_task pool) (body-Runs pool)
