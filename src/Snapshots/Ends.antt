-- ===== src/Snapshots/Ends.antt =====
-- How the snapshot tasks end: the job, and the snapshot that a failed attempt leaves.
use node_pilot.Common.{String, some, arith}
use node_pilot.Task.Protocol.{AgentData}
use node_pilot.Task.World.{read}
use node_pilot.Task.Run.{celery_run}
use node_pilot.Task.Keeps.{Runs, Runs-bind, Runs-catch}
use node_pilot.Task.Ends.{
  IsOpen, IsStopped, IsSucceeded, IsFailed, IsQuiet, read-Runs, handler-Runs, job_run-Runs,
  with_lock-Runs, succeed-Runs, celery_run-Runs, quiet_between-Runs, finish-Runs, body_rules,
}
use node_pilot.Snapshots.Model.{SnapshotStatus, ready, error}
use node_pilot.Snapshots.Tasks.{
  Task, save_status, save_created, delete_row, create_snapshot_task, delete_snapshot_task,
  rollback_snapshot_task,
}

pub save_status-IsQuiet : (s : SnapshotStatus) → IsQuiet (save_status s)
unfolding save_status
save_status-IsQuiet s = record { same_row = λ w. ground arith; never_cancels = λ w. ground arith }

pub save_created-IsQuiet : (d : AgentData) → IsQuiet (save_created d)
unfolding save_created
save_created-IsQuiet d = record { same_row = λ w. ground arith; never_cancels = λ w. ground arith }

pub delete_row-IsQuiet : IsQuiet delete_row
unfolding delete_row
delete_row-IsQuiet = record { same_row = λ w. ground arith; never_cancels = λ w. ground arith }

pub ruleset quiet_rules = (save_status-IsQuiet, save_created-IsQuiet, delete_row-IsQuiet)

create_snapshot_task-Runs : Runs IsOpen IsSucceeded IsStopped create_snapshot_task
unfolding create_snapshot_task
create_snapshot_task-Runs = Runs-bind (read (λ r. r.snapshot)) _ (read-Runs _) λ s.
    Runs-catch _ _
      (finish-Runs _ _ _ (with_lock-Runs _ _ (job_run-Runs _ _ (search (body_rules, quiet_rules)))))
      λ e. handler-Runs _ _ (save_status-IsQuiet error)

delete_snapshot_task-Runs : Runs IsOpen IsSucceeded IsStopped delete_snapshot_task
unfolding delete_snapshot_task
delete_snapshot_task-Runs = Runs-bind (read (λ r. r.snapshot)) _ (read-Runs _) λ s.
    Runs-catch _ _
      (Runs-bind _ _ (with_lock-Runs _ _ (job_run-Runs _ _ (search (body_rules, quiet_rules))))
        (λ _.
          Runs-bind _ _ (quiet_between-Runs _ delete_row-IsQuiet)
            (λ _. succeed-Runs (some "Snapshot deleted"))))
      λ e. handler-Runs _ e (save_status-IsQuiet s.status)

rollback_snapshot_task-Runs : Runs IsOpen IsSucceeded IsStopped rollback_snapshot_task
unfolding rollback_snapshot_task
rollback_snapshot_task-Runs = Runs-bind (read (λ r. r.snapshot)) _ (read-Runs _) λ s.
    Runs-catch _ _
      (finish-Runs _ _ _ (
        with_lock-Runs _ _
          (with_lock-Runs _ _ (job_run-Runs _ _ (search (body_rules, quiet_rules))))))
      λ e. handler-Runs _ _ (save_status-IsQuiet ready)

pub data SnapshotTask : Type 0 where
  creates deletes rolls_back : SnapshotTask

-- The body of each task.
abbrev pub body_of : SnapshotTask → Task (Unit {0})
body_of creates = create_snapshot_task
body_of deletes = delete_snapshot_task
body_of rolls_back = rollback_snapshot_task

-- However the agent answers and whenever a user cancels, a snapshot task that begins with a
-- waiting or working job ends with the job SUCCESS if it returns and FAILED if it raises.
pub snapshot_task_ends :
    (which : SnapshotTask) (task_id : String)
    → Runs IsOpen IsSucceeded IsFailed (celery_run task_id (body_of which))
snapshot_task_ends creates id = celery_run-Runs id create_snapshot_task create_snapshot_task-Runs
snapshot_task_ends deletes id = celery_run-Runs id delete_snapshot_task delete_snapshot_task-Runs
snapshot_task_ends rolls_back id =
    celery_run-Runs id rollback_snapshot_task rollback_snapshot_task-Runs
