-- ===== src/Backups/Ends.antt =====
-- How the backup tasks end their jobs.
use node_pilot.Common.{String, Option, none, some, List, arith}
use node_pilot.Common.Error.{Error, vm_has_no_disks}
use node_pilot.Common.Exec.{raise, gets}
use node_pilot.Task.World.{World}
use node_pilot.Task.Run.{celery_run}
use node_pilot.Task.Keeps.{Runs, Runs-by, Runs-bind, Runs-catch, Runs-gets}
use node_pilot.Task.Ends.{
  IsOpen, IsBusy, IsHalted, IsStopped, IsSucceeded, IsFailed, then-Runs, finish-Runs,
  with_lock-Runs, job_run-Runs, succeed-Runs, celery_run-Runs, body_rules,
}
use node_pilot.Task.Saved.{Saved, save_then_fail-Runs, save_then_emit-Runs, saved_rules}
use node_pilot.Vm.Model.{VmDisk}
use node_pilot.Backups.Model.{BackupType, completed, failed, Backup, Payload}
use node_pilot.Backups.Tasks.{
  Task, copy_status, copy_finished, take_backup, put_back, run_backup, backup_failed,
  create_backup_task, run_restore, restore_backup_task,
}

clock-Runs :
    {E : Error → World Payload (Saved Backup) → Type 0} {G : World Payload (Saved Backup) → Type 0}
    → Runs G G E (gets (λ (w : World Payload (Saved Backup)). w.now))
clock-Runs = Runs-gets (λ w. w.now)

no_disk-Runs :
    Runs {S = World Payload (Saved Backup)} {A = Unit {0}} IsBusy IsBusy IsHalted
      (raise vm_has_no_disks)
no_disk-Runs = Runs-by (raise vm_has_no_disks) (λ w h a p. ground arith) (λ w h e p. ground arith)

take_backup-Runs : (disk : Option VmDisk) → Runs IsBusy IsBusy IsHalted (take_backup disk)
unfolding take_backup
take_backup-Runs none = no_disk-Runs
take_backup-Runs (some disk) = search (body_rules, saved_rules, clock-Runs) depth 9

put_back-Runs : (disk : Option VmDisk) → Runs IsBusy IsBusy IsHalted (put_back disk)
unfolding put_back
put_back-Runs none = no_disk-Runs
put_back-Runs (some disk) = search (body_rules, saved_rules) depth 9

run_backup-Runs : (disks : List VmDisk) → Runs IsBusy IsBusy IsHalted (run_backup disks)
unfolding run_backup
run_backup-Runs disks = search (body_rules, saved_rules, clock-Runs, take_backup-Runs) depth 9

run_restore-Runs : (disks : List VmDisk) → Runs IsBusy IsBusy IsHalted (run_restore disks)
unfolding run_restore
run_restore-Runs disks = search (body_rules, saved_rules, put_back-Runs) depth 9

backup_failed-Runs : (e : Error) → Runs (IsStopped e) IsSucceeded IsStopped (backup_failed e)
unfolding backup_failed
backup_failed-Runs e =
    Runs-bind (gets (λ (w : World Payload (Saved Backup)). w.now)) _ clock-Runs λ now.
      save_then_emit-Runs e "BACKUP_FAILED"
        (λ b. record b { status = failed; finished_at = some now }) copy_finished

pub data BackupTask : Type 0 where
  creates : BackupType → BackupTask
  restores : BackupTask

abbrev pub body_of : List VmDisk → BackupTask → Task
body_of disks (creates type) = create_backup_task disks type
body_of disks restores = restore_backup_task disks

body_of-Runs :
    (disks : List VmDisk) (which : BackupTask)
    → Runs IsOpen IsSucceeded IsStopped (body_of disks which)
unfolding create_backup_task restore_backup_task
body_of-Runs disks (creates type) =
    Runs-catch _ backup_failed
      (finish-Runs _ _ _ (with_lock-Runs _ _ (job_run-Runs _ _ (run_backup-Runs disks))))
      backup_failed-Runs
body_of-Runs disks restores =
    Runs-catch _ _
      (then-Runs _ _ (with_lock-Runs _ _ (job_run-Runs _ _ (run_restore-Runs disks)))
        (succeed-Runs (some "Restore completed")))
      λ e. save_then_fail-Runs e (λ b. record b { status = completed }) copy_status

-- However the agent answers and whenever a user cancels, a backup or a restore that begins with a
-- waiting or working job ends with the job SUCCESS if it returns and FAILED if it raises; also
-- when the VM has no disk at all.
pub backup_task_ends :
    (disks : List VmDisk) (which : BackupTask) (task_id : String)
    → Runs IsOpen IsSucceeded IsFailed (celery_run task_id (body_of disks which))
backup_task_ends disks which id =
    celery_run-Runs id (body_of disks which) (body_of-Runs disks which)
