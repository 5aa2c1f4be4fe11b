-- ===== src/Snapshots/Restored.antt =====
-- What a failed attempt to delete a snapshot leaves of it.
use node_pilot.Common.{◌≡◌, refl, String, none, some, arith, str_append}
use node_pilot.Common.Error.{Error}
use node_pilot.Common.Exec.{◌>>◌}
use node_pilot.Jobs.Model.{success}
use node_pilot.Task.Protocol.{delete_snapshot}
use node_pilot.Task.World.{World, storage, transition, with_lock}
use node_pilot.Task.Agent.{send_operation, rpc_timeout}
use node_pilot.Task.Run.{job_run, fail_job, celery_run}
use node_pilot.Task.Keeps.{Ends, Runs, Runs-by, Runs-bind, Runs-catch, Runs-both}
use node_pilot.Task.Ends.{
  IsOpen, IsBusy, IsStopped, IsSucceeded, IsFailed, job_run-Runs, with_lock-Runs, celery_run-Rows,
  body_rules,
}
use node_pilot.Task.Rows.{OnRows, frame-Runs, send-IsFrame, job_run-OnRows, lock-OnRows}
use node_pilot.Snapshots.Model.{SnapshotStatus, deleting, Snapshot, Payload, existing, Rows}
use node_pilot.Snapshots.Tasks.{save_status, delete_row, delete_snapshot_task, delete_loaded}
use node_pilot.Snapshots.Ends.{quiet_rules}

module _ (s : Snapshot) where
  -- The object and its row are `s` but for a status, the same in both.
  abbrev Near : Rows → Type 0
  Near r =
      (r.snapshot ≡ record s { status = r.snapshot.status })
      × (r.stored ≡ some (record s { status = r.snapshot.status }))

  abbrev Gone : Rows → Type 0
  Gone r = r.stored ≡ none

  abbrev Intact : Rows → Type 0
  Intact r = r.stored ≡ some s

  save_status-Near :
      (x : SnapshotStatus) → Runs (OnRows Near) (OnRows Near) (λ _. OnRows Near) (save_status x)
  unfolding save_status
  save_status-Near x = Runs-by (save_status x) (λ w h a p. ground arith) (λ w h e p. ground arith)

  deleting-Near :
      Runs
        (OnRows Near)
        (OnRows Near)
        (λ _. OnRows Near)
        (with_lock storage (
          job_run (str_append "Deleting snapshot " s.name) (do
            save_status deleting
            send_operation delete_snapshot (existing s.agent_snapshot_id s.uuid) rpc_timeout)))
  deleting-Near =
      lock-OnRows Near Near Near _ _ (λ r h. h)
        (job_run-OnRows Near Near Near _ _ (λ r h. h)
          (Runs-bind _ _ (save_status-Near deleting) (λ _. frame-Runs Near _ (send-IsFrame _ _ _))))

  restore :
      (e : Error)
      → Runs {A = Unit {0}}
          (λ w. IsStopped e w × Near w.res)
          (λ w. IsSucceeded w × Gone w.res)
          (λ x w. IsStopped x w × Intact w.res)
          (save_status s.status >> fail_job e)
  unfolding save_status fail_job
  restore e =
      Runs-by (save_status s.status >> fail_job e) (λ w h a p. ground arith)
        (λ w h x p. ground arith)

  remove :
      Runs
        (λ w. IsBusy w × Near w.res)
        (λ w. IsBusy w × Gone w.res)
        (λ e w. IsStopped e w × Near w.res)
        delete_row
  unfolding delete_row
  remove = Runs-by delete_row (λ w h a p. ground arith) (λ w h x p. ground arith)

  succeed :
      (text : String)
      → Runs
          (λ w. IsBusy w × Gone w.res)
          (λ w. IsSucceeded w × Gone w.res)
          (λ e (w : World Payload Rows). IsStopped e w × Near w.res)
          (transition success (some text) none)
  unfolding transition
  succeed text =
      Runs-by (transition success (some text) none) (λ w h a p. ground arith)
        (λ w h x p. ground arith)

  delete_loaded-Runs :
      Runs
        (λ w. IsOpen w × Near w.res)
        (λ w. IsSucceeded w × Gone w.res)
        (λ e w. IsStopped e w × Intact w.res)
        (delete_loaded s)
  unfolding delete_loaded
  delete_loaded-Runs =
      Runs-catch _ _
        (Runs-bind _ _
          (Runs-both _ (with_lock-Runs _ _ (job_run-Runs _ _ (search (body_rules, quiet_rules))))
            deleting-Near)
          (λ _. Runs-bind _ _ remove (λ _. succeed "Snapshot deleted")))
        restore

celery_read :
    (task_id : String) (w : World Payload Rows)
    → celery_run task_id delete_snapshot_task w
      ≡ celery_run task_id (delete_loaded w.res.snapshot) w
unfolding celery_run delete_snapshot_task
celery_read task_id w = refl

-- A deletion that begins with the row as the task's object has it either returns, with the job
-- SUCCESS and the row gone, or raises, with the job FAILED and the row exactly as it was: the
-- status from which the deletion was allowed is put back, whatever failed.
pub delete_snapshot_restores :
    (task_id : String) (w : World Payload Rows)
    → IsOpen w
    → w.res.stored ≡ some w.res.snapshot
    → Ends {A = Unit {0}}
        (λ w'. IsSucceeded w' × (w'.res.stored ≡ none))
        (λ e w'. IsFailed e w' × (w'.res.stored ≡ some w.res.snapshot))
        (celery_run task_id delete_snapshot_task w)
delete_snapshot_restores task_id w open_row same = rw (celery_read task_id w) (
    (celery_run-Rows (Near w.res.snapshot) (Gone w.res.snapshot) (Intact w.res.snapshot) task_id
        (delete_loaded w.res.snapshot) (delete_loaded-Runs w.res.snapshot)).at
      w (open_row, (refl, same)))
