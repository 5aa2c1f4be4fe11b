-- ===== src/Task/Run.antt =====
-- `job_run` (backend/apps/jobs/services.py), and the skeleton that the tasks share: the whole
-- body under `try`, and a job that is FAILED when anything in it raised.
use node_pilot.Common.{String, not, none, some, str_eq}
use node_pilot.Common.Error.{Error, job_cancelled}
use node_pilot.Common.Exec.{ok, err, Exec, raise, gets, catch, raise_if, when, modify, ◌>>=◌, ◌>>◌}
use node_pilot.Jobs.Model.{queued, running, failed, canceled, same_status, is_terminal}
use node_pilot.Jobs.Services.{
  set_progress, append_log, is_cancel_requested, before_start, on_failure,
}
use node_pilot.Task.World.{World, transition, emit}

module _ {P R : Type 0} where
  -- `set_progress(job, job.progress, step)` and `append_log(job, step)`
  unfoldable pub note_step : String → World P R → World P R
  unfolding set_progress append_log
  note_step step w =
      let (job', row') = set_progress w.job.progress (some step) w.job w.row in
      record w { job = job'; row = append_log w.now step row' }

  -- The `except` clauses of `job_run`.
  unfoldable pub end_step : {A : Type 0} → Error → Exec (World P R) A
  unfolding transition
  end_step job_cancelled = do transition canceled (some "Canceled") none; raise job_cancelled
  end_step e = do transition failed none (some e); raise e

  -- What `job_run` does before its body.
  unfoldable pub enter_step : String → Exec (World P R) (Unit {0})
  unfolding transition note_step is_cancel_requested
  enter_step step = do
    stale ← gets (λ (w : World P R). w.job.status)
    when (same_status stale queued) (transition running none none)
    cancelled ← gets (λ (w : World P R). is_cancel_requested w.row)
    raise_if cancelled job_cancelled
    when (not (str_eq step "")) (modify (note_step step))

  -- `with job_run(job, step): body`
  unfoldable pub job_run : {A : Type 0} → String → Exec (World P R) A → Exec (World P R) A
  unfolding enter_step end_step
  job_run step body = do enter_step step; catch body end_step

  -- The end of every handler: `if not Job.objects.get(pk=job.pk).is_terminal: transition(…)`,
  -- and `raise`.
  unfoldable pub fail_job : {A : Type 0} → Error → Exec (World P R) A
  unfolding transition
  fail_job e = do
    ended ← gets (λ (w : World P R). is_terminal w.row)
    when (not ended) (transition failed none (some e))
    raise e

  -- The same with an event before `raise`.
  unfoldable pub fail_and_emit : {A : Type 0} → String → Error → Exec (World P R) A
  unfolding transition
  fail_and_emit event e = do
    ended ← gets (λ (w : World P R). is_terminal w.row)
    when (not ended) (transition failed none (some e))
    emit event
    raise e

  -- Celery around a task (`JobBoundTask`): `before_start`, the task, and `on_failure` if it
  -- raised.
  unfoldable pub celery_run : {A : Type 0} → String → Exec (World P R) A → Exec (World P R) A
  unfolding before_start
  celery_run task_id body w =
      let (r, w') = body (record w { row = before_start task_id w.row }) in
      elim r [ ok a ↦ (ok a, w') | err e ↦ (err e, record w' { row = on_failure w'.now e w'.row }) ]
