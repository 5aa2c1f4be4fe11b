-- ===== src/Jobs/Services.antt =====
-- backend/apps/jobs/services.py on one row of the jobs table. A service takes the row as the
-- database holds it when the service locks or reads it, and returns the row that it writes; what
-- it does to the caller's `Job` object is a second result. Websocket broadcasts only read the
-- row; they are left out. `now` is the time that `timezone.now()` gives.
use node_pilot.Common.{
  ℕ, String, Bool, Option, none, some, [], ◌∷◌, ◌++◌, ◌&&◌, not, is_some, or_else, leb,
  if◌then◌else◌, str_eq,
}
use node_pilot.Common.Error.{Error, invalid_state_transition}
use node_pilot.Common.Exec.{Result, ok, err}
use node_pilot.Jobs.Model.{
  JobType, JobStatus, queued, running, success, failed, canceling, canceled, same_status,
  in_statuses, valid_transitions, Job, is_terminal,
}

-- `create_job`; its keyword defaults are written out by the callers.
abbrev pub create_job : JobType → String → String → ℕ → Option ℕ → Option ℕ → String → ℕ → Job
create_job type resource_type resource_id organization node created_by key timeout = record {
  type = type;
  status = queued;
  organization = organization;
  resource_type = resource_type;
  resource_id = resource_id;
  node = node;
  created_by = created_by;
  progress = 0;
  message = "";
  error = none;
  logs = [];
  celery_task_id = "";
  idempotency_key = key;
  timeout_seconds = timeout;
  retries = 0;
  started_at = none;
  finished_at = none;
}

-- The time stamps and the progress that a transition writes.
unfoldable pub stamp : ℕ → JobStatus → Job → Job
stamp now s job =
    let started =
      if same_status s running && not (is_some job.started_at) then some now else job.started_at in
    if in_statuses s (success ∷ failed ∷ canceled ∷ [])
    then record job {
      started_at = started;
      finished_at = some now;
      progress = if same_status s success then 100 else job.progress;
    }
    else record job { started_at = started }

-- `transition`: `locked` is the row under `select_for_update`.
unfoldable pub transition : ℕ → JobStatus → Option String → Option Error → Job → Result Job
unfolding stamp valid_transitions
transition now new_status message error locked =
    if not (in_statuses new_status (valid_transitions locked.status))
      && not (same_status new_status locked.status)
    then err invalid_state_transition
    else ok (
        stamp now new_status (record locked {
          status = new_status;
          message = or_else message locked.message;
          error = elim error [ none ↦ locked.error | some e ↦ some e ];
        }))

-- `max(0, min(100, progress))`; no caller passes a negative number.
unfoldable pub clamp_progress : ℕ → ℕ
clamp_progress p = if leb p 100 then p else 100

-- `set_progress`: the caller's object, and the row, of which `save(update_fields=…)` writes the
-- progress and the message of the object.
unfoldable pub set_progress : ℕ → Option String → Job → Job → Job × Job
unfolding clamp_progress
set_progress progress message job row =
    let p = clamp_progress progress in
    let m = or_else message job.message in
    (record job { progress = p; message = m }, record row { progress = p; message = m })

-- `append_log`
unfoldable pub append_log : ℕ → String → Job → Job
append_log now line row = record row { logs = row.logs ++ (now, line) ∷ [] }

-- `request_cancel`: the test reads the caller's object, the transition the row. The second
-- result says whether the Celery task is revoked.
unfoldable pub request_cancel : ℕ → Job → Job → Result (Job × Bool)
unfolding transition
request_cancel now job row =
    if not (in_statuses job.status (queued ∷ running ∷ []))
    then err invalid_state_transition
    else elim (transition now canceling (some "Cancellation requested") none row) [
      | ok updated ↦ ok (updated, not (str_eq updated.celery_task_id ""))
      | err e ↦ err e
    ]

-- `is_cancel_requested`
unfoldable pub is_cancel_requested : Job → Bool
is_cancel_requested row = same_status row.status canceling

-- `JobBoundTask.before_start` (backend/apps/jobs/tasks.py)
unfoldable pub before_start : String → Job → Job
before_start task_id row = record row { celery_task_id = task_id }

-- `JobBoundTask.on_failure`: a transition that raises leaves the row as it is.
unfoldable pub on_failure : ℕ → Error → Job → Job
unfolding transition
on_failure now exc row =
    if is_terminal row
    then row
    else elim (transition now failed none (some exc) row) [ ok updated ↦ updated | err _ ↦ row ]
