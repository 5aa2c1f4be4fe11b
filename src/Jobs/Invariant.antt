-- ===== src/Jobs/Invariant.antt =====
-- What every history of service calls keeps true of a job's row.
use node_pilot.Common.{ℕ, ◌≤◌, ◌≡◌, String, true, Option, none, List, [], ◌∷◌, arith, is_some}
use node_pilot.Common.Error.{Error}
use node_pilot.Common.Exec.{ok}
use node_pilot.Jobs.Model.{JobType, JobStatus, queued, running, Job, is_terminal}
use node_pilot.Jobs.Services.{create_job, transition}
use node_pilot.Jobs.Machine.{
  Action, move, progress, log, cancel, task_starts, task_fails, act, history,
}

-- A finish time exactly when the job has ended, a start time once it runs, none while it waits,
-- and a progress that is a percentage.
pub record IsValid (row : Job) : Type 0 where
  pub finished : is_some row.finished_at ≡ is_terminal row
  pub started : row.status ≡ running → is_some row.started_at ≡ true
  pub waiting : row.status ≡ queued → row.started_at ≡ none
  pub percent : row.progress ≤ 100

transition-IsValid :
    (now : ℕ) (s : JobStatus) (m : Option String) (e : Option Error) (row row' : Job)
    → IsValid row
    → transition now s m e row ≡ ok row'
    → IsValid row'
unfolding transition
transition-IsValid now s m e row row' v h = ground arith

create_job-IsValid :
    (t : JobType) (rt id : String) (o : ℕ) (n u : Option ℕ) (key : String) (timeout : ℕ)
    → IsValid (create_job t rt id o n u key timeout)
create_job-IsValid t rt id o n u key timeout = ground arith

act-IsValid : (now : ℕ) (a : Action) (row : Job) → IsValid row → IsValid (act now a row)
unfolding act
act-IsValid now (move s m e) row v = ground arith
act-IsValid now (progress p m job) row v = ground arith
act-IsValid now (log line) row v = ground arith
act-IsValid now (cancel job) row v = ground arith
act-IsValid now (task_starts id) row v = ground arith
act-IsValid now (task_fails e) row v = ground arith

history_keeps : (calls : List (ℕ × Action)) (row : Job) → IsValid row → IsValid (history calls row)
unfolding history
history_keeps [] row v = v
history_keeps ((now, a) ∷ rest) row v = history_keeps rest (act now a row) (act-IsValid now a row v)

-- From its creation on, through any history of service calls, a job has a finish time exactly
-- when it has ended, a start time once it runs, none while it waits, and a progress of at most
-- 100.
pub history-IsValid :
    (t : JobType) (rt id : String) (o : ℕ) (n u : Option ℕ) (key : String) (timeout : ℕ)
    (calls : List (ℕ × Action))
    → IsValid (history calls (create_job t rt id o n u key timeout))
history-IsValid t rt id o n u key timeout calls =
    history_keeps calls (create_job t rt id o n u key timeout)
      (create_job-IsValid t rt id o n u key timeout)
