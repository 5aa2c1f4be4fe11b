-- ===== src/Jobs/Machine.antt =====
-- The state machine of jobs: when `transition` moves a row, against an order of phases, and what
-- any history of service calls can do to a job that has ended.
use node_pilot.Common.{
  ℕ, ◌+◌, ◌<◌, ◌≤◌, ◌≡◌, refl, ◌≢◌, ◌⊎◌, ◌↔◌, String, true, Option, List, [], ◌∷◌, arith, ◌∙◌,
  if◌then◌else◌,
}
use node_pilot.Common.Error.{Error}
use node_pilot.Common.Exec.{ok, err, is_ok}
use node_pilot.Jobs.Model.{
  JobStatus, queued, running, success, failed, canceling, canceled, Job, is_terminal, same_status,
}
use node_pilot.Jobs.Services.{
  transition, set_progress, append_log, request_cancel, before_start, on_failure,
}

-- Waiting, working, stopping, ended.
abbrev pub phase : JobStatus → ℕ
phase queued = 0
phase running = 1
phase canceling = 2
phase success = 3
phase failed = 3
phase canceled = 3

-- The moves that the machine has: forward in phase, but a job succeeds only after it ran or was
-- being stopped, and a running job is canceled only through `canceling`.
abbrev pub IsMove : JobStatus → JobStatus → Type 0
IsMove a b = (phase a < phase b) × ((a ≡ queued) → b ≢ success) × ((a ≡ running) → b ≢ canceled)

-- `transition` returns exactly for a move (to a later phase, but to SUCCESS not from QUEUED and
-- to CANCELED not from RUNNING) and for a repetition of the status that the row has; it raises for
-- everything else.
pub transition_moves :
    (now : ℕ) (s : JobStatus) (m : Option String) (e : Option Error) (row : Job)
    → (is_ok (transition now s m e row) ≡ true) ↔ (IsMove row.status s ⊎ (row.status ≡ s))
unfolding transition is_ok
transition_moves now s m e row = ground arith

-- The calls that change a job's row. `progress` and `cancel` carry the caller's `Job` object,
-- which may be older than the row.
pub data Action : Type 0 where
  move : JobStatus → Option String → Option Error → Action
  progress : ℕ → Option String → Job → Action
  log : String → Action
  cancel : Job → Action
  task_starts : String → Action
  task_fails : Error → Action

-- A call that raises leaves the row as it is: its transaction is rolled back.
unfoldable pub act : ℕ → Action → Job → Job
unfolding transition set_progress append_log request_cancel before_start on_failure
act now (move s m e) row = elim (transition now s m e row) [ ok row' ↦ row' | err _ ↦ row ]
act now (progress p m job) row = (set_progress p m job row).1
act now (log line) row = append_log now line row
act now (cancel job) row = elim (request_cancel now job row) [ ok (row', _) ↦ row' | err _ ↦ row ]
act now (task_starts id) row = before_start id row
act now (task_fails e) row = on_failure now e row

-- A history of calls, each with the time of the call.
unfoldable pub history : List (ℕ × Action) → Job → Job
history [] row = row
history ((now, a) ∷ rest) row = history rest (act now a row)

act-phase :
    (now : ℕ) (a : Action) (row : Job)
    → ((act now a row).status ≡ row.status) ⊎ (phase row.status < phase (act now a row).status)
unfolding act
act-phase now (move s m e) row = ground arith
act-phase now (progress p m job) row = ground arith
act-phase now (log line) row = ground arith
act-phase now (cancel job) row = ground arith
act-phase now (task_starts id) row = ground arith
act-phase now (task_fails e) row = ground arith

act-terminal :
    (now : ℕ) (a : Action) (row : Job)
    → is_terminal row ≡ true
    → (act now a row).status ≡ row.status
act-terminal now a row h = ground (arith, act-phase now a row)

-- Whatever services are called, with whatever objects, a job that has ended keeps its status.
pub terminal_stays :
    (calls : List (ℕ × Action)) (row : Job)
    → is_terminal row ≡ true
    → (history calls row).status ≡ row.status
unfolding history
terminal_stays [] row h = refl
terminal_stays ((now, a) ∷ rest) row h =
    let same = act-terminal now a row h in terminal_stays rest (act now a row) (rw same h) ∙ same

-- How often the status of a job changes along a history.
pub changes : List (ℕ × Action) → Job → ℕ
changes [] row = 0
changes ((now, a) ∷ rest) row =
    (if same_status (act now a row).status row.status then 0 else 1) + changes rest (act now a row)

-- A job changes its status three times at most, however long its history.
pub changes_bounded :
    (calls : List (ℕ × Action)) (row : Job) → changes calls row + phase row.status ≤ 3
unfolding changes
changes_bounded [] row = ground arith
changes_bounded ((now, a) ∷ rest) row =
    ground (arith, act-phase now a row, changes_bounded rest (act now a row))
