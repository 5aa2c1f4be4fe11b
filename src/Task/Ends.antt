-- ===== src/Task/Ends.antt =====
-- Rules on how a task ends its job (backend/apps/jobs/services.py).
use node_pilot.Common.{
  ℕ, zero, suc, ◌≡◌, ◌≢◌, ◌⊎◌, String, Option, none, some, List, [], ◌∷◌, arith,
}
use node_pilot.Common.Error.{Error, job_cancelled}
use node_pilot.Common.Exec.{Result, ok, err, Exec, catch, ◌>>=◌, ◌>>◌}
use node_pilot.Jobs.Model.{queued, running, success, failed, canceling}
use node_pilot.Jobs.Services.{before_start, on_failure}
use node_pilot.Task.Protocol.{OperationType, AgentResponse}
use node_pilot.Task.World.{World, Lock, transition, with_lock, update, read, emit}
use node_pilot.Task.Agent.{send_operation, poll}
use node_pilot.Task.Run.{enter_step, end_step, job_run, fail_job, fail_and_emit, celery_run}
use node_pilot.Task.Keeps.{
  Ends, Runs-by, Runs, Runs-bind, Runs-catch, Runs-weaken, Runs-pure, Runs-gets, Runs-when,
  Runs-for_each, lock-Runs,
}

poll_never_cancels :
    (n : ℕ) (reads : List (Option AgentResponse)) → poll n reads ≢ err job_cancelled
unfolding poll
poll_never_cancels zero reads = ground arith
poll_never_cancels (suc n) [] = ground arith
poll_never_cancels (suc n) (none ∷ reads) = poll_never_cancels n reads
poll_never_cancels (suc n) (some r ∷ reads) = ground arith

module _ {P R : Type 0} where
  -- The row of a task that is at work.
  abbrev pub IsBusy : World P R → Type 0
  IsBusy w = (w.row.status ≡ running) ⊎ (w.row.status ≡ canceling)

  -- The row of a task at a step: a row that waits is one that the task's object also has so.
  abbrev pub IsOpen : World P R → Type 0
  IsOpen w =
      ((w.row.status ≡ queued) × (w.job.status ≡ queued))
      ⊎ (w.row.status ≡ running)
      ⊎ (w.row.status ≡ canceling)

  -- The row of a task that raised: not ended, or failed.
  abbrev pub IsStopped : Error → World P R → Type 0
  IsStopped _ w =
      (w.row.status ≡ queued)
      ⊎ (w.row.status ≡ running)
      ⊎ (w.row.status ≡ canceling)
      ⊎ (w.row.status ≡ failed)

  -- Inside a step, moreover, nothing raises `JobCancelled`.
  abbrev pub IsHalted : Error → World P R → Type 0
  IsHalted e w = IsStopped e w × (e ≢ job_cancelled)

  abbrev pub IsSucceeded : World P R → Type 0
  IsSucceeded w = w.row.status ≡ success

  abbrev pub IsFailed : Error → World P R → Type 0
  IsFailed _ w = w.row.status ≡ failed

  row_after_send :
      (op : OperationType) (payload : P) (timeout : ℕ) (w : World P R)
      → IsBusy w
      → IsBusy (send_operation op payload timeout w).1
  unfolding send_operation
  row_after_send op payload timeout w h = ground arith

  send_never_cancels :
      (op : OperationType) (payload : P) (timeout : ℕ) (w : World P R)
      → (send_operation op payload timeout w).0 ≢ err job_cancelled
  unfolding send_operation
  send_never_cancels op payload timeout w = grind (arith, poll_never_cancels)

  enter_step-Runs : (step : String) → Runs IsOpen IsBusy IsStopped (enter_step step)
  unfolding enter_step
  enter_step-Runs step =
      Runs-by (enter_step step) (λ w h a p. ground arith) (λ w h e p. ground arith)

  end_step-Runs : (A : Type 0) (e : Error) → Runs (IsHalted e) IsBusy IsStopped (end_step {A = A} e)
  unfolding end_step
  end_step-Runs A e =
      Runs-by (end_step {A = A} e) (λ w h a p. ground arith) (λ w h x p. ground arith)

  fail_job-Runs :
      (A : Type 0) (e : Error) → Runs (IsStopped e) IsSucceeded IsFailed (fail_job {A = A} e)
  unfolding fail_job
  fail_job-Runs A e =
      Runs-by (fail_job {A = A} e) (λ w h a p. ground arith) (λ w h x p. ground arith)

  pub send_operation-Runs :
      (op : OperationType) (payload : P) (timeout : ℕ)
      → Runs IsBusy IsBusy IsHalted (send_operation {R = R} op payload timeout)
  send_operation-Runs op payload timeout =
      Runs-by (send_operation op payload timeout) (λ w h a p. row_after_send op payload timeout w h)
        (λ w h e p.
          ground
            (arith, row_after_send op payload timeout w h, send_never_cancels op payload timeout w))

  pub update-Runs : (f : R → R) → Runs IsBusy IsBusy IsHalted (update {P = P} f)
  update-Runs f = record { at = λ w h. h }

  pub read-Runs :
      {A : Type 0} {G : World P R → Type 0} {E : Error → World P R → Type 0} (f : R → A)
      → Runs G G E (read {P = P} f)
  read-Runs f = record { at = λ w h. h }

  -- A step whose body keeps the job at work ends at work, or stops with the job not succeeded
  -- and not canceled.
  pub job_run-Runs :
      {A : Type 0} (step : String) (body : Exec (World P R) A)
      → Runs IsBusy IsBusy IsHalted body
      → Runs IsOpen IsBusy IsStopped (job_run step body)
  unfolding job_run
  job_run-Runs {A} step body k =
      Runs-bind (enter_step step) (λ _. catch body end_step) (enter_step-Runs step)
        (λ _. Runs-catch body end_step k (end_step-Runs A))

  IsBusy-IsOpen : (w : World P R) → IsBusy w → IsOpen w
  IsBusy-IsOpen w h = ground arith

  -- The same for a later step of the task.
  pub later_step-Runs :
      {A : Type 0} (step : String) (body : Exec (World P R) A)
      → Runs IsBusy IsBusy IsHalted body
      → Runs IsBusy IsBusy IsStopped (job_run step body)
  later_step-Runs step body k =
      Runs-weaken (job_run step body) IsBusy-IsOpen (λ w h. h) (λ e w h. h)
        (job_run-Runs step body k)

  pub with_lock-Runs :
      {A : Type 0} (l : Lock) (body : Exec (World P R) A)
      → Runs IsOpen IsBusy IsStopped body
      → Runs IsOpen IsBusy IsStopped (with_lock l body)
  with_lock-Runs l body k =
      lock-Runs l body (λ w h. h) (λ w h. h) (λ e w h. h) (λ e w h. ground arith) k

  pub succeed-Runs :
      (m : Option String)
      → Runs IsBusy IsSucceeded IsStopped (transition {P = P} {R = R} success m none)
  unfolding transition
  succeed-Runs m =
      Runs-by (transition success m none) (λ w h a p. ground arith) (λ w h e p. ground arith)

  -- What leaves the job alone and does not raise `JobCancelled`: a component's own writes.
  pub record IsQuiet {A : Type 0} (m : Exec (World P R) A) : Type 0 where
    pub same_row : (w : World P R) → (m w).1.row ≡ w.row
    pub never_cancels : (w : World P R) → (m w).0 ≢ err job_cancelled

  pub quiet-Runs : {A : Type 0} (m : Exec (World P R) A) → IsQuiet m → Runs IsBusy IsBusy IsHalted m
  quiet-Runs m q =
      Runs-by m (λ w h a p. rw (q.same_row w) h)
        (λ w h e p. ground (arith, q.same_row w, q.never_cancels w))

  pub quiet_after-Runs :
      {A : Type 0} (m : Exec (World P R) A) (e : Error)
      → IsQuiet m
      → Runs (IsStopped e) (IsStopped e) IsStopped m
  quiet_after-Runs m e q =
      Runs-by m (λ w h a p. rw (q.same_row w) h) (λ w h x p. rw (q.same_row w) h)

  pub quiet_between-Runs :
      {A : Type 0} (m : Exec (World P R) A) → IsQuiet m → Runs IsBusy IsBusy IsStopped m
  quiet_between-Runs m q =
      Runs-by m (λ w h a p. rw (q.same_row w) h) (λ w h x p. ground (arith, q.same_row w))

  pub fail_job-Stops :
      (A : Type 0) (e : Error) → Runs (IsStopped e) IsSucceeded IsStopped (fail_job {A = A} e)
  fail_job-Stops A e =
      Runs-weaken (fail_job e) (λ w h. h) (λ w h. h) (λ x w h. ground arith) (fail_job-Runs A e)

  pub fail_and_emit-Stops :
      (A : Type 0) (event : String) (e : Error)
      → Runs (IsStopped e) IsSucceeded IsStopped (fail_and_emit {A = A} event e)
  unfolding fail_and_emit
  fail_and_emit-Stops A event e =
      Runs-by (fail_and_emit {A = A} event e) (λ w h a p. ground arith) (λ w h x p. ground arith)

  -- A handler that writes rows and then fails the job.
  pub handler-Runs :
      {A : Type 0} (m : Exec (World P R) (Unit {0})) (e : Error)
      → IsQuiet m
      → Runs (IsStopped e) IsSucceeded IsStopped (m >> fail_job {A = A} e)
  handler-Runs {A} m e q =
      Runs-bind m (λ _. fail_job e) (quiet_after-Runs m e q) (λ _. fail_job-Stops A e)

  pub emit-Runs :
      (event : String) → Runs IsSucceeded IsSucceeded IsStopped (emit {P = P} {R = R} event)
  emit-Runs event = record { at = λ w h. h }

  on_failure-Ends :
      {A : Type 0} (x : Result A × World P R)
      → Ends {A = A} IsSucceeded IsStopped x
      → Ends {A = A} IsSucceeded IsFailed (elim x.0 [
        | ok a ↦ (ok a, x.1)
        | err e ↦ (err e, record (x.1) { row = on_failure x.1.now e x.1.row })
      ])
  unfolding on_failure
  on_failure-Ends (ok a, w) h = h
  on_failure-Ends (err e, w) h = ground arith

  -- Run by Celery, a task that stops short of an ended job fails it.
  pub celery_run-Runs :
      {A : Type 0} (task_id : String) (body : Exec (World P R) A)
      → Runs IsOpen IsSucceeded IsStopped body
      → Runs IsOpen IsSucceeded IsFailed (celery_run task_id body)
  unfolding celery_run
  celery_run-Runs id body k = record {
    at = λ w h. on_failure-Ends (body (record w { row = before_start id w.row })) (k.at _ h);
  }

  on_failure-Ends_rows :
      {A : Type 0} (H K : R → Type 0) (x : Result A × World P R)
      → Ends {A = A} (λ w. IsSucceeded w × H w.res) (λ e w. IsStopped e w × K w.res) x
      → Ends {A = A}
          (λ w. IsSucceeded w × H w.res)
          (λ e w. IsFailed e w × K w.res)
          (elim x.0 [
            | ok a ↦ (ok a, x.1)
            | err e ↦ (err e, record (x.1) { row = on_failure x.1.now e x.1.row })
          ])
  on_failure-Ends_rows H K (ok a, w) h = h
  on_failure-Ends_rows {A} H K (err e, w) h = (on_failure-Ends {A = A} (err e, w) h.0, h.1)

  -- The same with what the task makes of the rows.
  pub celery_run-Rows :
      {A : Type 0} (G H K : R → Type 0) (task_id : String) (body : Exec (World P R) A)
      → Runs
          (λ w. IsOpen w × G w.res)
          (λ w. IsSucceeded w × H w.res)
          (λ e w. IsStopped e w × K w.res)
          body
      → Runs
          (λ w. IsOpen w × G w.res)
          (λ w. IsSucceeded w × H w.res)
          (λ e w. IsFailed e w × K w.res)
          (celery_run task_id body)
  unfolding celery_run
  celery_run-Rows G H K id body k = record {
    at = λ w h.
        on_failure-Ends_rows H K (body (record w { row = before_start id w.row })) (k.at _ h);
  }

  -- A call of the agent, and a part of a handler, after the task stopped.
  pub send_after-Runs :
      (e : Error) (op : OperationType) (payload : P) (timeout : ℕ)
      → Runs (IsStopped e) (IsStopped e) IsStopped (send_operation {R = R} op payload timeout)
  unfolding send_operation
  send_after-Runs e op payload timeout =
      Runs-by (send_operation op payload timeout) (λ w h a p. ground arith)
        (λ w h x p. ground arith)

  -- Inside a step every part keeps the job at work.
  pub body-Runs :
      {A B : Type 0} (m : Exec (World P R) A) (f : A → Exec (World P R) B)
      → Runs IsBusy IsBusy IsHalted m
      → ((a : A) → Runs IsBusy IsBusy IsHalted (f a))
      → Runs IsBusy IsBusy IsHalted (m >>= f)
  body-Runs m f km kf = Runs-bind m f km kf

  -- One statement after another.
  pub then-Runs :
      {A : Type 0} {B M Q : World P R → Type 0} (m : Exec (World P R) (Unit {0}))
      (k : Exec (World P R) A)
      → Runs B M IsStopped m
      → Runs M Q IsStopped k
      → Runs B Q IsStopped (m >> k)
  then-Runs m k km kk = Runs-bind m (λ _. k) km (λ _. kk)

  -- Steps, the transition to SUCCESS, an event.
  pub finish-Runs :
      (m : Exec (World P R) (Unit {0})) (text event : String)
      → Runs IsOpen IsBusy IsStopped m
      → Runs IsOpen IsSucceeded IsStopped (m >> (transition success (some text) none >> emit event))
  finish-Runs m text event k =
      Runs-bind m (λ _. transition success (some text) none >> emit event) k
        (λ _.
          Runs-bind (transition success (some text) none) (λ _. emit event)
            (succeed-Runs (some text)) (λ _. emit-Runs event))

pub ruleset body_rules = (
  body-Runs, send_operation-Runs, read-Runs, update-Runs, quiet-Runs, Runs-when, Runs-for_each,
  Runs-pure,
)
