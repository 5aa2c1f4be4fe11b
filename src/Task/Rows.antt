-- ===== src/Task/Rows.antt =====
-- What task code does to the rows of its component: agent calls, job steps and transitions leave
-- them alone, so that a property of the rows passes through a task by its own writes only.
use node_pilot.Common.{ℕ, ◌≡◌, ◌≢◌, String, Option, arith}
use node_pilot.Common.Error.{Error}
use node_pilot.Common.Exec.{ok, Exec, catch}
use node_pilot.Jobs.Model.{JobStatus}
use node_pilot.Task.Protocol.{OperationType}
use node_pilot.Task.World.{World, Lock, transition, with_lock}
use node_pilot.Task.Agent.{send_operation}
use node_pilot.Task.Run.{enter_step, end_step, job_run, fail_job}
use node_pilot.Task.Keeps.{Runs, Runs-by, Runs-bind, Runs-catch, Runs-weaken, lock-Runs}

module _ {P R : Type 0} where
  abbrev pub OnRows : (R → Type 0) → World P R → Type 0
  OnRows G w = G w.res

  pub record IsFrame {A : Type 0} (m : Exec (World P R) A) : Type 0 where
    pub same_rows : (w : World P R) → (m w).1.res ≡ w.res

  pub frame-Runs :
      {A : Type 0} (G : R → Type 0) (m : Exec (World P R) A)
      → IsFrame m
      → Runs (OnRows G) (OnRows G) (λ _. OnRows G) m
  frame-Runs G m f = Runs-by m (λ w h a p. rw (f.same_rows w) h) (λ w h e p. rw (f.same_rows w) h)

  pub send-IsFrame :
      (op : OperationType) (payload : P) (timeout : ℕ) → IsFrame (send_operation op payload timeout)
  unfolding send_operation
  send-IsFrame op payload timeout = record { same_rows = λ w. ground arith }

  pub transition-IsFrame :
      (s : JobStatus) (m : Option String) (e : Option Error) → IsFrame (transition s m e)
  unfolding transition
  transition-IsFrame s m e = record { same_rows = λ w. ground arith }

  pub enter_step-IsFrame : (step : String) → IsFrame (enter_step step)
  unfolding enter_step
  enter_step-IsFrame step = record { same_rows = λ w. ground arith }

  pub end_step-IsFrame : (A : Type 0) (e : Error) → IsFrame (end_step {A = A} e)
  unfolding end_step
  end_step-IsFrame A e = record { same_rows = λ w. ground arith }

  pub fail_job-IsFrame : (A : Type 0) (e : Error) → IsFrame (fail_job {A = A} e)
  unfolding fail_job
  fail_job-IsFrame A e = record { same_rows = λ w. ground arith }

  end_step_raises : (A : Type 0) (e : Error) (w : World P R) (a : A) → (end_step e w).0 ≢ ok a
  unfolding end_step
  end_step_raises A e w a = ground arith

  pub fail_job_raises : (A : Type 0) (e : Error) (w : World P R) (a : A) → (fail_job e w).0 ≢ ok a
  unfolding fail_job
  fail_job_raises A e w a = ground arith

  -- What always raises has any postcondition for a return.
  pub raising-Runs :
      {A : Type 0} (H K : R → Type 0) (m : Exec (World P R) A)
      → IsFrame m
      → ((w : World P R) (a : A) → (m w).0 ≢ ok a)
      → Runs (OnRows K) (OnRows H) (λ _. OnRows K) m
  raising-Runs H K m f raises =
      Runs-by m (λ w h a p. absurd (raises w a p)) (λ w h e p. rw (f.same_rows w) h)

  -- A step does to the rows what its body does, or nothing.
  pub job_run-OnRows :
      {A : Type 0} (G H K : R → Type 0) (step : String) (body : Exec (World P R) A)
      → ((r : R) → G r → K r)
      → Runs (OnRows G) (OnRows H) (λ _. OnRows K) body
      → Runs (OnRows G) (OnRows H) (λ _. OnRows K) (job_run step body)
  unfolding job_run
  job_run-OnRows {A} G H K step body stop k =
      Runs-bind (enter_step step) (λ _. catch body end_step)
        (Runs-weaken (enter_step step) (λ w h. h) (λ w h. h) (λ e w h. stop w.res h)
          (frame-Runs G (enter_step step) (enter_step-IsFrame step)))
        (λ _.
          Runs-catch body end_step k
            (λ e. raising-Runs H K (end_step e) (end_step-IsFrame A e) (end_step_raises A e)))

  pub lock-OnRows :
      {A : Type 0} (G H K : R → Type 0) (l : Lock) (body : Exec (World P R) A)
      → ((r : R) → G r → K r)
      → Runs (OnRows G) (OnRows H) (λ _. OnRows K) body
      → Runs (OnRows G) (OnRows H) (λ _. OnRows K) (with_lock l body)
  lock-OnRows G H K l body stop k =
      lock-Runs l body (λ w h. h) (λ w h. h) (λ e w h. h) (λ e w h. stop w.res h) k
