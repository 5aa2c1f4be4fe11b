-- ===== src/Task/Locked.antt =====
-- Under which locks a task sends its commands.
use node_pilot.Common.{
  ℕ, ◌≡◌, refl, ◌⊎◌, inl, inr, String, Bool, true, Option, some, none, List, [], ◌∷◌, ◌++◌, any,
  all, arith,
}
use node_pilot.Common.Error.{Error}
use node_pilot.Common.Exec.{Result, ok, err, Exec, catch, ◌>>=◌, ◌>>◌}
use node_pilot.Jobs.Model.{JobStatus, success}
use node_pilot.Task.Protocol.{OperationType}
use node_pilot.Task.World.{
  World, Lock, lifecycle, storage, same_lock, remove_lock, Command, transition, update, read, emit,
  with_lock,
}
use node_pilot.Task.Agent.{send_operation}
use node_pilot.Task.Run.{enter_step, end_step, job_run, fail_job, celery_run}
use node_pilot.Jobs.Services.{before_start, on_failure}
use node_pilot.Task.Keeps.{
  Ends, Runs, Runs-by, Runs-bind, Runs-catch, Runs-weaken, Runs-pure, Runs-when, Runs-for_each,
  lock-Runs,
}

abbrev pub holds : Lock → List Lock → Bool
holds l = any (same_lock l)

abbrev pub all_under : {P : Type 0} → Lock → List (Command P) → Bool
all_under l = all (λ c. holds l c.under)

all-append :
    {A : Type 0} (p : A → Bool) (xs ys : List A)
    → all p xs ≡ true
    → all p ys ≡ true
    → all p (xs ++ ys) ≡ true
all-append p [] ys h k = k
all-append p (x ∷ xs) ys h k = ground (arith, all-append p xs ys)

module _ {P R : Type 0} where
  -- Every command so far was sent under the lock.
  abbrev pub IsLocked : Lock → World P R → Type 0
  IsLocked l w = all_under l w.sent ≡ true

  -- Moreover the lock is held now.
  abbrev pub IsInside : Lock → World P R → Type 0
  IsInside l w = IsLocked l w × (holds l w.held ≡ true)

  pub record IsSilent {A : Type 0} (m : Exec (World P R) A) : Type 0 where
    pub same_sent : (w : World P R) → (m w).1.sent ≡ w.sent
    pub same_held : (w : World P R) → (m w).1.held ≡ w.held

  -- What sends nothing keeps every such property.
  pub silent-Runs :
      (l : Lock) {A : Type 0} (m : Exec (World P R) A)
      → IsSilent m
      → Runs (IsLocked l) (IsLocked l) (λ _. IsLocked l) m
  silent-Runs l m q = Runs-by m (λ w h a p. rw (q.same_sent w) h) (λ w h e p. rw (q.same_sent w) h)

  pub silent-Inside :
      (l : Lock) {A : Type 0} (m : Exec (World P R) A)
      → IsSilent m
      → Runs (IsInside l) (IsInside l) (λ _. IsInside l) m
  silent-Inside l m q =
      Runs-by m (λ w h a p. (rw (q.same_sent w) h.0, rw (q.same_held w) h.1))
        (λ w h e p. (rw (q.same_sent w) h.0, rw (q.same_held w) h.1))

  sent_inside :
      (l : Lock) (c : Command P) (w : World P R)
      → IsInside l w
      → c.under ≡ w.held
      → all_under l (w.sent ++ c ∷ []) ≡ true
  sent_inside l c w h same =
      all-append (λ c. holds l c.under) w.sent (c ∷ []) h.0 (ground (arith, h.1, same))

  send_held :
      (op : OperationType) (payload : P) (timeout : ℕ) (w : World P R)
      → (send_operation op payload timeout w).1.held ≡ w.held
  unfolding send_operation
  send_held op payload timeout w = ground arith

  send_sent :
      (op : OperationType) (payload : P) (timeout : ℕ) (w : World P R)
      → ((send_operation op payload timeout w).1.sent ≡ w.sent)
        ⊎ ((send_operation op payload timeout w).1.sent
            ≡ w.sent ++ (record { operation = op; payload = payload; under = w.held }) ∷ [])
  unfolding send_operation
  send_sent op payload timeout w = ground arith

  send-IsInside :
      (l : Lock) (op : OperationType) (payload : P) (timeout : ℕ) (w : World P R)
      → IsInside l w
      → IsInside l (send_operation op payload timeout w).1
  send-IsInside l op payload timeout w h = (
    elim (send_sent op payload timeout w) [
      | inl same ↦ rw same h.0
      | inr more ↦
          rw more
            (sent_inside l (record { operation = op; payload = payload; under = w.held }) w h refl)
    ],
    rw (send_held op payload timeout w) h.1,
  )

  pub send-Inside :
      (l : Lock) (op : OperationType) (payload : P) (timeout : ℕ)
      → Runs (IsInside l) (IsInside l) (λ _. IsInside l) (send_operation {R = R} op payload timeout)
  send-Inside l op payload timeout =
      Runs-by (send_operation op payload timeout)
        (λ w h a p. send-IsInside l op payload timeout w h)
        (λ w h e p. send-IsInside l op payload timeout w h)

  pub update-IsSilent : (f : R → R) → IsSilent (update {P = P} f)
  update-IsSilent f = record { same_sent = λ w. refl; same_held = λ w. refl }

  pub read-IsSilent : {A : Type 0} (f : R → A) → IsSilent (read {P = P} f)
  read-IsSilent f = record { same_sent = λ w. refl; same_held = λ w. refl }

  pub emit-IsSilent : (event : String) → IsSilent (emit {P = P} {R = R} event)
  emit-IsSilent event = record { same_sent = λ w. refl; same_held = λ w. refl }

  pub transition-IsSilent :
      (s : JobStatus) (m : Option String) (e : Option Error)
      → IsSilent (transition {P = P} {R = R} s m e)
  unfolding transition
  transition-IsSilent s m e = record {
    same_sent = λ w. ground arith;
    same_held = λ w. ground arith;
  }

  enter_step-IsSilent : (step : String) → IsSilent (enter_step step)
  unfolding enter_step
  enter_step-IsSilent step = record { same_sent = λ w. ground arith; same_held = λ w. ground arith }

  end_step-IsSilent : (A : Type 0) (e : Error) → IsSilent (end_step {A = A} e)
  unfolding end_step
  end_step-IsSilent A e = record { same_sent = λ w. ground arith; same_held = λ w. ground arith }

  pub fail_job-IsSilent : (A : Type 0) (e : Error) → IsSilent (fail_job {A = A} e)
  unfolding fail_job
  fail_job-IsSilent A e = record { same_sent = λ w. ground arith; same_held = λ w. ground arith }

  pub job_run-Inside :
      (l : Lock) {A : Type 0} (step : String) (body : Exec (World P R) A)
      → Runs (IsInside l) (IsInside l) (λ _. IsInside l) body
      → Runs (IsInside l) (IsInside l) (λ _. IsInside l) (job_run step body)
  unfolding job_run
  job_run-Inside l {A} step body k =
      Runs-bind (enter_step step) (λ _. catch body end_step)
        (silent-Inside l (enter_step step) (enter_step-IsSilent step))
        (λ _.
          Runs-catch body end_step k (λ e. silent-Inside l (end_step e) (end_step-IsSilent A e)))

  -- The task takes the lock: from here on it holds it, whatever is inside.
  pub take-Runs :
      (l : Lock) {A : Type 0} (body : Exec (World P R) A)
      → Runs (IsInside l) (IsInside l) (λ _. IsInside l) body
      → Runs (IsLocked l) (IsLocked l) (λ _. IsLocked l) (with_lock l body)
  take-Runs l body k =
      lock-Runs l body (λ w h. (h, held_now l w)) (λ w h. h.0) (λ e w h. h.0) (λ e w h. h) k
    where
      held_now : (l : Lock) (w : World P R) → holds l (l ∷ w.held) ≡ true
      held_now lifecycle w = refl
      held_now storage w = refl

  -- One more lock inside.
  pub nested-Runs :
      {A : Type 0} (body : Exec (World P R) A)
      → Runs (IsInside lifecycle) (IsInside lifecycle) (λ _. IsInside lifecycle) body
      → Runs
          (IsInside lifecycle)
          (IsInside lifecycle)
          (λ _. IsInside lifecycle)
          (with_lock storage body)
  nested-Runs body k =
      lock-Runs storage body (λ w h. h) (λ w h. (h.0, still_held w.held h.1))
        (λ e w h. (h.0, still_held w.held h.1)) (λ e w h. h) k
    where
      still_held :
          (ls : List Lock)
          → holds lifecycle ls ≡ true
          → holds lifecycle (remove_lock storage ls) ≡ true
      still_held [] h = h
      still_held (lifecycle ∷ ls) h = refl
      still_held (storage ∷ ls) h = h

  -- A lock taken first, in which the commands do not count.
  pub around-Runs :
      {A : Type 0} (k l : Lock) (body : Exec (World P R) A)
      → Runs (IsLocked l) (IsLocked l) (λ _. IsLocked l) body
      → Runs (IsLocked l) (IsLocked l) (λ _. IsLocked l) (with_lock k body)
  around-Runs k l body r = lock-Runs k body (λ w h. h) (λ w h. h) (λ e w h. h) (λ e w h. h) r

  on_failure-IsLocked :
      (l : Lock) {A : Type 0} (x : Result A × World P R)
      → Ends {A = A} (IsLocked l) (λ _. IsLocked l) x
      → Ends {A = A}
          (IsLocked l)
          (λ _. IsLocked l)
          (elim x.0 [
            | ok a ↦ (ok a, x.1)
            | err e ↦ (err e, record (x.1) { row = on_failure x.1.now e x.1.row })
          ])
  on_failure-IsLocked l (ok a, w) h = h
  on_failure-IsLocked l (err e, w) h = h

  -- Celery around the task sends nothing.
  pub celery-Runs :
      (l : Lock) {A : Type 0} (task_id : String) (body : Exec (World P R) A)
      → Runs (IsLocked l) (IsLocked l) (λ _. IsLocked l) body
      → Runs (IsLocked l) (IsLocked l) (λ _. IsLocked l) (celery_run task_id body)
  unfolding celery_run
  celery-Runs l id body k = record {
    at = λ w h. on_failure-IsLocked l (body (record w { row = before_start id w.row })) (k.at _ h);
  }

  -- Inside the lock, one statement after another.
  pub bind-Inside :
      (l : Lock) {A B : Type 0} (m : Exec (World P R) A) (f : A → Exec (World P R) B)
      → Runs (IsInside l) (IsInside l) (λ _. IsInside l) m
      → ((a : A) → Runs (IsInside l) (IsInside l) (λ _. IsInside l) (f a))
      → Runs (IsInside l) (IsInside l) (λ _. IsInside l) (m >>= f)
  bind-Inside l m f km kf = Runs-bind m f km kf

  pub then-Locked :
      (l : Lock) {A B : Type 0} (m : Exec (World P R) A) (k : Exec (World P R) B)
      → Runs (IsLocked l) (IsLocked l) (λ _. IsLocked l) m
      → Runs (IsLocked l) (IsLocked l) (λ _. IsLocked l) k
      → Runs (IsLocked l) (IsLocked l) (λ _. IsLocked l) (m >> k)
  then-Locked l m k km kk = Runs-bind m (λ _. k) km (λ _. kk)

  -- Steps, the transition to SUCCESS, an event.
  pub succeed-Locked :
      (l : Lock) (text event : String)
      → Runs
          (IsLocked l)
          (IsLocked l)
          (λ _. IsLocked l)
          (transition {P = P} {R = R} success (some text) none >> emit event)
  succeed-Locked l text event =
      then-Locked l (transition success (some text) none) (emit event)
        (silent-Runs l (transition success (some text) none)
          (transition-IsSilent success (some text) none))
        (silent-Runs l (emit event) (emit-IsSilent event))

pub ruleset inside_rules = (
  bind-Inside, send-Inside, silent-Inside, update-IsSilent, read-IsSilent, Runs-when, Runs-for_each,
  Runs-pure,
)
