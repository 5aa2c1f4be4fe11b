-- ===== src/Task/Saved.antt =====
-- Tasks on one object and its row: Django's `save(update_fields=…)` and `delete()`.
use node_pilot.Common.{refl, String, Option, none, some, arith}
use node_pilot.Common.Error.{Error, row_gone}
use node_pilot.Common.Exec.{ok, err, Exec, ◌>>◌}
use node_pilot.Task.World.{World, update}
use node_pilot.Task.Run.{fail_job, fail_and_emit}
use node_pilot.Task.Keeps.{Runs, Runs-bind}
use node_pilot.Task.Locked.{IsSilent}
use node_pilot.Task.Ends.{
  IsStopped, IsSucceeded, IsQuiet, handler-Runs, quiet_after-Runs, fail_and_emit-Stops,
}

-- The task's object, and the row of the table.
pub record Saved (A : Type 0) : Type 0 where
  pub object : A
  pub stored : Option A

module _ {P A : Type 0} where
  -- `change` is made to the object, and `copy` writes the saved fields to the row; a save of a
  -- row that is gone raises.
  unfoldable pub save_object : (A → A) → (A → A → A) → Exec (World P (Saved A)) (Unit {0})
  save_object change copy w =
      let object = change w.res.object in
      elim w.res.stored [
        | none ↦ (err row_gone, record w { res = record { object = object; stored = none } })
        | some row ↦
            (ok tt, record w { res = record { object = object; stored = some (copy object row) } })
      ]

  unfoldable pub delete_object : Exec (World P (Saved A)) (Unit {0})
  delete_object = update (λ r. record r { stored = none })

  pub save_object-IsQuiet : (change : A → A) (copy : A → A → A) → IsQuiet (save_object change copy)
  unfolding save_object
  save_object-IsQuiet change copy = record {
    same_row = λ w. ground arith;
    never_cancels = λ w. ground arith;
  }

  pub delete_object-IsQuiet : IsQuiet delete_object
  unfolding delete_object
  delete_object-IsQuiet = record { same_row = λ w. refl; never_cancels = λ w. ground arith }

  pub save_object-IsSilent :
      (change : A → A) (copy : A → A → A) → IsSilent (save_object change copy)
  unfolding save_object
  save_object-IsSilent change copy = record {
    same_sent = λ w. ground arith;
    same_held = λ w. ground arith;
  }

  pub delete_object-IsSilent : IsSilent delete_object
  unfolding delete_object
  delete_object-IsSilent = record { same_sent = λ w. refl; same_held = λ w. refl }

  -- A handler that saves the object and then fails the job.
  pub save_then_fail-Runs :
      (e : Error) (change : A → A) (copy : A → A → A)
      → Runs
          (IsStopped e)
          IsSucceeded
          IsStopped
          (save_object change copy >> fail_job {A = Unit {0}} e)
  save_then_fail-Runs e change copy =
      handler-Runs (save_object change copy) e (save_object-IsQuiet change copy)

  pub save_then_emit-Runs :
      (e : Error) (event : String) (change : A → A) (copy : A → A → A)
      → Runs
          (IsStopped e)
          IsSucceeded
          IsStopped
          (save_object change copy >> fail_and_emit {A = Unit {0}} event e)
  save_then_emit-Runs e event change copy =
      Runs-bind (save_object change copy) (λ _. fail_and_emit event e)
        (quiet_after-Runs (save_object change copy) e (save_object-IsQuiet change copy))
        (λ _. fail_and_emit-Stops (Unit {0}) event e)

pub ruleset saved_rules = (save_object-IsQuiet, delete_object-IsQuiet)
