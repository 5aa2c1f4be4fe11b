-- ===== src/Task/World.antt =====
-- What a Celery task sees and changes: the job's row and the task's own `Job` object (which
-- `transition` does not refresh), the locks of the VM, the answers that the environment will give
-- to agent calls, what was sent, the events emitted, and the rows `res` of the task's component.
use node_pilot.Common.{ℕ, String, Bool, true, false, Option, List, [], ◌∷◌, ◌++◌, if◌then◌else◌}
use node_pilot.Common.Error.{Error, lock_acquisition}
use node_pilot.Common.Exec.{ok, err, Exec, finally}
use node_pilot.Jobs.Model.{JobStatus, Job}
use node_pilot.Jobs.Services
use node_pilot.Task.Protocol.{OperationType, AgentResponse}

-- The locks of one VM (backend/apps/virtual_machines/locks.py).
pub data Lock : Type 0 where
  lifecycle storage : Lock

abbrev pub same_lock : Lock → Lock → Bool
same_lock lifecycle lifecycle = true
same_lock storage storage = true
same_lock _ _ = false

abbrev pub remove_lock : Lock → List Lock → List Lock
remove_lock l [] = []
remove_lock l (k ∷ ks) = if same_lock k l then ks else k ∷ remove_lock l ks

-- What happens during one agent call: how long it takes, whether a user cancels the job
-- meanwhile, the state of the node's agent, and what each poll of the response key reads.
pub record Reply : Type 0 where
  pub took : ℕ
  pub cancel : Bool
  pub usable : Bool
  pub connected : Bool
  pub polls : List (Option AgentResponse)

-- One command sent to the agent: the operation, its payload, and the locks held while sending.
pub record Command (P : Type 0) : Type 0 where
  pub operation : OperationType
  pub payload : P
  pub under : List Lock

-- `P` is the type of the payloads that the component sends, `R` that of its rows.
pub record World (P R : Type 0) : Type 0 where
  pub row : Job
  pub job : Job
  pub now : ℕ
  pub busy : Lock → Bool
  pub held : List Lock
  pub replies : List Reply
  pub sent : List (Command P)
  pub events : List String
  pub res : R

module _ {P R : Type 0} where
  -- The component's own writes.
  abbrev pub update : (R → R) → Exec (World P R) (Unit {0})
  update f w = (ok tt, record w { res = f w.res })

  abbrev pub read : {A : Type 0} → (R → A) → Exec (World P R) A
  read f w = (ok (f w.res), w)

  -- `emit_event`, by the type of the event.
  abbrev pub emit : String → Exec (World P R) (Unit {0})
  emit e w = (ok tt, record w { events = w.events ++ e ∷ [] })

  -- `transition(job, …)`: it reads and writes the row, never the task's object.
  unfoldable pub transition : JobStatus → Option String → Option Error → Exec (World P R) (Unit {0})
  unfolding Services.transition
  transition s m e w = elim (Services.transition w.now s m e w.row) [
    | ok row' ↦ (ok tt, record w { row = row' })
    | err x ↦ (err x, w)
  ]

  abbrev pub acquired : Lock → World P R → World P R
  acquired l w = record w { held = l ∷ w.held }

  abbrev pub released : Lock → World P R → World P R
  released l w = record w { held = remove_lock l w.held }

  -- `with lock:` of backend/apps/common/locks.py (`__enter__`, `__exit__`): `busy` says which
  -- locks stay taken by others for the ten seconds that `acquire` waits. The lock is held to the
  -- end: its lifetime, of 120 or 300 seconds, is left out.
  unfoldable pub with_lock : {A : Type 0} → Lock → Exec (World P R) A → Exec (World P R) A
  with_lock l body w =
      if w.busy l
      then (err (lock_acquisition (elim l [ lifecycle ↦ "lifecycle" | storage ↦ "storage" ])), w)
      else finally body (released l) (acquired l w)
