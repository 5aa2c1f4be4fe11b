-- ===== src/Jobs/Model.antt =====
-- backend/apps/jobs/models.py: the job types, the statuses with their transitions, the row.
use node_pilot.Common.{ℕ, String, Bool, Option, List, [], ◌∷◌, ◌==◌, any}
use node_pilot.Common.Error.{Error}

pub data JobType : Type 0 where
  vm_create vm_start vm_stop vm_shutdown vm_reboot vm_reset vm_pause vm_resume : JobType
  vm_delete vm_clone vm_migrate : JobType
  disk_create disk_delete disk_resize disk_attach disk_detach : JobType
  nic_attach nic_detach network_create network_delete : JobType
  snapshot_create snapshot_delete snapshot_rollback backup_create backup_restore : JobType
  image_import webhook_delivery storage_pool_create : JobType

pub data JobStatus : Type 0 where
  queued running success failed canceling canceled : JobStatus

-- Enum members are told apart by their position.
abbrev pub status_index : JobStatus → ℕ
status_index queued = 0
status_index running = 1
status_index success = 2
status_index failed = 3
status_index canceling = 4
status_index canceled = 5

abbrev pub same_status : JobStatus → JobStatus → Bool
same_status a b = status_index a == status_index b

-- `status in statuses`
abbrev pub in_statuses : JobStatus → List JobStatus → Bool
in_statuses s = any (same_status s)

-- `TERMINAL_STATUSES`
abbrev pub terminal_statuses : List JobStatus
terminal_statuses = success ∷ failed ∷ canceled ∷ []

-- `VALID_TRANSITIONS`
unfoldable pub valid_transitions : JobStatus → List JobStatus
valid_transitions queued = running ∷ canceling ∷ canceled ∷ failed ∷ []
valid_transitions running = success ∷ failed ∷ canceling ∷ []
valid_transitions canceling = canceled ∷ failed ∷ success ∷ []
valid_transitions success = []
valid_transitions failed = []
valid_transitions canceled = []

-- `Job`: foreign keys are the primary keys of their rows; the blank `error` is `none`, and an
-- error text is the exception that it is the text of; a log entry is its time and its line.
pub record Job : Type 0 where
  pub type : JobType
  pub status : JobStatus
  pub organization : ℕ
  pub resource_type : String
  pub resource_id : String
  pub node : Option ℕ
  pub created_by : Option ℕ
  pub progress : ℕ
  pub message : String
  pub error : Option Error
  pub logs : List (ℕ × String)
  pub celery_task_id : String
  pub idempotency_key : String
  pub timeout_seconds : ℕ
  pub retries : ℕ
  pub started_at : Option ℕ
  pub finished_at : Option ℕ

-- `Job.is_terminal`
abbrev pub is_terminal : Job → Bool
is_terminal job = in_statuses job.status terminal_statuses
