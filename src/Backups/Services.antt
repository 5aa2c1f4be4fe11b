-- ===== src/Backups/Services.antt =====
-- The services on backups (backend/apps/backups/services.py) and the scheduled tasks
-- (backend/apps/backups/tasks.py).
use node_pilot.Common.{
  ℕ, ◌+◌, String, Bool, true, false, not, ◌&&◌, Option, none, some, List, [], ◌∷◌, ◌++◌,
  if◌then◌else◌, ltb, ◌==◌, length, filter_by, map,
}
use node_pilot.Common.Error.{invalid_state_transition, vm_not_stopped, resource_locked}
use node_pilot.Common.Exec.{ok, err, Exec}
use node_pilot.Jobs.Model.{Job, JobType, backup_create, backup_restore}
use node_pilot.Jobs.Services.{create_job}
use node_pilot.Vm.Model.{VirtualMachine, VmStatus, stopped}
use node_pilot.Vm.Model
use node_pilot.Backups.Model.{
  BackupType, BackupStatus, pending, completed, deleted, BackupTarget, Backup,
}

abbrev pub is_completed : BackupStatus → Bool
is_completed completed = true
is_completed _ = false

-- The rows of backups, the jobs, and the tasks handed to Celery on commit: each its job's number
-- and its backup.
pub record Store : Type 0 where
  pub backups : List Backup
  pub jobs : List Job
  pub queued : List (ℕ × ℕ)

abbrev pub add_job : Job → ℕ → Store → Store
add_job job uuid s = record s {
  jobs = s.jobs ++ job ∷ [];
  queued = s.queued ++ (length s.jobs, uuid) ∷ [];
}

-- `create_job` as these services call it; `label` is the text of the backup's UUID.
abbrev pub backup_job : JobType → String → VirtualMachine → Option ℕ → Job
backup_job type label vm user = create_job type "Backup" label vm.organization vm.node user "" 600

-- A new row; its UUID is chosen by the database.
abbrev pub new_backup : ℕ → VirtualMachine → BackupTarget → BackupType → Backup
new_backup uuid vm target type = record {
  uuid = uuid;
  vm = vm.uuid;
  target = target;
  type = type;
  status = pending;
  size_bytes = 0;
  checksum = "";
  agent_backup_ref = "";
  started_at = none;
  finished_at = none;
  retention_expires_at = none;
}

-- `create_backup`; `busy` says that somebody holds the storage lock of the VM.
unfoldable pub create_backup :
    Bool → ℕ → String → VirtualMachine → BackupTarget → BackupType → Option ℕ → Exec Store Job
create_backup busy uuid label vm target type user s =
    if busy
    then (err resource_locked, s)
    else (let job = backup_job backup_create label vm user in
        (
          ok job,
          add_job job uuid
              (record s { backups = s.backups ++ new_backup uuid vm target type ∷ [] }),
        ))

-- `restore_backup`
unfoldable pub restore_backup : Bool → String → VirtualMachine → Backup → Option ℕ → Exec Store Job
restore_backup busy label vm backup user s =
    if not (is_completed backup.status)
    then (err invalid_state_transition, s)
    else if not (Model.same_status vm.status stopped)
    then (err vm_not_stopped, s)
    else if busy
    then (err resource_locked, s)
    else (let job = backup_job backup_restore label vm user in (ok job, add_job job backup.uuid s))

-- `delete_backup`, on the row.
abbrev pub delete_backup : Backup → Backup
delete_backup backup = record backup { status = deleted }

-- The filter of `apply_retention`.
unfoldable pub is_expired : ℕ → ℕ → Backup → Bool
is_expired now target backup =
    backup.target.id == target
    && is_completed backup.status
    && elim backup.retention_expires_at [ none ↦ false | some t ↦ ltb t now ]

-- `apply_retention`: the count, and the rows.
unfoldable pub apply_retention : ℕ → ℕ → List Backup → ℕ × List Backup
unfolding is_expired
apply_retention now target backups = (
  length (filter_by (is_expired now target) backups),
  map (λ b. if is_expired now target b then delete_backup b else b) backups,
)

-- `apply_retention_task`, over the targets that are enabled.
unfoldable pub apply_retention_all : ℕ → List BackupTarget → List Backup → ℕ × List Backup
unfolding apply_retention
apply_retention_all now [] backups = (0, backups)
apply_retention_all now (t ∷ ts) backups =
    if t.enabled
    then (let (count, backups') = apply_retention now t.id backups in
        let (total, backups'') = apply_retention_all now ts backups' in (count + total, backups''))
    else apply_retention_all now ts backups
