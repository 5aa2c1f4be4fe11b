-- ===== src/Backups/Tasks.antt =====
-- The backup tasks (backend/apps/backups/tasks.py).
use node_pilot.Common.{
  ℕ, String, Option, none, some, List, [], ◌∷◌, if◌then◌else◌, leb, or_else, filter_by, str_append,
}
use node_pilot.Common.Error.{Error, vm_has_no_disks}
use node_pilot.Common.Exec.{Exec, raise, gets, catch, ◌>>=◌, ◌>>◌}
use node_pilot.Jobs.Model.{success}
use node_pilot.Task.Protocol.{AgentData, create_backup, restore_backup}
use node_pilot.Task.World.{World, storage, transition, with_lock, read, emit}
use node_pilot.Task.Agent.{send_operation}
use node_pilot.Task.Run.{job_run, fail_job, fail_and_emit}
use node_pilot.Task.Saved.{Saved, save_object}
use node_pilot.Vm.Model.{VmDisk}
use node_pilot.Backups.Model.{
  BackupType, full, incremental, snapshot, running, completed, failed, restoring, Backup, Payload,
  backup_payload, restore_payload,
}

abbrev pub Task : Type 0
Task = Exec (World Payload (Saved Backup)) (Unit {0})

-- `order_by("boot_index").first()`: of equal indices, the first.
unfoldable pub first_by_index : List VmDisk → Option VmDisk
first_by_index [] = none
first_by_index (d ∷ ds) = elim (first_by_index ds) [
  | none ↦ some d
  | some e ↦ if leb d.boot_index e.boot_index then some d else some e
]

-- `_primary_disk`
unfoldable pub primary_disk : List VmDisk → Option VmDisk
unfolding first_by_index
primary_disk disks = elim (first_by_index (filter_by (λ d. d.bootable) disks)) [
  | some d ↦ some d
  | none ↦ first_by_index disks
]

abbrev pub type_name : BackupType → String
type_name full = "full"
type_name incremental = "incremental"
type_name snapshot = "snapshot"

abbrev pub copy_status : Backup → Backup → Backup
copy_status b row = record row { status = b.status }

abbrev pub copy_started : Backup → Backup → Backup
copy_started b row = record row { status = b.status; started_at = b.started_at }

abbrev pub copy_finished : Backup → Backup → Backup
copy_finished b row = record row { status = b.status; finished_at = b.finished_at }

abbrev pub copy_result : Backup → Backup → Backup
copy_result b row = record row {
  agent_backup_ref = b.agent_backup_ref;
  size_bytes = b.size_bytes;
  checksum = b.checksum;
  status = b.status;
  finished_at = b.finished_at;
}

-- What a finished backup takes from the agent's answer.
abbrev pub finished : ℕ → AgentData → Backup → Backup
finished now answer b = record b {
  agent_backup_ref = or_else answer.backup_ref "";
  size_bytes = or_else answer.size_bytes 0;
  checksum = or_else answer.checksum "";
  status = completed;
  finished_at = some now;
}

-- The agent call of each task, with the hour that it has, once there is a disk.
unfoldable pub take_backup : Option VmDisk → Task
unfolding save_object
take_backup none = raise vm_has_no_disks
take_backup (some disk) = do
  backup ← read (λ (r : Saved Backup). r.object)
  answer ←
      send_operation create_backup
        (backup_payload backup.uuid backup.type backup.target disk.volume_id) 3600
  now ← gets (λ (w : World Payload (Saved Backup)). w.now)
  save_object (finished now answer) copy_result

unfoldable pub put_back : Option VmDisk → Task
unfolding save_object
put_back none = raise vm_has_no_disks
put_back (some disk) = do
  backup ← read (λ (r : Saved Backup). r.object)
  send_operation restore_backup
      (restore_payload backup.agent_backup_ref backup.target disk.volume_id disk.format) 3600
  save_object (λ b. record b { status = completed }) copy_status

unfoldable pub run_backup : List VmDisk → Task
unfolding primary_disk take_backup save_object
run_backup disks = do
  now ← gets (λ (w : World Payload (Saved Backup)). w.now)
  save_object (λ b. record b { status = running; started_at = some now }) copy_started
  take_backup (primary_disk disks)

unfoldable pub backup_failed : Error → Task
unfolding save_object fail_and_emit
backup_failed exc = do
  now ← gets (λ (w : World Payload (Saved Backup)). w.now)
  save_object (λ b. record b { status = failed; finished_at = some now }) copy_finished
  fail_and_emit "BACKUP_FAILED" exc

-- `create_backup_task`; `type` is the type of the backup.
unfoldable pub create_backup_task : List VmDisk → BackupType → Task
unfolding run_backup backup_failed
create_backup_task disks type =
    catch
      (do
        with_lock storage (
            job_run (str_append "Creating " (str_append (type_name type) " backup"))
              (run_backup disks))
        transition success (some "Backup completed") none
        emit "BACKUP_COMPLETED")
      backup_failed

unfoldable pub run_restore : List VmDisk → Task
unfolding primary_disk put_back save_object
run_restore disks = do
  save_object (λ b. record b { status = restoring }) copy_status
  put_back (primary_disk disks)

-- `restore_backup_task`: the backup itself is unaffected by a failed restore.
unfoldable pub restore_backup_task : List VmDisk → Task
unfolding run_restore save_object
restore_backup_task disks =
    catch
      (do
        with_lock storage (job_run "Restoring backup" (run_restore disks))
        transition success (some "Restore completed") none)
      (λ exc. do save_object (λ b. record b { status = completed }) copy_status; fail_job exc)
