-- ===== src/Vm/Services.antt =====
-- What the VM services admit (backend/apps/virtual_machines/services.py): the checks before a job
-- is made, and the job with its task queued on commit.
use node_pilot.Common.{
  ℕ, ◌-◌, ◌*◌, ◌/◌, String, Bool, true, not, Option, none, some, List, [], ◌∷◌, ◌++◌, any,
  if◌then◌else◌, leb, ◌==◌, length,
}
use node_pilot.Common.Error.{
  invalid_state_transition, resource_locked, migration_storage_incompatible,
  migration_not_implemented,
}
use node_pilot.Common.Exec.{ok, err, Exec, raise, ◌>>◌, raise_if}
use node_pilot.Jobs.Model.{
  Job, JobType, vm_start, vm_stop, vm_shutdown, vm_reboot, vm_reset, vm_pause, vm_resume, vm_delete,
  vm_clone, vm_migrate, disk_detach, disk_resize, nic_detach,
}
use node_pilot.Jobs.Services.{create_job}
use node_pilot.Task.World.{Lock, lifecycle, storage}
use node_pilot.Vm.Model.{
  VmStatus, stopped, running, paused, creating, in_statuses, VirtualMachine, VmDisk,
}
use node_pilot.Nodes.Model.{Node, is_schedulable}
use node_pilot.Quota.Check.{Quota, VmEntry, QuotaUsage, gib, check_and_reserve}

-- `_ALLOWED_FROM.get`
unfoldable pub allowed_from : JobType → Option (List VmStatus)
allowed_from vm_start = some (stopped ∷ [])
allowed_from vm_stop = some (running ∷ paused ∷ [])
allowed_from vm_shutdown = some (running ∷ [])
allowed_from vm_reboot = some (running ∷ [])
allowed_from vm_reset = some (running ∷ paused ∷ [])
allowed_from vm_pause = some (running ∷ [])
allowed_from vm_resume = some (paused ∷ [])
allowed_from vm_delete = some (stopped ∷ VmStatus.error ∷ creating ∷ [])
allowed_from vm_clone = some (stopped ∷ [])
allowed_from vm_migrate = some (running ∷ stopped ∷ [])
allowed_from _ = none

abbrev pub is_allowed : JobType → VmStatus → Bool
unfolding allowed_from
is_allowed type status = elim (allowed_from type) [
  | none ↦ true
  | some statuses ↦ in_statuses status statuses
]

-- The jobs, and the numbers of those whose task is handed to Celery on commit; the quotas and the
-- VMs that count for them; and which locks of the VM others hold.
pub record Site : Type 0 where
  pub jobs : List Job
  pub queued : List ℕ
  pub quotas : List Quota
  pub entries : List VmEntry
  pub busy : Lock → Bool

-- `create_job` and `transaction.on_commit`; `label` is the text of the VM's UUID.
unfoldable pub submit : JobType → String → VirtualMachine → Option ℕ → Exec Site Job
submit type label vm user s =
    let job = create_job type "VirtualMachine" label vm.organization vm.node user "" 600 in
    (ok job, record s { jobs = s.jobs ++ job ∷ []; queued = s.queued ++ length s.jobs ∷ [] })

-- The optimistic look at a lock, taken and given back at once.
unfoldable pub probe : Lock → Exec Site (Unit {0})
probe lock s = (if s.busy lock then err resource_locked else ok tt, s)

-- `_start_lifecycle_job`
unfoldable pub start_lifecycle_job : JobType → String → VirtualMachine → Option ℕ → Exec Site Job
unfolding probe submit
start_lifecycle_job type label vm user = do
  raise_if (not (is_allowed type vm.status)) invalid_state_transition
  probe lifecycle
  submit type label vm user

-- `start_vm`, `stop_vm`, `reboot_vm`, `pause_vm`, `resume_vm`, `delete_vm`: the type of the job.
pub data Lifecycle : Type 0 where
  starts pauses resumes deletes : Lifecycle
  stops reboots : Bool → Lifecycle

unfoldable pub type_of : Lifecycle → JobType
type_of starts = vm_start
type_of (stops force) = if force then vm_stop else vm_shutdown
type_of (reboots force) = if force then vm_reset else vm_reboot
type_of pauses = vm_pause
type_of resumes = vm_resume
type_of deletes = vm_delete

-- `_start_storage_job`
unfoldable pub start_storage_job : JobType → String → VirtualMachine → Option ℕ → Exec Site Job
unfolding probe submit
start_storage_job type label vm user = do probe storage; submit type label vm user

-- `detach_disk`
unfoldable pub detach_disk : String → VirtualMachine → VmDisk → Option ℕ → Exec Site Job
unfolding start_storage_job
detach_disk label vm disk user = do
  raise_if disk.bootable invalid_state_transition
  start_storage_job disk_detach label vm user

abbrev pub storage_only : ℕ → QuotaUsage
storage_only gb = record { vms = 0; vcpu = 0; memory_mb = 0; storage_gb = gb; snapshots = 0 }

-- `resize_disk`
unfoldable pub resize_disk : String → VirtualMachine → VmDisk → ℕ → Option ℕ → Exec Site Job
unfolding check_and_reserve start_storage_job
resize_disk label vm disk new_size_gb user s =
    let new_size_bytes = new_size_gb * gib in
    if leb new_size_bytes disk.size_bytes
    then (err invalid_state_transition, s)
    else elim (check_and_reserve s.quotas s.entries vm.organization (some vm.project)
        (storage_only ((new_size_bytes - disk.size_bytes) / gib))) [
          | err e ↦ (err e, s)
          | ok _ ↦ start_storage_job disk_resize label vm user s
        ]

-- `detach_nic`
unfoldable pub detach_nic : String → VirtualMachine → Option ℕ → Exec Site Job
unfolding start_storage_job
detach_nic label vm user = start_storage_job nic_detach label vm user

-- `clone_vm`: the quota for a VM like this one, then the job.
unfoldable pub clone_vm : String → VirtualMachine → ℕ → Option ℕ → Exec Site Job
unfolding check_and_reserve submit
clone_vm label vm disk_bytes user s =
    if not (is_allowed vm_clone vm.status)
    then (err invalid_state_transition, s)
    else elim (check_and_reserve s.quotas s.entries vm.organization (some vm.project) (record {
      vms = 1;
      vcpu = vm.cpu_count;
      memory_mb = vm.memory_mb;
      storage_gb = disk_bytes / gib;
      snapshots = 0;
    })) [ err e ↦ (err e, s) | ok _ ↦ submit vm_clone label vm user s ]

abbrev pub has_local_disk : List VmDisk → Bool
has_local_disk disks = any (λ d. not d.storage.shared) disks

-- `migrate_vm`
unfoldable pub migrate_vm : ℕ → ℕ → VirtualMachine → List VmDisk → Node → Exec Site Job
unfolding is_schedulable
migrate_vm now threshold vm disks target = do
  raise_if (not (is_allowed vm_migrate vm.status)) invalid_state_transition
  raise_if (not (target.organization == vm.organization)) invalid_state_transition
  raise_if (not (is_schedulable now threshold target)) invalid_state_transition
  raise_if (has_local_disk disks) migration_storage_incompatible
  raise migration_not_implemented
