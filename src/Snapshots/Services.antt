-- ===== src/Snapshots/Services.antt =====
-- What the snapshot services admit (backend/apps/snapshots/services.py): the checks, the row of a
-- new snapshot, and the job with its task queued on commit.
use node_pilot.Common.{
  ℕ, String, Bool, not, Option, some, List, [], ◌∷◌, ◌++◌, all, any, str_eq, ◌==◌, ◌&&◌, ◌||◌,
  length, if◌then◌else◌,
}
use node_pilot.Common.Error.{
  storage_capability_unsupported, resource_locked, invalid_state_transition, integrity_error,
}
use node_pilot.Common.Exec.{ok, err, Exec, raise_if, modify, gets, ◌>>◌, ◌>>=◌}
use node_pilot.Jobs.Model.{Job, JobType, snapshot_create, snapshot_delete, snapshot_rollback}
use node_pilot.Jobs.Services.{create_job}
use node_pilot.Task.World.{Lock, storage}
use node_pilot.Storage.Model.{StorageCapability, supports}
use node_pilot.Vm.Model.{VirtualMachine, VmDisk}
use node_pilot.Quota.Check.{Quota, VmEntry, QuotaUsage, check_and_reserve}
use node_pilot.Snapshots.Model.{SnapshotStatus, same_status, creating, ready, Snapshot}

-- The task that `_enqueue` picks.
pub data Operation : Type 0 where
  create delete rollback : Operation

pub record Queued : Type 0 where
  pub job : ℕ
  pub snapshot : ℕ
  pub op : Operation

-- The rows, the tasks handed to Celery on commit, what counts for the quotas, and which locks of
-- the VM others hold.
pub record Desk : Type 0 where
  pub snapshots : List Snapshot
  pub jobs : List Job
  pub queued : List Queued
  pub quotas : List Quota
  pub entries : List VmEntry
  pub busy : Lock → Bool

-- `_assert_snapshot_capable`
abbrev pub snapshot_capable : List VmDisk → Bool
snapshot_capable disks = all (λ d. supports d.storage StorageCapability.snapshot) disks

-- `storage_lock(vm)` taken and given back at once.
abbrev pub probe : Exec Desk (Unit {0})
probe desk = (if desk.busy storage then err resource_locked else ok tt, desk)

abbrev pub type_of : Operation → JobType
type_of create = snapshot_create
type_of delete = snapshot_delete
type_of rollback = snapshot_rollback

-- `create_job` and `transaction.on_commit`; `label` is the text of the snapshot's UUID.
unfoldable pub submit : Operation → ℕ → String → VirtualMachine → Option ℕ → Exec Desk Job
submit op uuid label vm user desk =
    let job = create_job (type_of op) "Snapshot" label vm.organization vm.node user "" 600 in
    (
      ok job,
      record desk {
        jobs = desk.jobs ++ job ∷ [];
        queued = desk.queued ++ (record { job = length desk.jobs; snapshot = uuid; op = op }) ∷ [];
      },
    )

abbrev pub one_snapshot : QuotaUsage
one_snapshot = record { vms = 0; vcpu = 0; memory_mb = 0; storage_gb = 0; snapshots = 1 }

abbrev pub reserve : VirtualMachine → Exec Desk (Unit {0})
reserve vm desk = (
  check_and_reserve desk.quotas desk.entries vm.organization (some vm.project) one_snapshot,
  desk,
)

-- The unique pair of a VM and a name.
abbrev pub is_taken : ℕ → String → List Snapshot → Bool
is_taken vm name snapshots = any (λ s. s.vm == vm && str_eq s.name name) snapshots

unfoldable pub create_snapshot :
    ℕ → String → VirtualMachine → List VmDisk → String → String → Option ℕ → Exec Desk Job
unfolding submit
create_snapshot uuid label vm disks name description user = do
  raise_if (not (snapshot_capable disks)) storage_capability_unsupported
  reserve vm
  probe
  names ← gets (λ (desk : Desk). desk.snapshots)
  raise_if (is_taken vm.uuid name names) integrity_error
  modify (λ (desk : Desk). record desk {
    snapshots =
        desk.snapshots
        ++ (record {
          uuid = uuid;
          vm = vm.uuid;
          name = name;
          description = description;
          status = creating;
          size_bytes = 0;
          agent_snapshot_id = "";
        })
          ∷ [];
  })
  submit create uuid label vm user

abbrev pub deletable : SnapshotStatus → Bool
deletable status = same_status status ready || same_status status SnapshotStatus.error

unfoldable pub delete_snapshot : String → VirtualMachine → Snapshot → Option ℕ → Exec Desk Job
unfolding submit
delete_snapshot label vm snapshot user = do
  raise_if (not (deletable snapshot.status)) invalid_state_transition
  submit delete snapshot.uuid label vm user

unfoldable pub rollback_snapshot : String → VirtualMachine → Snapshot → Option ℕ → Exec Desk Job
unfolding submit
rollback_snapshot label vm snapshot user = do
  raise_if (not (same_status snapshot.status ready)) invalid_state_transition
  submit rollback snapshot.uuid label vm user
