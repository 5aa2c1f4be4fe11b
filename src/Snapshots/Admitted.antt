-- ===== src/Snapshots/Admitted.antt =====
-- When the snapshot services (backend/apps/snapshots/services.py) queue an operation.
use node_pilot.Common.{ℕ, String, true, false, Option, some, List, ◌≡◌, ◌↔◌, arith}
use node_pilot.Common.Exec.{is_ok}
use node_pilot.Task.World.{storage}
use node_pilot.Vm.Model.{VirtualMachine, VmDisk}
use node_pilot.Quota.Check.{check_and_reserve}
use node_pilot.Snapshots.Model.{ready, Snapshot}
use node_pilot.Snapshots.Services.{
  Desk, one_snapshot, snapshot_capable, is_taken, submit, create_snapshot, delete_snapshot,
  rollback_snapshot,
}

-- A snapshot is begun where all disks allow it, the quota has room for one more, no storage
-- operation runs on the VM, and no snapshot of the VM has the name.
created_iff :
    (uuid : ℕ) (label : String) (vm : VirtualMachine) (disks : List VmDisk) (name text : String)
    (user : Option ℕ) (desk : Desk)
    → (is_ok (create_snapshot uuid label vm disks name text user desk).0 ≡ true) ↔ (
        (snapshot_capable disks ≡ true)
        × (is_ok (
              check_and_reserve desk.quotas desk.entries vm.organization
                (some vm.project)
                one_snapshot)
            ≡ true)
        × (desk.busy storage ≡ false)
        × (is_taken vm.uuid name desk.snapshots ≡ false))
unfolding create_snapshot submit is_ok
created_iff uuid label vm disks name text user desk = ground arith

-- A refused creation changes nothing.
refused_unchanged :
    (uuid : ℕ) (label : String) (vm : VirtualMachine) (disks : List VmDisk) (name text : String)
    (user : Option ℕ) (desk : Desk)
    → is_ok (create_snapshot uuid label vm disks name text user desk).0 ≡ false
    → (create_snapshot uuid label vm disks name text user desk).1 ≡ desk
unfolding create_snapshot submit is_ok
refused_unchanged uuid label vm disks name text user desk h = ground arith

-- A snapshot that failed can be deleted, but only a finished one can be rolled back to.
rolled_back-deletable :
    (label : String) (vm : VirtualMachine) (s : Snapshot) (user : Option ℕ) (desk : Desk)
    → is_ok (rollback_snapshot label vm s user desk).0 ≡ true
    → (s.status ≡ ready) × (is_ok (delete_snapshot label vm s user desk).0 ≡ true)
unfolding rollback_snapshot delete_snapshot submit is_ok
rolled_back-deletable label vm s user desk h = ground arith
