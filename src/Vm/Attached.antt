-- ===== src/Vm/Attached.antt =====
-- What attaching a disk or a NIC leaves, admitted or refused.
use node_pilot.Common.{
  ℕ, ◌+◌, String, true, false, Option, some, List, [], ◌∷◌, ◌++◌, ◌≡◌, ◌⊎◌, ap, length, arith,
}
use node_pilot.Common.Exec.{Exec, is_ok}
use node_pilot.Task.World.{storage}
use node_pilot.Storage.Model.{StoragePool}
use node_pilot.Vm.Model.{DiskBus, NicModel, VirtualMachine, VmDisk, NicNetwork}
use node_pilot.Quota.Check.{check_and_reserve}
use node_pilot.Vm.Services.{start_storage_job, storage_only, probe, submit}
use node_pilot.Vm.Attach.{Bay, atomic, new_disk, attach_disk, new_nic, attach_nic}

-- A transaction that raises leaves the state as it was.
atomic_unchanged :
    {S A : Type 0} (m : Exec S A) (s : S) → is_ok (atomic m s).0 ≡ false → (atomic m s).1 ≡ s
unfolding atomic is_ok
atomic_unchanged m s h = ground arith

-- A disk that is admitted was within the quota with no storage operation running, and it is added
-- at the end with a job and its task; one that is refused leaves everything as it was.
pub attach_disk_lem :
    (disk_name : ℕ → String) (uuid : ℕ) (label : String) (vm : VirtualMachine) (pool : StoragePool)
    (gb : ℕ) (bus : DiskBus) (user : Option ℕ) (bay : Bay)
    → let after = attach_disk disk_name uuid label vm pool gb bus user bay in
      ((is_ok after.0 ≡ false) × (after.1 ≡ bay))
      ⊎ ((is_ok after.0 ≡ true)
          × (is_ok (
                check_and_reserve bay.site.quotas bay.site.entries vm.organization
                  (some vm.project)
                  (storage_only gb))
              ≡ true)
          × (bay.site.busy storage ≡ false)
          × (after.1.disks ≡ bay.disks ++ new_disk disk_name uuid pool gb bus bay.disks ∷ [])
          × (after.1.site.queued ≡ bay.site.queued ++ length bay.site.jobs ∷ []))
unfolding attach_disk atomic is_ok start_storage_job probe submit
attach_disk_lem disk_name uuid label vm pool gb bus user bay = ground arith

-- The same for a NIC, which no quota limits.
attach_nic_lem :
    (uuid : ℕ) (mac label : String) (vm : VirtualMachine) (network : NicNetwork) (model : NicModel)
    (vlan rate user : Option ℕ) (bay : Bay)
    → let after = attach_nic uuid mac label vm network model vlan rate user bay in
      ((is_ok after.0 ≡ false) × (after.1 ≡ bay))
      ⊎ ((is_ok after.0 ≡ true)
          × (bay.site.busy storage ≡ false)
          × (after.1.nics ≡ bay.nics ++ new_nic uuid mac network model vlan rate bay.nics ∷ [])
          × (after.1.site.queued ≡ bay.site.queued ++ length bay.site.jobs ∷ []))
unfolding attach_nic atomic is_ok start_storage_job probe submit
attach_nic_lem uuid mac label vm network model vlan rate user bay = ground arith

-- The name and the boot index follow from the number of disks alone: after a detach, the next disk
-- gets those that a disk which is still there may have.
name_reused :
    (disk_name : ℕ → String) (u v : ℕ) (p q : StoragePool) (m n : ℕ) (b c : DiskBus)
    (before now : List VmDisk)
    → length before ≡ length now
    → ((new_disk disk_name u p m b before).name ≡ (new_disk disk_name v q n c now).name)
      × ((new_disk disk_name u p m b before).boot_index
          ≡ (new_disk disk_name v q n c now).boot_index)
unfolding new_disk
name_reused disk_name u v p q m n b c before now h = (ap (λ k. disk_name (k + 1)) h, h)
