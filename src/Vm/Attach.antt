-- ===== src/Vm/Attach.antt =====
-- `attach_disk` and `attach_nic` (backend/apps/virtual_machines/services.py): the new row and the
-- job, in one transaction.
use node_pilot.Common.{
  ℕ, ◌+◌, ◌*◌, String, true, false, Option, none, some, List, [], ◌∷◌, ◌++◌, length,
}
use node_pilot.Common.Exec.{ok, err, Exec, modify, ◌>>◌}
use node_pilot.Jobs.Model.{Job, disk_attach, nic_attach}
use node_pilot.Storage.Model.{StoragePool}
use node_pilot.Vm.Model.{DiskBus, NicModel, VirtualMachine, VmDisk, NicNetwork, VmNic}
use node_pilot.Quota.Check.{gib, check_and_reserve}
use node_pilot.Vm.Services.{Site, start_storage_job, storage_only}

-- The disks and NICs of the VM beside what all services read and write.
pub record Bay : Type 0 where
  pub site : Site
  pub disks : List VmDisk
  pub nics : List VmNic

-- `transaction.atomic`
unfoldable pub atomic : {S A : Type 0} → Exec S A → Exec S A
atomic m s = elim (m s).0 [ err e ↦ (err e, s) | ok a ↦ (ok a, (m s).1) ]

abbrev pub on_site : {A : Type 0} → Exec Site A → Exec Bay A
on_site m bay = ((m bay.site).0, record bay { site = (m bay.site).1 })

abbrev pub reserve_storage : VirtualMachine → ℕ → Exec Bay (Unit {0})
reserve_storage vm size_gb bay = (
  check_and_reserve bay.site.quotas bay.site.entries vm.organization (some vm.project)
      (storage_only size_gb),
  bay,
)

-- `disk_name n` is the text "disk-n".
unfoldable pub new_disk : (ℕ → String) → ℕ → StoragePool → ℕ → DiskBus → List VmDisk → VmDisk
new_disk disk_name uuid storage size_gb bus disks = record {
  uuid = uuid;
  storage = storage;
  source_image = none;
  name = disk_name (length disks + 1);
  volume_id = "";
  bus = bus;
  device = "";
  size_bytes = size_gb * gib;
  format = "qcow2";
  bootable = false;
  readonly = false;
  discard = true;
  iothread = false;
  boot_index = length disks;
}

unfoldable pub attach_disk :
    (ℕ → String) → ℕ → String → VirtualMachine → StoragePool → ℕ → DiskBus → Option ℕ → Exec Bay Job
unfolding start_storage_job
attach_disk disk_name uuid label vm storage size_gb bus user = atomic (do
  reserve_storage vm size_gb
  modify (λ (bay : Bay). record bay {
    disks = bay.disks ++ new_disk disk_name uuid storage size_gb bus bay.disks ∷ [];
  })
  on_site (start_storage_job disk_attach label vm user))

-- `mac` is what `generate_mac_address` draws; a draw that another NIC has already is left out.
unfoldable pub new_nic :
    ℕ → String → NicNetwork → NicModel → Option ℕ → Option ℕ → List VmNic → VmNic
new_nic uuid mac network model vlan rate nics = record {
  uuid = uuid;
  network = network;
  mac_address = mac;
  model = model;
  vlan = vlan;
  rate_limit_mbps = rate;
  bootable = false;
  boot_index = length nics;
}

unfoldable pub attach_nic :
    ℕ
    → String
    → String
    → VirtualMachine
    → NicNetwork
    → NicModel
    → Option ℕ
    → Option ℕ
    → Option ℕ
    → Exec Bay Job
unfolding start_storage_job
attach_nic uuid mac label vm network model vlan rate user = atomic (do
  modify (λ (bay : Bay). record bay {
    nics = bay.nics ++ new_nic uuid mac network model vlan rate bay.nics ∷ [];
  })
  on_site (start_storage_job nic_attach label vm user))
