-- ===== src/Vm/Inserted.antt =====
-- The rows that a creation inserts (`create_vm`, backend/apps/virtual_machines/services.py), field
-- by field from the request.
use mathlib.Core.Path.{subst}
use node_pilot.Common.{
  ℕ, ◌+◌, ◌==◌, ◌≡◌, refl, true, false, some, List, [], ◌∷◌, or_else, inl, inr, Option-cases,
}
use node_pilot.Common.Exec.{Result, ok, err, Result-cases}
use node_pilot.Jobs.Model.{Job, JobStatus, vm_create}
use node_pilot.Nodes.Model.{Node}
use node_pilot.Vm.Model.{
  VmStatus, ProvisioningState, NicModel, DiskBus, VirtualMachine, VmDisk, VmNic,
}
use node_pilot.Vm.Creation.{DiskSpec, NicSpec, Creation, Fresh, create_disks, create_nics, new_vm}

-- The job of a creation: queued, for the VM, by the user, on the node.
pub record IsJobFor (fresh : Fresh) (args : Creation) (node : Node) (job : Job) : Type 0 where
  pub for_creation : job.type ≡ vm_create
  pub waits : job.status ≡ JobStatus.queued
  pub of_vm : (job.resource_type ≡ "VirtualMachine") × (job.resource_id ≡ fresh.label)
  pub same_organization : job.organization ≡ args.organization
  pub on_node : job.node ≡ some node.uuid
  pub by_user : job.created_by ≡ args.created_by

-- The VM has what was asked for, under the UUIDs that were drawn, and is being created.
pub record IsVmFor (fresh : Fresh) (args : Creation) (node : Node) (vm : VirtualMachine)
    : Type 0 where
  pub identity : (vm.uuid ≡ fresh.uuid) × (vm.domain_uuid ≡ fresh.domain_uuid)
  pub owner :
      (vm.organization ≡ args.organization)
      × (vm.project ≡ args.project)
      × (vm.created_by ≡ args.created_by)
  pub on_node : vm.node ≡ some node.uuid
  pub same_name : vm.name ≡ args.name
  pub processors : (vm.cpu_count ≡ args.cpu_count) × (vm.cpu_cores ≡ args.cpu_count)
  pub memory : vm.memory_mb ≡ args.memory_mb
  pub begins :
      (vm.status ≡ VmStatus.creating) × (vm.provisioning_state ≡ ProvisioningState.requested)
  pub system :
      (vm.template ≡ args.template)
      × (vm.os_type ≡ args.os_type)
      × (vm.firmware ≡ args.firmware)
      × (vm.boot_order ≡ args.boot_order)
  pub key : vm.idempotency_key ≡ args.idempotency_key

-- A disk has what was asked for, with the defaults, and no volume yet.
pub record IsDiskFor (fresh : Fresh) (index : ℕ) (spec : DiskSpec) (disk : VmDisk) : Type 0 where
  pub identity : disk.uuid ≡ fresh.disk_uuid index
  pub on_storage : spec.storage ≡ some disk.storage
  pub from_image : disk.source_image ≡ spec.source_image
  pub same_name : disk.name ≡ or_else spec.name (fresh.disk_name index)
  pub same_bus : disk.bus ≡ or_else spec.bus DiskBus.virtio
  pub same_size : disk.size_bytes ≡ spec.size_bytes
  pub same_format : disk.format ≡ or_else spec.format "qcow2"
  pub boots : disk.bootable ≡ or_else spec.bootable (index == 0)
  pub flags :
      (disk.readonly ≡ or_else spec.readonly false)
      × (disk.discard ≡ or_else spec.discard true)
      × (disk.iothread ≡ or_else spec.iothread false)
  pub no_volume : (disk.volume_id ≡ "") × (disk.device ≡ "")
  pub place : disk.boot_index ≡ index

pub record IsNicFor (fresh : Fresh) (index : ℕ) (spec : NicSpec) (nic : VmNic) : Type 0 where
  pub identity : nic.uuid ≡ fresh.nic_uuid index
  pub on_network : nic.network ≡ spec.network
  pub same_mac : nic.mac_address ≡ or_else spec.mac_address (fresh.mac_address index)
  pub same_model : nic.model ≡ or_else spec.model NicModel.virtio
  pub same_vlan : nic.vlan ≡ spec.vlan
  pub same_limit : nic.rate_limit_mbps ≡ spec.rate_limit_mbps
  pub boots : nic.bootable ≡ or_else spec.bootable (index == 0)
  pub place : nic.boot_index ≡ index

-- Two lists of the same length, related at each index.
abbrev pub AllAt : {A B : Type 0} → (ℕ → A → B → Type 0) → ℕ → List A → List B → Type 0
AllAt R n [] [] = Unit
AllAt R n [] (y ∷ ys) = ⊥
AllAt R n (x ∷ xs) [] = ⊥
AllAt R n (x ∷ xs) (y ∷ ys) = R n x y × AllAt R (n + 1) xs ys

abbrev AreMade : Fresh → ℕ → List DiskSpec → Result (List VmDisk) → Type 0
AreMade fresh index specs (err e) = Unit
AreMade fresh index specs (ok disks) = AllAt (IsDiskFor fresh) index specs disks

disks_made :
    (fresh : Fresh) (index : ℕ) (specs : List DiskSpec)
    → AreMade fresh index specs (create_disks fresh index specs)
unfolding create_disks
disks_made fresh index [] = tt
disks_made fresh index (spec ∷ specs) = elim (Option-cases spec.storage) [
  | inl missing ↦ rw missing tt
  | inr (storage, given) ↦ elim (Result-cases (create_disks fresh (index + 1) specs)) [
    | inl (e, failed) ↦ rw (given, failed) tt
    | inr (rest, made) ↦
        rw (given, made)
          (
            record {
              identity = refl;
              on_storage = refl;
              from_image = refl;
              same_name = refl;
              same_bus = refl;
              same_size = refl;
              same_format = refl;
              boots = refl;
              flags = (refl, refl, refl);
              no_volume = (refl, refl);
              place = refl;
            },
            subst (AreMade fresh (index + 1) specs) made (disks_made fresh (index + 1) specs),
          )
  ]
]

pub create_disks-AllAt :
    (fresh : Fresh) (index : ℕ) (specs : List DiskSpec) (disks : List VmDisk)
    → create_disks fresh index specs ≡ ok disks
    → AllAt (IsDiskFor fresh) index specs disks
create_disks-AllAt fresh index specs disks made =
    subst (AreMade fresh index specs) made (disks_made fresh index specs)

pub create_nics-AllAt :
    (fresh : Fresh) (index : ℕ) (specs : List NicSpec)
    → AllAt (IsNicFor fresh) index specs (create_nics fresh index specs)
unfolding create_nics
create_nics-AllAt fresh index [] = tt
create_nics-AllAt fresh index (spec ∷ specs) = (
  record {
    identity = refl;
    on_network = refl;
    same_mac = refl;
    same_model = refl;
    same_vlan = refl;
    same_limit = refl;
    boots = refl;
    place = refl;
  },
  create_nics-AllAt fresh (index + 1) specs,
)

pub new_vm-IsVmFor :
    (fresh : Fresh) (args : Creation) (node : Node)
    → IsVmFor fresh args node (new_vm fresh args node)
unfolding new_vm
new_vm-IsVmFor fresh args node = record {
  identity = (refl, refl);
  owner = (refl, refl, refl);
  on_node = refl;
  same_name = refl;
  processors = (refl, refl);
  memory = refl;
  begins = (refl, refl);
  system = (refl, refl, refl, refl);
  key = refl;
}
