-- ===== src/Vm/Rows.antt =====
-- The rows that a VM task reads and writes, and its saves.
use node_pilot.Common.{
  ℕ, Option, none, some, List, ◌==◌, or_else, map, if◌then◌else◌, str_eq, not, filter_by,
}
use node_pilot.Common.Error.{row_gone}
use node_pilot.Common.Exec.{ok, err, Exec}
use node_pilot.Task.Protocol.{AgentData}
use node_pilot.Task.World.{World}
use node_pilot.Vm.Model.{VmStatus, ProvisioningState, VirtualMachine, VmDisk, VmNic}
use node_pilot.Vm.Payload.{Payload}

-- The task's `VirtualMachine` object, the row of the table, and the disks and NICs of the VM.
pub record Rows : Type 0 where
  pub vm : VirtualMachine
  pub stored : Option VirtualMachine
  pub disks : List VmDisk
  pub nics : List VmNic

abbrev pub Task : Type 0 → Type 0
Task A = Exec (World Payload Rows) A

-- `vm.save(update_fields=…)`, after `change` was made to the object: `copy` writes the saved
-- fields of the object to the row. A save of a row that is gone raises.
unfoldable pub save :
    (VirtualMachine → VirtualMachine)
    → (VirtualMachine → VirtualMachine → VirtualMachine)
    → Task (Unit {0})
save change copy w =
    let vm' = change w.res.vm in
    elim w.res.stored [
      | none ↦ (err row_gone, record w { res = record (w.res) { vm = vm' } })
      | some row ↦
          (ok tt, record w { res = record (w.res) { vm = vm'; stored = some (copy vm' row) } })
    ]

abbrev pub copy_status : VirtualMachine → VirtualMachine → VirtualMachine
copy_status vm row = record row { status = vm.status }

abbrev pub copy_provisioning : VirtualMachine → VirtualMachine → VirtualMachine
copy_provisioning vm row = record row { provisioning_state = vm.provisioning_state }

abbrev pub copy_both : VirtualMachine → VirtualMachine → VirtualMachine
copy_both vm row = record row { status = vm.status; provisioning_state = vm.provisioning_state }

abbrev pub copy_error : VirtualMachine → VirtualMachine → VirtualMachine
copy_error vm row = record row { last_error = vm.last_error }

-- `vm.status = s; vm.save(update_fields=["status"])`
abbrev pub save_status : VmStatus → Task (Unit {0})
save_status s = save (λ vm. record vm { status = s }) copy_status

-- `vm.provisioning_state = s; vm.save(update_fields=["provisioning_state"])`
abbrev pub save_provisioning : ProvisioningState → Task (Unit {0})
save_provisioning s = save (λ vm. record vm { provisioning_state = s }) copy_provisioning

-- `disk.save(…)` of one disk among the rows.
abbrev pub change_disk : ℕ → (VmDisk → VmDisk) → List VmDisk → List VmDisk
change_disk uuid f = map (λ d. if d.uuid == uuid then f d else d)

-- What the answer to CREATE_DISK says of the disk.
abbrev pub created : VmDisk → AgentData → VmDisk → VmDisk
created disk answer d = record d {
  volume_id = or_else answer.volume_id "";
  device = or_else answer.device disk.device;
  format = or_else answer.format disk.format;
}

-- `filter(volume_id__gt="")`
abbrev pub with_volume : List VmDisk → List VmDisk
with_volume = filter_by (λ d. not (str_eq d.volume_id ""))
