-- ===== src/Vm/Tasks/Devices.antt =====
-- The tasks on one disk or NIC of a VM (backend/apps/virtual_machines/tasks.py).
use node_pilot.Common.{ℕ, String, none, some, if◌then◌else◌, not, str_eq, str_append}
use node_pilot.Common.Exec.{Exec, pure, catch, when, ◌>>=◌, ◌>>◌}
use node_pilot.Jobs.Model.{success}
use node_pilot.Task.Protocol.{
  create_disk, delete_disk, attach_disk, detach_disk, resize_disk, attach_nic, detach_nic,
}
use node_pilot.Task.World.{World, storage, transition, with_lock, read}
use node_pilot.Task.Agent.{send_operation, rpc_timeout}
use node_pilot.Task.Run.{job_run, fail_job}
use node_pilot.Task.Saved.{Saved, save_object, delete_object}
use node_pilot.Vm.Model.{VirtualMachine, VmDisk, VmNic}
use node_pilot.Vm.Payload.{
  Payload, new_disk, disk_device, volume, resized, nic_device, new_disk_payload, volume_ref,
  nic_vlan,
}
use node_pilot.Vm.Rows.{created}

-- `_disk_or_nic_task`
unfoldable pub disk_or_nic_task :
    {R : Type 0} → String → Exec (World Payload R) (Unit {0}) → Exec (World Payload R) (Unit {0})
disk_or_nic_task step run_op =
    catch (do with_lock storage (job_run step run_op); transition success (some step) none) fail_job

abbrev pub DiskTask : Type 0
DiskTask = Exec (World Payload (Saved VmDisk)) (Unit {0})

abbrev pub NicTask : Type 0
NicTask = Exec (World Payload (Saved VmNic)) (Unit {0})

-- `disk.device or "vdb"`
abbrev pub device_or_default : String → String
device_or_default device = if str_eq device "" then "vdb" else device

-- What ATTACH_DISK and DETACH_DISK send of a disk.
abbrev pub device_of : VirtualMachine → String → VmDisk → Payload
device_of vm device disk =
    disk_device vm.domain_uuid disk.volume_id device disk.bus disk.storage.type disk.format

abbrev pub nic_of : VirtualMachine → VmNic → Payload
unfolding nic_vlan
nic_of vm nic =
    nic_device vm.domain_uuid nic.network.bridge (nic_vlan nic) nic.mac_address nic.model
      nic.rate_limit_mbps

-- `disk.save(update_fields=["volume_id", "device", "format"])`
abbrev pub copy_volume : VmDisk → VmDisk → VmDisk
copy_volume disk row = record row {
  volume_id = disk.volume_id;
  device = disk.device;
  format = disk.format;
}

-- `attach_disk_task`: the volume is created, then attached as the object now has it.
unfoldable pub run_attach_disk : VirtualMachine → DiskTask
unfolding save_object
run_attach_disk vm = do
  disk ← read (λ (r : Saved VmDisk). r.object)
  answer ← send_operation create_disk (new_disk (new_disk_payload none none disk)) rpc_timeout
  save_object (created disk answer) copy_volume
  disk' ← read (λ (r : Saved VmDisk). r.object)
  send_operation attach_disk (device_of vm (device_or_default disk'.device) disk') rpc_timeout
  pure tt

unfoldable pub attach_disk_task : VirtualMachine → String → DiskTask
unfolding disk_or_nic_task run_attach_disk
attach_disk_task vm name = disk_or_nic_task (str_append "Attaching disk " name) (run_attach_disk vm)

unfoldable pub delete_volume_of : VmDisk → DiskTask
delete_volume_of disk = do
  send_operation delete_disk (volume (volume_ref disk)) rpc_timeout
  pure tt

unfoldable pub run_detach_disk : VirtualMachine → DiskTask
unfolding delete_volume_of delete_object
run_detach_disk vm = do
  disk ← read (λ (r : Saved VmDisk). r.object)
  send_operation detach_disk (device_of vm disk.device disk) rpc_timeout
  when (not (str_eq disk.volume_id "")) (delete_volume_of disk)
  delete_object

-- `detach_disk_task`; `uuid` is the text of the disk's UUID.
unfoldable pub detach_disk_task : VirtualMachine → String → DiskTask
unfolding disk_or_nic_task run_detach_disk
detach_disk_task vm uuid = disk_or_nic_task (str_append "Detaching disk " uuid) (run_detach_disk vm)

unfoldable pub run_resize_disk : ℕ → DiskTask
unfolding save_object
run_resize_disk new_size = do
  disk ← read (λ (r : Saved VmDisk). r.object)
  send_operation resize_disk (resized (volume_ref disk) new_size) rpc_timeout
  save_object (λ d. record d { size_bytes = new_size })
      (λ d row. record row { size_bytes = d.size_bytes })

-- `resize_disk_task`
unfoldable pub resize_disk_task : ℕ → String → DiskTask
unfolding disk_or_nic_task run_resize_disk
resize_disk_task new_size name =
    disk_or_nic_task (str_append "Resizing disk " name) (run_resize_disk new_size)

unfoldable pub run_attach_nic : VirtualMachine → NicTask
run_attach_nic vm = do
  nic ← read (λ (r : Saved VmNic). r.object)
  send_operation attach_nic (nic_of vm nic) rpc_timeout
  pure tt

-- `attach_nic_task`
unfoldable pub attach_nic_task : VirtualMachine → String → NicTask
unfolding disk_or_nic_task run_attach_nic
attach_nic_task vm mac = disk_or_nic_task (str_append "Attaching NIC " mac) (run_attach_nic vm)

unfoldable pub run_detach_nic : VirtualMachine → NicTask
unfolding delete_object
run_detach_nic vm = do
  nic ← read (λ (r : Saved VmNic). r.object)
  send_operation detach_nic (nic_of vm nic) rpc_timeout
  delete_object

-- `detach_nic_task`
unfoldable pub detach_nic_task : VirtualMachine → String → NicTask
unfolding disk_or_nic_task run_detach_nic
detach_nic_task vm mac = disk_or_nic_task (str_append "Detaching NIC " mac) (run_detach_nic vm)
