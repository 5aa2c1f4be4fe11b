-- ===== src/Vm/Model.antt =====
-- backend/apps/virtual_machines/models.py, with what the code reads of the rows that a disk or a
-- NIC refers to.
use node_pilot.Common.{ℕ, String, Bool, Option, List, ◌==◌, any}
use node_pilot.Common.Error.{Error}
use node_pilot.Storage.Model.{StoragePool}

pub data VmStatus : Type 0 where
  creating stopped running paused suspended migrating error deleting unknown : VmStatus

abbrev pub status_index : VmStatus → ℕ
status_index creating = 0
status_index stopped = 1
status_index running = 2
status_index paused = 3
status_index suspended = 4
status_index migrating = 5
status_index error = 6
status_index deleting = 7
status_index unknown = 8

abbrev pub same_status : VmStatus → VmStatus → Bool
same_status a b = status_index a == status_index b

abbrev pub in_statuses : VmStatus → List VmStatus → Bool
in_statuses s = any (same_status s)

pub data ProvisioningState : Type 0 where
  requested allocating disk_created network_created domain_created : ProvisioningState
  cloud_init_attached started ready error : ProvisioningState

pub data FirmwareType : Type 0 where
  bios uefi : FirmwareType

pub data DiskBus : Type 0 where
  virtio virtio_scsi sata ide : DiskBus

pub data NicModel : Type 0 where
  virtio e1000 : NicModel

-- The cloud-init configuration is JSON that the controller passes on unread: its text.
pub record VirtualMachine : Type 0 where
  pub uuid : ℕ
  pub organization : ℕ
  pub project : ℕ
  pub node : Option ℕ
  pub template : Option ℕ
  pub created_by : Option ℕ
  pub name : String
  pub status : VmStatus
  pub provisioning_state : ProvisioningState
  pub os_type : String
  pub firmware : FirmwareType
  pub machine_type : String
  pub cpu_count : ℕ
  pub cpu_sockets : ℕ
  pub cpu_cores : ℕ
  pub cpu_threads : ℕ
  pub cpu_model : String
  pub memory_mb : ℕ
  pub ballooning_enabled : Bool
  pub boot_order : List String
  pub autostart : Bool
  pub cloud_init_enabled : Bool
  pub cloud_init_config : String
  pub domain_uuid : ℕ
  pub idempotency_key : String
  pub last_error : Option Error

-- Of an image: what seeding a disk from it sends.
pub record SourceImage : Type 0 where
  pub uuid : ℕ
  pub sha256 : String
  pub format : String

pub record VmDisk : Type 0 where
  pub uuid : ℕ
  pub storage : StoragePool
  pub source_image : Option SourceImage
  pub name : String
  pub volume_id : String
  pub bus : DiskBus
  pub device : String
  pub size_bytes : ℕ
  pub format : String
  pub bootable : Bool
  pub readonly : Bool
  pub discard : Bool
  pub iothread : Bool
  pub boot_index : ℕ

-- Of a network: what attaching a NIC to it reads.
pub record NicNetwork : Type 0 where
  pub id : ℕ
  pub bridge : String
  pub vlan_id : Option ℕ

pub record VmNic : Type 0 where
  pub uuid : ℕ
  pub network : NicNetwork
  pub mac_address : String
  pub model : NicModel
  pub vlan : Option ℕ
  pub rate_limit_mbps : Option ℕ
  pub bootable : Bool
  pub boot_index : ℕ
