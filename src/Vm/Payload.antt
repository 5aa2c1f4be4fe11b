-- ===== src/Vm/Payload.antt =====
-- What the VM tasks send to the agent, `_build_domain_payload` among it
-- (backend/apps/virtual_machines/tasks.py).
use node_pilot.Common.{ℕ, zero, suc, String, Bool, Option, none, some, List, [], ◌∷◌, map}
use node_pilot.Storage.Model.{StorageType}
use node_pilot.Vm.Model.{
  FirmwareType, DiskBus, NicModel, VirtualMachine, SourceImage, VmDisk, VmNic,
}

pub record DiskEntry : Type 0 where
  pub uuid : ℕ
  pub volume_id : String
  pub bus : DiskBus
  pub device : String
  pub bootable : Bool
  pub readonly : Bool
  pub discard : Bool
  pub iothread : Bool
  pub boot_index : ℕ
  pub format : String
  pub storage_type : StorageType

pub record NicEntry : Type 0 where
  pub uuid : ℕ
  pub mac_address : String
  pub model : NicModel
  pub bridge : String
  pub vlan : Option ℕ
  pub boot_index : ℕ
  pub rate_limit_mbps : Option ℕ

pub record DomainPayload : Type 0 where
  pub domain_uuid : ℕ
  pub name : String
  pub os_type : String
  pub firmware : FirmwareType
  pub machine_type : String
  pub cpu_count : ℕ
  pub cpu_sockets : ℕ
  pub cpu_cores : ℕ
  pub cpu_threads : ℕ
  pub cpu_model : String
  pub memory_mb : ℕ
  pub ballooning_enabled : Bool
  pub boot_order : List String
  pub disks : List DiskEntry
  pub nics : List NicEntry

-- A volume, as DELETE_DISK and RESIZE_DISK name it.
pub record VolumeRef : Type 0 where
  pub volume_id : String
  pub storage_id : ℕ
  pub storage_type : StorageType
  pub storage_path : String

pub record NewDisk : Type 0 where
  pub disk_uuid : ℕ
  pub storage_id : ℕ
  pub storage_path : String
  pub storage_type : StorageType
  pub size_bytes : ℕ
  pub format : String
  pub name : Option String
  pub image : Option SourceImage

pub data Payload : Type 0 where
  empty : Payload
  domain : DomainPayload → Payload
  remove_domain : Bool → Payload
  new_disk : NewDisk → Payload
  volume : VolumeRef → Payload
  resized : VolumeRef → ℕ → Payload
  cloned : VolumeRef → ℕ → String → Bool → Payload
  disk_device : ℕ → String → String → DiskBus → StorageType → String → Payload
  nic_device : ℕ → String → Option ℕ → String → NicModel → Option ℕ → Payload
  cloud_init : String → Payload

-- `nic.vlan or nic.network.vlan_id`
unfoldable pub nic_vlan : VmNic → Option ℕ
nic_vlan nic = elim nic.vlan [
  | none ↦ nic.network.vlan_id
  | some v ↦ elim v [ zero ↦ nic.network.vlan_id | suc n ↦ some (suc n) ]
]

abbrev pub disk_entry : VmDisk → DiskEntry
disk_entry d = record {
  uuid = d.uuid;
  volume_id = d.volume_id;
  bus = d.bus;
  device = d.device;
  bootable = d.bootable;
  readonly = d.readonly;
  discard = d.discard;
  iothread = d.iothread;
  boot_index = d.boot_index;
  format = d.format;
  storage_type = d.storage.type;
}

abbrev pub nic_entry : VmNic → NicEntry
unfolding nic_vlan
nic_entry n = record {
  uuid = n.uuid;
  mac_address = n.mac_address;
  model = n.model;
  bridge = n.network.bridge;
  vlan = nic_vlan n;
  boot_index = n.boot_index;
  rate_limit_mbps = n.rate_limit_mbps;
}

-- `_build_domain_payload`
unfoldable pub build_domain_payload : VirtualMachine → List VmDisk → List VmNic → DomainPayload
unfolding nic_vlan
build_domain_payload vm disks nics = record {
  domain_uuid = vm.domain_uuid;
  name = vm.name;
  os_type = vm.os_type;
  firmware = vm.firmware;
  machine_type = vm.machine_type;
  cpu_count = vm.cpu_count;
  cpu_sockets = vm.cpu_sockets;
  cpu_cores = vm.cpu_cores;
  cpu_threads = vm.cpu_threads;
  cpu_model = vm.cpu_model;
  memory_mb = vm.memory_mb;
  ballooning_enabled = vm.ballooning_enabled;
  boot_order = elim vm.boot_order [ [] ↦ "disk" ∷ [] | d ∷ ds ↦ d ∷ ds ];
  disks = map disk_entry disks;
  nics = map nic_entry nics;
}

-- The payload of DELETE_DISK.
abbrev pub volume_ref : VmDisk → VolumeRef
volume_ref d = record {
  volume_id = d.volume_id;
  storage_id = d.storage.uuid;
  storage_type = d.storage.type;
  storage_path = d.storage.path;
}

-- The payload of CREATE_DISK; provisioning sends the disk's name and image too.
abbrev pub new_disk_payload : Option String → Option SourceImage → VmDisk → NewDisk
new_disk_payload name image d = record {
  disk_uuid = d.uuid;
  storage_id = d.storage.uuid;
  storage_path = d.storage.path;
  storage_type = d.storage.type;
  size_bytes = d.size_bytes;
  format = d.format;
  name = name;
  image = image;
}
