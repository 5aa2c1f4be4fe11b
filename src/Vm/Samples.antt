-- ===== src/Vm/Samples.antt =====
-- A VM, a pool and a disk to try things on.
use node_pilot.Common.{true, false, none, some, [], ◌∷◌}
use node_pilot.Storage.Model.{StoragePool, directory, online}
use node_pilot.Vm.Model.{VirtualMachine, VmDisk, VmStatus, ProvisioningState, FirmwareType, DiskBus}

abbrev pub small : VirtualMachine
small = record {
  uuid = 5;
  organization = 1;
  project = 1;
  node = some 1;
  template = none;
  created_by = none;
  name = "web-1";
  status = VmStatus.creating;
  provisioning_state = ProvisioningState.requested;
  os_type = "linux";
  firmware = FirmwareType.uefi;
  machine_type = "q35";
  cpu_count = 2;
  cpu_sockets = 1;
  cpu_cores = 2;
  cpu_threads = 1;
  cpu_model = "host-model";
  memory_mb = 2048;
  ballooning_enabled = true;
  boot_order = "hd" ∷ [];
  autostart = true;
  cloud_init_enabled = true;
  cloud_init_config = "{}";
  domain_uuid = 50;
  idempotency_key = "";
  last_error = none;
}

abbrev pub pool : StoragePool
pool = record {
  uuid = 1;
  node = 1;
  name = "local";
  type = directory;
  path = "/var/lib/nodepilot";
  capacity_bytes = 1000000;
  used_bytes = 0;
  available_bytes = 1000000;
  status = online;
  shared = false;
  enabled = true;
  capabilities = [];
}

abbrev pub root_disk : VmDisk
root_disk = record {
  uuid = 9;
  storage = pool;
  source_image = none;
  name = "disk-1";
  volume_id = "";
  bus = DiskBus.virtio;
  device = "vda";
  size_bytes = 10737418240;
  format = "qcow2";
  bootable = true;
  readonly = false;
  discard = true;
  iothread = false;
  boot_index = 0;
}
