-- ===== src/Vm/CreationTests.antt =====
-- Creations at concrete requests.
use node_pilot.Common.{◌+◌, ◌*◌, ◌≡◌, refl, true, false, none, some, [], ◌∷◌}
use node_pilot.Common.Error.{attribute_error, integrity_error, quota_exceeded, max_vms}
use node_pilot.Common.Exec.{err}
use node_pilot.Jobs.Model.{vm_create}
use node_pilot.Jobs.Services.{create_job}
use node_pilot.Nodes.Model.{is_schedulable, effective_status}
use node_pilot.Nodes.Scheduler.{select_node}
use node_pilot.Nodes.Samples.{whole, empty_site, hosts, host}
use node_pilot.Quota.Check.{gib, Quota, check_and_reserve, current_usage}
use node_pilot.Vm.Model.{FirmwareType, DiskBus}
use node_pilot.Vm.Services.{Site}
use node_pilot.Vm.Samples.{pool}
use node_pilot.Vm.Creation.{DiskSpec, Creation, Fresh, Created, new_vm, create_vm}

abbrev limits : Quota
limits = record {
  organization = 1;
  project = none;
  max_vms = 1;
  max_vcpu = 4;
  max_memory_mb = 4096;
  max_storage_gb = 20;
  max_snapshots = 5;
}

abbrev site : Site
site = record { jobs = []; queued = []; quotas = limits ∷ []; entries = []; busy = λ _. false }

abbrev root : DiskSpec
root = record {
  storage = some pool;
  source_image = none;
  name = none;
  bus = none;
  size_bytes = 10 * gib;
  format = none;
  bootable = none;
  readonly = none;
  discard = none;
  iothread = none;
}

abbrev wanted : Creation
wanted = record {
  organization = 1;
  project = 1;
  name = "web-1";
  created_by = some 7;
  node = none;
  template = none;
  cpu_count = 2;
  memory_mb = 2048;
  disks = root ∷ [];
  nics = [];
  os_type = "linux";
  firmware = FirmwareType.bios;
  boot_order = [];
  ballooning_enabled = true;
  cloud_init_enabled = false;
  cloud_init_config = "{}";
  autostart = false;
  idempotency_key = "k";
}

abbrev drawn : Fresh
drawn = record {
  uuid = 100;
  label = "100";
  domain_uuid = 101;
  disk_uuid = λ i. 200 + i;
  disk_name = λ i. "disk";
  nic_uuid = λ i. 300 + i;
  mac_address = λ i. "52:54:00:00:00:01";
}

abbrev made : Created
made = (
  record {
    vm = new_vm drawn wanted (host 3 8192);
    disks =
        record {
          uuid = 200;
          storage = pool;
          source_image = none;
          name = "disk";
          volume_id = "";
          bus = DiskBus.virtio;
          device = "";
          size_bytes = 10 * gib;
          format = "qcow2";
          bootable = true;
          readonly = false;
          discard = true;
          iothread = false;
          boot_index = 0;
        }
        ∷ [];
    snapshot_count = 0;
  },
  [],
  create_job vm_create "VirtualMachine" "100" 1 (some 3) (some 7) "k" 600,
)

-- A second VM passes the limit; a replay and the default disk raise other errors.
abbrev taken : Site
taken = record site { entries = made.0 ∷ [] }

replay_raises : (create_vm whole empty_site hosts drawn wanted taken).0 ≡ err attribute_error
unfolding create_vm new_vm
replay_raises = refl

second_refused :
    (create_vm whole empty_site hosts drawn (record wanted { idempotency_key = "" }) taken).0
    ≡ err (quota_exceeded max_vms 1 2)
unfolding create_vm new_vm check_and_reserve current_usage
second_refused = refl

default_disk_raises :
    (create_vm whole empty_site hosts drawn (record wanted { disks = [] }) site).0
    ≡ err integrity_error
unfolding create_vm select_node effective_status is_schedulable
default_disk_raises = refl
