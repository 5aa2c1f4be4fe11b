-- ===== src/Vm/Creation.antt =====
-- `create_vm` of backend/apps/virtual_machines/services.py, with the quota and the scheduler. What
-- is drawn at random (identifiers, MAC addresses) and the names of unnamed disks are input.
use node_pilot.Common.{
  ℕ, ◌+◌, ◌*◌, ◌/◌, String, Bool, true, false, not, ◌&&◌, Option, none, some, List, [], ◌∷◌, ◌++◌,
  any, sum_of, if◌then◌else◌, or_else, ◌==◌, length, str_eq,
}
use node_pilot.Common.Error.{attribute_error, integrity_error}
use node_pilot.Common.Exec.{Result, ok, err, Exec}
use node_pilot.Jobs.Model.{Job, vm_create}
use node_pilot.Jobs.Services.{create_job}
use node_pilot.Storage.Model.{StoragePool}
use node_pilot.Nodes.Model.{Node}
use node_pilot.Nodes.Scheduler.{Floats, SchedulingRequest, Inventory, select_node}
use node_pilot.Quota.Check.{gib, QuotaUsage, VmEntry, check_and_reserve}
use node_pilot.Vm.Model.{
  VmStatus, ProvisioningState, FirmwareType, DiskBus, NicModel, VirtualMachine, SourceImage, VmDisk,
  NicNetwork, VmNic,
}
use node_pilot.Vm.Services.{Site}

-- An entry of `disks`; a key that may be left out is optional. The default disk has no storage.
pub record DiskSpec : Type 0 where
  pub storage : Option StoragePool
  pub source_image : Option SourceImage
  pub name : Option String
  pub bus : Option DiskBus
  pub size_bytes : ℕ
  pub format : Option String
  pub bootable : Option Bool
  pub readonly : Option Bool
  pub discard : Option Bool
  pub iothread : Option Bool

pub record NicSpec : Type 0 where
  pub network : NicNetwork
  pub mac_address : Option String
  pub model : Option NicModel
  pub vlan : Option ℕ
  pub rate_limit_mbps : Option ℕ
  pub bootable : Option Bool

-- The arguments of `create_vm`.
pub record Creation : Type 0 where
  pub organization : ℕ
  pub project : ℕ
  pub name : String
  pub created_by : Option ℕ
  pub node : Option Node
  pub template : Option ℕ
  pub cpu_count : ℕ
  pub memory_mb : ℕ
  pub disks : List DiskSpec
  pub nics : List NicSpec
  pub os_type : String
  pub firmware : FirmwareType
  pub boot_order : List String
  pub ballooning_enabled : Bool
  pub cloud_init_enabled : Bool
  pub cloud_init_config : String
  pub autostart : Bool
  pub idempotency_key : String

-- What is drawn for the new rows: by index for disks and NICs. `label` is the VM's UUID as text.
pub record Fresh : Type 0 where
  pub uuid : ℕ
  pub label : String
  pub domain_uuid : ℕ
  pub disk_uuid : ℕ → ℕ
  pub disk_name : ℕ → String
  pub nic_uuid : ℕ → ℕ
  pub mac_address : ℕ → String

abbrev pub default_disks : List DiskSpec
default_disks =
    record {
      storage = none;
      source_image = none;
      name = some "root";
      bus = none;
      size_bytes = 20 * gib;
      format = none;
      bootable = some true;
      readonly = none;
      discard = none;
      iothread = none;
    }
    ∷ []

abbrev pub disks_of : Creation → List DiskSpec
disks_of args = elim args.disks [ [] ↦ default_disks | d ∷ disks ↦ d ∷ disks ]

-- The loop over the disks. The column of the storage is not null.
unfoldable pub create_disks : Fresh → ℕ → List DiskSpec → Result (List VmDisk)
create_disks fresh index [] = ok []
create_disks fresh index (spec ∷ specs) =
    let rest = create_disks fresh (index + 1) specs in
    elim spec.storage [
      | none ↦ err integrity_error
      | some storage ↦ elim rest [
        | err e ↦ err e
        | ok disks ↦ ok (
            record {
              uuid = fresh.disk_uuid index;
              storage = storage;
              source_image = spec.source_image;
              name = or_else spec.name (fresh.disk_name index);
              volume_id = "";
              bus = or_else spec.bus DiskBus.virtio;
              device = "";
              size_bytes = spec.size_bytes;
              format = or_else spec.format "qcow2";
              bootable = or_else spec.bootable (index == 0);
              readonly = or_else spec.readonly false;
              discard = or_else spec.discard true;
              iothread = or_else spec.iothread false;
              boot_index = index;
            }
            ∷ disks)
      ]
    ]

-- The loop over the NICs.
unfoldable pub create_nics : Fresh → ℕ → List NicSpec → List VmNic
create_nics fresh index [] = []
create_nics fresh index (spec ∷ specs) =
    record {
      uuid = fresh.nic_uuid index;
      network = spec.network;
      mac_address = or_else spec.mac_address (fresh.mac_address index);
      model = or_else spec.model NicModel.virtio;
      vlan = spec.vlan;
      rate_limit_mbps = spec.rate_limit_mbps;
      bootable = or_else spec.bootable (index == 0);
      boot_index = index;
    }
    ∷ create_nics fresh (index + 1) specs

abbrev pub total_disk_gb : Creation → ℕ
total_disk_gb args = sum_of (λ d. d.size_bytes) (disks_of args) / gib

-- What the new VM asks of the quota.
abbrev pub asked : Creation → QuotaUsage
asked args = record {
  vms = 1;
  vcpu = args.cpu_count;
  memory_mb = args.memory_mb;
  storage_gb = total_disk_gb args;
  snapshots = 0;
}

abbrev pub scheduling_request : Creation → SchedulingRequest
scheduling_request args = record {
  organization = args.organization;
  cpu_count = args.cpu_count;
  memory_mb = args.memory_mb;
  disk_gb = total_disk_gb args;
}

unfoldable pub new_vm : Fresh → Creation → Node → VirtualMachine
new_vm fresh args node = record {
  uuid = fresh.uuid;
  organization = args.organization;
  project = args.project;
  node = some node.uuid;
  template = args.template;
  created_by = args.created_by;
  name = args.name;
  status = VmStatus.creating;
  provisioning_state = ProvisioningState.requested;
  os_type = args.os_type;
  firmware = args.firmware;
  machine_type = "q35";
  cpu_count = args.cpu_count;
  cpu_sockets = 1;
  cpu_cores = args.cpu_count;
  cpu_threads = 1;
  cpu_model = "host-passthrough";
  memory_mb = args.memory_mb;
  ballooning_enabled = args.ballooning_enabled;
  boot_order = args.boot_order;
  autostart = args.autostart;
  cloud_init_enabled = args.cloud_init_enabled;
  cloud_init_config = args.cloud_init_config;
  domain_uuid = fresh.domain_uuid;
  idempotency_key = args.idempotency_key;
  last_error = none;
}

abbrev pub same_user : Option ℕ → Option ℕ → Bool
same_user none none = true
same_user none (some b) = false
same_user (some a) none = false
same_user (some a) (some b) = a == b

-- A VM that this user made with this key.
unfoldable pub is_replay : Creation → List VmEntry → Bool
is_replay args entries =
    not (str_eq args.idempotency_key "")
    && any
        (λ e.
          same_user e.vm.created_by args.created_by
          && str_eq e.vm.idempotency_key args.idempotency_key)
        entries

-- What `create_vm` returns: the VM with its disks, the NICs, the job.
abbrev pub Created : Type 0
Created = VmEntry × List VmNic × Job

-- The rows, once there is a node.
unfoldable pub insert_rows : Fresh → Creation → Node → Exec Site Created
unfolding create_disks create_nics new_vm
insert_rows fresh args node s = elim (create_disks fresh 0 (disks_of args)) [
  | err e ↦ (err e, s)
  | ok disks ↦
      let entry : VmEntry = record {
        vm = new_vm fresh args node;
        disks = disks;
        snapshot_count = 0;
      } in
      let job =
        create_job vm_create "VirtualMachine" fresh.label args.organization (some node.uuid)
          args.created_by args.idempotency_key 600 in
      (
        ok (entry, create_nics fresh 0 args.nics, job),
        record s {
          entries = s.entries ++ entry ∷ [];
          jobs = s.jobs ++ job ∷ [];
          queued = s.queued ++ length s.jobs ∷ [];
        },
      )
]

module _ (fl : Floats) where
  -- The node that was given, or the scheduler's.
  unfoldable pub node_for : Inventory → List Node → Creation → Result Node
  unfolding select_node
  node_for inv nodes args = elim args.node [
    | some node ↦ ok node
    | none ↦ select_node fl inv nodes (scheduling_request args)
  ]

  -- `create_vm`; a raise rolls all rows back. A replay reads an attribute that is not there.
  unfoldable pub create_vm : Inventory → List Node → Fresh → Creation → Exec Site Created
  unfolding is_replay check_and_reserve node_for insert_rows
  create_vm inv nodes fresh args s =
      if is_replay args s.entries
      then (err attribute_error, s)
      else elim (check_and_reserve s.quotas s.entries args.organization (some args.project)
          (asked args)) [
            | err e ↦ (err e, s)
            | ok _ ↦ elim (node_for inv nodes args) [
              | err e ↦ (err e, s)
              | ok node ↦ insert_rows fresh args node s
            ]
          ]
