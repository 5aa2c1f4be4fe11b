-- ===== src/Vm/Tasks/Clone.antt =====
-- `clone_vm_task` (backend/apps/virtual_machines/tasks.py). The rows of the clone are written by
-- this task alone. What is drawn at random, and whether the database finds a name or a MAC address
-- taken, is a parameter.
use mathlib.Core.Option.{map as option_map}
use node_pilot.Common.{
  ℕ, ◌+◌, String, Bool, true, false, Option, none, some, List, [], ◌∷◌, ◌++◌, or_else, str_append,
}
use node_pilot.Common.Error.{integrity_error, attribute_error}
use node_pilot.Common.Exec.{err, Exec, pure, gets, catch, raise_if, for_each, modify, ◌>>=◌, ◌>>◌}
use node_pilot.Jobs.Model.{success}
use node_pilot.Task.Protocol.{AgentData, clone_disk, create_vm}
use node_pilot.Task.World.{World, lifecycle, storage, transition, with_lock, update, read, emit}
use node_pilot.Task.Agent.{send_operation, rpc_timeout}
use node_pilot.Task.Run.{job_run, fail_job}
use node_pilot.Vm.Model.{
  creating, stopped, requested, disk_created, network_created, ready, VirtualMachine, VmDisk, VmNic,
}
use node_pilot.Vm.Payload.{Payload, cloned, domain, volume_ref, build_domain_payload}

-- The source with its disks and NICs, the clone with those written so far, and how many UUIDs and
-- MAC addresses were drawn.
pub record CloneRows : Type 0 where
  pub source : VirtualMachine
  pub source_disks : List VmDisk
  pub source_nics : List VmNic
  pub clone : Option VirtualMachine
  pub disks : List VmDisk
  pub nics : List VmNic
  pub uuids : ℕ
  pub macs : ℕ

abbrev pub CloneTask : Type 0 → Type 0
CloneTask A = Exec (World Payload CloneRows) A

pub record Draws : Type 0 where
  pub uuid4 : ℕ → ℕ
  pub mac : ℕ → String
  pub uuid_text : ℕ → String
  pub name_taken : Bool
  pub mac_taken : String → Bool

module _ (draws : Draws) where
  -- The arguments of `VirtualMachine.objects.create`, and the defaults of the model.
  unfoldable pub new_clone : VirtualMachine → Option ℕ → String → ℕ → VirtualMachine
  new_clone source created_by new_name drawn = record {
    uuid = draws.uuid4 drawn;
    organization = source.organization;
    project = source.project;
    node = source.node;
    template = none;
    created_by = created_by;
    name = new_name;
    status = creating;
    provisioning_state = requested;
    os_type = source.os_type;
    firmware = source.firmware;
    machine_type = source.machine_type;
    cpu_count = source.cpu_count;
    cpu_sockets = source.cpu_sockets;
    cpu_cores = source.cpu_cores;
    cpu_threads = source.cpu_threads;
    cpu_model = source.cpu_model;
    memory_mb = source.memory_mb;
    ballooning_enabled = true;
    boot_order = [];
    autostart = false;
    cloud_init_enabled = source.cloud_init_enabled;
    cloud_init_config = "{}";
    domain_uuid = draws.uuid4 (drawn + 1);
    idempotency_key = "";
    last_error = none;
  }

  -- The arguments of `VMDisk.objects.create`.
  unfoldable pub new_disk_of : VmDisk → AgentData → ℕ → VmDisk
  new_disk_of disk answer drawn = record {
    uuid = draws.uuid4 drawn;
    storage = disk.storage;
    source_image = none;
    name = disk.name;
    volume_id = or_else answer.volume_id "";
    bus = disk.bus;
    device = disk.device;
    size_bytes = disk.size_bytes;
    format = disk.format;
    bootable = disk.bootable;
    readonly = disk.readonly;
    discard = disk.discard;
    iothread = disk.iothread;
    boot_index = disk.boot_index;
  }

  -- The arguments of `VMNic.objects.create`.
  unfoldable pub new_nic_of : VmNic → ℕ → ℕ → VmNic
  new_nic_of nic drawn drawn_macs = record {
    uuid = draws.uuid4 drawn;
    network = nic.network;
    mac_address = draws.mac drawn_macs;
    model = nic.model;
    vlan = nic.vlan;
    rate_limit_mbps = none;
    bootable = nic.bootable;
    boot_index = nic.boot_index;
  }

  -- `job.resource_id = …; job.save(update_fields=["resource_id"])`
  unfoldable pub save_resource_id : String → CloneTask (Unit {0})
  save_resource_id id = modify λ w. record w {
    job = record (w.job) { resource_id = id };
    row = record (w.row) { resource_id = id };
  }

  -- The step "Preparing clone".
  unfoldable pub prepare_clone : String → CloneTask (Unit {0})
  unfolding new_clone save_resource_id
  prepare_clone new_name = do
    rows ← read (λ (r : CloneRows). r)
    created_by ← gets (λ (w : World Payload CloneRows). w.job.created_by)
    raise_if draws.name_taken integrity_error
    clone ← pure (new_clone rows.source created_by new_name rows.uuids)
    update (λ (r : CloneRows). record r { clone = some clone; uuids = r.uuids + 2 })
    save_resource_id (draws.uuid_text clone.uuid)

  -- The task's variable `clone`, which has a value after the first step.
  unfoldable pub with_clone : (VirtualMachine → CloneTask (Unit {0})) → CloneTask (Unit {0})
  with_clone body w = elim w.res.clone [
    | none ↦ (err attribute_error, w)
    | some clone ↦ body clone w
  ]

  -- A change of the clone and its `save(update_fields=…)`: its row is as its object.
  abbrev pub save_clone : (VirtualMachine → VirtualMachine) → CloneTask (Unit {0})
  save_clone change = update (λ (r : CloneRows). record r { clone = option_map change r.clone })

  -- The body of the loop over the source's disks.
  unfoldable pub clone_one_disk : VirtualMachine → Bool → VmDisk → CloneTask (Unit {0})
  unfolding new_disk_of
  clone_one_disk clone linked disk = do
    answer ←
        send_operation clone_disk (cloned (volume_ref disk) clone.uuid disk.name linked) rpc_timeout
    update (λ (r : CloneRows). record r {
      disks = r.disks ++ new_disk_of disk answer r.uuids ∷ [];
      uuids = r.uuids + 1;
    })

  -- The step "Cloning disks".
  unfoldable pub clone_disks : Bool → CloneTask (Unit {0})
  unfolding clone_one_disk with_clone
  clone_disks linked = do
    disks ← read (λ (r : CloneRows). r.source_disks)
    with_clone (λ clone. for_each disks (clone_one_disk clone linked))
    save_clone (λ clone. record clone { provisioning_state = disk_created })

  -- The body of the loop over the source's NICs.
  unfoldable pub clone_one_nic : VmNic → CloneTask (Unit {0})
  unfolding new_nic_of
  clone_one_nic nic = do
    rows ← read (λ (r : CloneRows). r)
    raise_if (draws.mac_taken (draws.mac rows.macs)) integrity_error
    update (λ (r : CloneRows). record r {
      nics = r.nics ++ new_nic_of nic r.uuids r.macs ∷ [];
      uuids = r.uuids + 1;
      macs = r.macs + 1;
    })

  -- The step "Assigning new network identity".
  unfoldable pub clone_nics : CloneTask (Unit {0})
  unfolding clone_one_nic
  clone_nics = do
    nics ← read (λ (r : CloneRows). r.source_nics)
    for_each nics clone_one_nic
    save_clone (λ clone. record clone { provisioning_state = network_created })

  -- CREATE_VM for the clone.
  unfoldable pub send_domain : VirtualMachine → CloneTask (Unit {0})
  send_domain clone = do
    rows ← read (λ (r : CloneRows). r)
    send_operation create_vm (domain (build_domain_payload clone rows.disks rows.nics)) rpc_timeout
    pure tt

  -- The step "Creating cloned domain".
  unfoldable pub define_clone : CloneTask (Unit {0})
  unfolding send_domain with_clone
  define_clone = do
    with_clone send_domain
    save_clone (λ clone. record clone { provisioning_state = ready; status = stopped })

  -- The steps under the locks of the source.
  unfoldable pub clone_steps : String → Bool → CloneTask (Unit {0})
  unfolding prepare_clone clone_disks clone_nics define_clone
  clone_steps new_name linked = do
    job_run "Preparing clone" (prepare_clone new_name)
    job_run "Cloning disks" (clone_disks linked)
    job_run "Assigning new network identity" clone_nics
    job_run "Creating cloned domain" define_clone

  unfoldable pub clone_vm_task : String → Bool → CloneTask (Unit {0})
  unfolding clone_steps
  clone_vm_task new_name linked =
      catch
        (do
          with_lock lifecycle (with_lock storage (clone_steps new_name linked))
          transition success (some (str_append "Cloned to " new_name)) none
          emit "VM_CLONED")
        fail_job
