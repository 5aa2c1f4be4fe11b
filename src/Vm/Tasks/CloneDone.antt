-- ===== src/Vm/Tasks/CloneDone.antt =====
-- What a cloning that returns leaves.
use node_pilot.Common.{ℕ, ◌+◌, ◌≡◌, String, false, Option, none, some, []}
use node_pilot.Common.Exec.{◌>>◌}
use node_pilot.Task.World.{World}
use node_pilot.Vm.Model.{VirtualMachine, stopped, ready}
use node_pilot.Vm.Payload.{Payload}
use node_pilot.Vm.Tasks.Clone.{CloneRows, Draws, new_clone}

module _ (draws : Draws) (first : CloneRows) (new_name : String) where
  -- The first step.
  abbrev prepared : CloneRows → Option ℕ → CloneRows
  prepared r by = record r {
    clone = some (new_clone draws r.source by new_name r.uuids);
    uuids = r.uuids + 2;
  }

  module _ (no_disks : first.disks ≡ []) (no_nics : first.nics ≡ []) where
    abbrev Begins : CloneRows → Type 0
    Begins r = r ≡ first

-- The VM of a finished clone: what it takes from the source, what it was drawn, and what it has of
-- its own.
pub record IsCopyOf (draws : Draws) (first : CloneRows) (new_name : String) (vm : VirtualMachine)
    : Type 0 where
  pub own_uuid : vm.uuid ≡ draws.uuid4 first.uuids
  pub own_domain : vm.domain_uuid ≡ draws.uuid4 (first.uuids + 1)
  pub own_name : vm.name ≡ new_name
  pub finished : (vm.status ≡ stopped) × (vm.provisioning_state ≡ ready)
  pub same_owner :
      (vm.organization ≡ first.source.organization) × (vm.project ≡ first.source.project)
  pub same_node : vm.node ≡ first.source.node
  pub same_processors :
      (vm.cpu_count ≡ first.source.cpu_count)
      × (vm.cpu_sockets ≡ first.source.cpu_sockets)
      × (vm.cpu_cores ≡ first.source.cpu_cores)
      × (vm.cpu_threads ≡ first.source.cpu_threads)
      × (vm.cpu_model ≡ first.source.cpu_model)
  pub same_memory : vm.memory_mb ≡ first.source.memory_mb
  pub same_system :
      (vm.os_type ≡ first.source.os_type)
      × (vm.firmware ≡ first.source.firmware)
      × (vm.machine_type ≡ first.source.machine_type)
  pub same_cloud_init : vm.cloud_init_enabled ≡ first.source.cloud_init_enabled
  pub own_settings :
      (vm.template ≡ none)
      × (vm.autostart ≡ false)
      × (vm.idempotency_key ≡ "")
      × (vm.last_error ≡ none)

abbrev pub HasCopy : Draws → CloneRows → String → CloneRows → Type 0
HasCopy draws first new_name r =
    (vm : VirtualMachine) × (r.clone ≡ some vm) × IsCopyOf draws first new_name vm
