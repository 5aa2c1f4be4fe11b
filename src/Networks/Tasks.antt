-- ===== src/Networks/Tasks.antt =====
-- The network tasks (backend/apps/networks/tasks.py) and the model of a network
-- (backend/apps/networks/models.py).
use node_pilot.Common.{ℕ, String, Bool, Option, none, some, str_append}
use node_pilot.Common.Exec.{Exec, pure, catch, ◌>>◌}
use node_pilot.Jobs.Model.{success}
use node_pilot.Task.Protocol.{create_network, delete_network}
use node_pilot.Task.World.{World, transition, emit}
use node_pilot.Task.Agent.{send_operation, rpc_timeout}
use node_pilot.Task.Run.{job_run, fail_job, fail_and_emit}
use node_pilot.Task.Saved.{Saved, save_object, delete_object}

pub data NetworkType : Type 0 where
  bridge vlan nat routed isolated : NetworkType

pub data NetworkStatus : Type 0 where
  active inactive error : NetworkStatus

pub record Network : Type 0 where
  pub uuid : ℕ
  pub node : ℕ
  pub name : String
  pub type : NetworkType
  pub bridge : String
  pub vlan_id : Option ℕ
  pub dhcp_enabled : Bool
  pub status : NetworkStatus

-- The payload of both operations: the bridge and the VLAN.
pub record Payload : Type 0 where
  pub bridge : String
  pub vlan_id : Option ℕ

abbrev pub Task : Type 0
Task = Exec (World Payload (Saved Network)) (Unit {0})

abbrev pub payload_of : Network → Payload
payload_of n = record { bridge = n.bridge; vlan_id = n.vlan_id }

-- `network.save(update_fields=["status"])`
abbrev pub copy_status : Network → Network → Network
copy_status n row = record row { status = n.status }

abbrev pub with_status : NetworkStatus → Network → Network
with_status s n = record n { status = s }

unfoldable pub run_create : Network → Task
unfolding save_object
run_create network = do
  send_operation create_network (payload_of network) rpc_timeout
  save_object (with_status active) copy_status

-- `create_network_task`, once the network is loaded.
unfoldable pub create_network_task : Network → Task
unfolding run_create save_object fail_and_emit
create_network_task network =
    catch
      (do
        job_run (str_append "Creating network " network.name) (run_create network)
        transition success (some "Network created") none
        emit "NETWORK_CREATED")
      (λ exc. do save_object (with_status error) copy_status; fail_and_emit "NETWORK_ERROR" exc)

unfoldable pub run_delete : Network → Task
run_delete network = do send_operation delete_network (payload_of network) rpc_timeout; pure tt

-- `delete_network_task`: the row goes only after the agent's answer.
unfoldable pub delete_network_task : Network → Task
unfolding run_delete save_object delete_object
delete_network_task network =
    catch
      (do
        job_run (str_append "Deleting network " network.name) (run_delete network)
        delete_object
        transition success (some "Network deleted") none
        emit "NETWORK_DELETED")
      (λ exc. do save_object (with_status error) copy_status; fail_job exc)
