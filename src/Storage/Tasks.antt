-- ===== src/Storage/Tasks.antt =====
-- The task that registers a storage pool (backend/apps/storage/tasks.py) and the call for a pool's
-- capacity (backend/apps/storage/services.py).
use node_pilot.Common.{ℕ, String, Option, none, some, str_append}
use node_pilot.Common.Error.{key_error}
use node_pilot.Common.Exec.{Result, ok, err, Exec, pure, catch, lift, ◌>>◌, ◌>>=◌}
use node_pilot.Jobs.Model.{success}
use node_pilot.Task.Protocol.{create_storage_pool, get_storage_pool_info}
use node_pilot.Task.World.{World, transition, emit}
use node_pilot.Task.Agent.{send_operation, rpc_timeout}
use node_pilot.Task.Run.{job_run, fail_and_emit}
use node_pilot.Task.Saved.{Saved, save_object}
use node_pilot.Storage.Model.{StorageType, directory, StoragePoolStatus, online, StoragePool}

-- The payload of both operations.
pub record Payload : Type 0 where
  pub storage_type : StorageType
  pub storage_path : String

abbrev pub Task : Type 0
Task = Exec (World Payload (Saved StoragePool)) (Unit {0})

abbrev pub payload_of : StoragePool → Payload
payload_of pool = record { storage_type = pool.type; storage_path = pool.path }

abbrev pub copy_status : StoragePool → StoragePool → StoragePool
copy_status pool row = record row { status = pool.status }

abbrev pub copy_info : StoragePool → StoragePool → StoragePool
copy_info pool row = record row {
  capacity_bytes = pool.capacity_bytes;
  used_bytes = pool.used_bytes;
  available_bytes = pool.available_bytes;
  status = pool.status;
}

-- `info[key]`
unfoldable pub required : Option ℕ → Result ℕ
required none = err key_error
required (some n) = ok n

-- `refresh_storage_pool_info`. The keys are read before the object changes: of an object that got
-- only some of them nothing but the status is saved.
unfoldable pub refresh_storage_pool_info : StoragePool → Task
unfolding save_object
refresh_storage_pool_info pool = do
  info ← send_operation get_storage_pool_info (payload_of pool) rpc_timeout
  capacity ← lift (required info.capacity_bytes)
  used ← lift (required info.used_bytes)
  available ← lift (required info.available_bytes)
  save_object
      (λ p. record p {
        capacity_bytes = capacity;
        used_bytes = used;
        available_bytes = available;
        status = online;
      })
      copy_info

-- Only a directory is made on the node; the other types are there already.
unfoldable pub provision_pool : StorageType → StoragePool → Task
provision_pool directory pool = do
  send_operation create_storage_pool (payload_of pool) rpc_timeout
  pure tt
provision_pool _ pool = pure tt

unfoldable pub run_create : StoragePool → Task
unfolding provision_pool refresh_storage_pool_info
run_create pool = do provision_pool pool.type pool; refresh_storage_pool_info pool

-- `create_storage_pool_task`, once the pool is loaded.
unfoldable pub create_storage_pool_task : StoragePool → Task
unfolding run_create save_object fail_and_emit
create_storage_pool_task pool =
    catch
      (do
        job_run (str_append "Registering storage pool " pool.name) (run_create pool)
        transition success (some "Storage pool registered") none
        emit "STORAGE_POOL_CREATED")
      (λ exc. do
        save_object (λ p. record p { status = StoragePoolStatus.error }) copy_status
        fail_and_emit "STORAGE_POOL_ERROR" exc)
