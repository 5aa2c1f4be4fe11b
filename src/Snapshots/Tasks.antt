-- ===== src/Snapshots/Tasks.antt =====
-- backend/apps/snapshots/tasks.py.
use node_pilot.Common.{none, some, or_else, str_append}
use node_pilot.Common.Error.{row_gone}
use node_pilot.Common.Exec.{ok, err, Exec, catch, ◌>>=◌, ◌>>◌}
use node_pilot.Jobs.Model.{success}
use node_pilot.Task.Protocol.{AgentData, create_snapshot, delete_snapshot, rollback_snapshot}
use node_pilot.Task.World.{World, lifecycle, storage, transition, with_lock, update, read, emit}
use node_pilot.Task.Agent.{send_operation, rpc_timeout}
use node_pilot.Task.Run.{job_run, fail_job}
use node_pilot.Snapshots.Model.{
  SnapshotStatus, ready, deleting, rolling_back, error, Snapshot, Payload, create, existing, Rows,
}

abbrev pub Task : Type 0 → Type 0
Task A = Exec (World Payload Rows) A

-- `snapshot.status = s; snapshot.save(update_fields=["status"])`. A save of a row that is gone
-- raises, after the object was changed.
unfoldable pub save_status : SnapshotStatus → Task (Unit {0})
save_status s w =
    let snapshot' = record (w.res.snapshot) { status = s } in
    elim w.res.stored [
      | none ↦ (err row_gone, record w { res = record { snapshot = snapshot'; stored = none } })
      | some row ↦ (
        ok tt,
        record w {
          res = record { snapshot = snapshot'; stored = some (record row { status = s }) };
        },
      )
    ]

-- The fields that a successful creation saves.
unfoldable pub save_created : AgentData → Task (Unit {0})
save_created answer =
    let filled = λ (s : Snapshot). record s {
      agent_snapshot_id = or_else answer.snapshot_id "";
      size_bytes = or_else answer.size_bytes 0;
      status = ready;
    } in
    λ w. elim w.res.stored [
      | none ↦ (
        err row_gone,
        record w { res = record { snapshot = filled w.res.snapshot; stored = none } },
      )
      | some row ↦ (
        ok tt,
        record w { res = record { snapshot = filled w.res.snapshot; stored = some (filled row) } },
      )
    ]

-- `snapshot.delete()`
unfoldable pub delete_row : Task (Unit {0})
delete_row = update (λ r. record r { stored = none })

-- `create_snapshot_task`
unfoldable pub create_snapshot_task : Task (Unit {0})
unfolding save_status save_created
create_snapshot_task = do
  snapshot ← read (λ r. r.snapshot)
  catch
      (do
        with_lock storage (
            job_run (str_append "Creating snapshot " snapshot.name) (do
              answer ←
                  send_operation create_snapshot (create snapshot.uuid snapshot.name) rpc_timeout
              save_created answer))
        transition success (some "Snapshot created") none
        emit "VM_SNAPSHOT_CREATED")
      (λ exc. do save_status error; fail_job exc)

-- `delete_snapshot_task` and `rollback_snapshot_task`, once the object is read.
unfoldable pub delete_loaded : Snapshot → Task (Unit {0})
unfolding save_status delete_row
delete_loaded snapshot =
    catch
      (do
        with_lock storage (
            job_run (str_append "Deleting snapshot " snapshot.name) (do
              save_status deleting
              send_operation delete_snapshot (existing snapshot.agent_snapshot_id snapshot.uuid)
                  rpc_timeout))
        delete_row
        transition success (some "Snapshot deleted") none)
      (λ exc. do save_status snapshot.status; fail_job exc)

unfoldable pub delete_snapshot_task : Task (Unit {0})
unfolding delete_loaded
delete_snapshot_task = do snapshot ← read (λ r. r.snapshot); delete_loaded snapshot

unfoldable pub rollback_loaded : Snapshot → Task (Unit {0})
unfolding save_status
rollback_loaded snapshot =
    catch
      (do
        with_lock lifecycle (
            with_lock storage (
              job_run (str_append "Rolling back to " snapshot.name) (do
                save_status rolling_back
                send_operation rollback_snapshot (existing snapshot.agent_snapshot_id snapshot.uuid)
                    rpc_timeout
                save_status ready)))
        transition success (some "Rolled back") none
        emit "VM_SNAPSHOT_ROLLED_BACK")
      (λ exc. do save_status ready; fail_job exc)

unfoldable pub rollback_snapshot_task : Task (Unit {0})
unfolding rollback_loaded
rollback_snapshot_task = do snapshot ← read (λ r. r.snapshot); rollback_loaded snapshot
