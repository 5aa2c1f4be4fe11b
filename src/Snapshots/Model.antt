-- ===== src/Snapshots/Model.antt =====
-- backend/apps/snapshots/models.py.
use node_pilot.Common.{ℕ, String, Bool, Option, ◌==◌}

pub data SnapshotStatus : Type 0 where
  creating ready deleting rolling_back error : SnapshotStatus

abbrev pub status_index : SnapshotStatus → ℕ
status_index creating = 0
status_index ready = 1
status_index deleting = 2
status_index rolling_back = 3
status_index error = 4

abbrev pub same_status : SnapshotStatus → SnapshotStatus → Bool
same_status a b = status_index a == status_index b

pub record Snapshot : Type 0 where
  pub uuid : ℕ
  pub vm : ℕ
  pub name : String
  pub description : String
  pub status : SnapshotStatus
  pub size_bytes : ℕ
  pub agent_snapshot_id : String

-- What the agent is sent about a snapshot.
pub data Payload : Type 0 where
  create : ℕ → String → Payload
  existing : String → ℕ → Payload

-- The task's object and the row of the table, which is gone after `delete`.
pub record Rows : Type 0 where
  pub snapshot : Snapshot
  pub stored : Option Snapshot
