-- ===== src/Backups/Model.antt =====
-- backend/apps/backups/models.py.
use node_pilot.Common.{ℕ, String, Bool, Option}

pub data BackupType : Type 0 where
  full incremental snapshot : BackupType

pub data BackupStatus : Type 0 where
  pending running verifying completed failed restoring deleted : BackupStatus

pub data BackupTargetType : Type 0 where
  local nfs s3 minio ceph : BackupTargetType

-- The configuration of a target is JSON that the controller passes on unread: its text.
pub record BackupTarget : Type 0 where
  pub id : ℕ
  pub type : BackupTargetType
  pub config : String
  pub enabled : Bool

pub record Backup : Type 0 where
  pub uuid : ℕ
  pub vm : ℕ
  pub target : BackupTarget
  pub type : BackupType
  pub status : BackupStatus
  pub size_bytes : ℕ
  pub checksum : String
  pub agent_backup_ref : String
  pub started_at : Option ℕ
  pub finished_at : Option ℕ
  pub retention_expires_at : Option ℕ

-- What the two operations send.
pub data Payload : Type 0 where
  backup_payload : ℕ → BackupType → BackupTarget → String → Payload
  restore_payload : String → BackupTarget → String → String → Payload
