-- ===== src/Backups/Tests.antt =====
-- The theorems on backups at concrete rows.
use node_pilot.Common.{refl, inl, true, false, none, some, []}
use node_pilot.Jobs.Model.{Job, backup_create}
use node_pilot.Jobs.Services.{create_job}
use node_pilot.Task.World.{World}
use node_pilot.Task.Run.{celery_run}
use node_pilot.Task.Keeps.{Ends}
use node_pilot.Task.Ends.{IsSucceeded, IsFailed}
use node_pilot.Task.Saved.{Saved}
use node_pilot.Backups.Model.{BackupTarget, local, Backup, full, completed, Payload}
use node_pilot.Backups.Ends.{creates, body_of, backup_task_ends}

abbrev shelf : BackupTarget
shelf = record { id = 1; type = local; config = "{}"; enabled = true }

abbrev old : Backup
old = record {
  uuid = 4;
  vm = 5;
  target = shelf;
  type = full;
  status = completed;
  size_bytes = 1000;
  checksum = "ab12";
  agent_backup_ref = "b-4";
  started_at = some 10;
  finished_at = some 20;
  retention_expires_at = some 50;
}

abbrev waiting_job : Job
waiting_job = create_job backup_create "Backup" "4" 1 none none "" 600

-- A VM without disks.
abbrev world : World Payload (Saved Backup)
world = record {
  row = waiting_job;
  job = waiting_job;
  now = 100;
  busy = λ _. false;
  held = [];
  replies = [];
  sent = [];
  events = [];
  res = record { object = old; stored = some old };
}

backup_task_ends_example :
    Ends {A = Unit {0}} IsSucceeded IsFailed (celery_run "t-4" (body_of [] (creates full)) world)
backup_task_ends_example = (backup_task_ends [] (creates full) "t-4").at world (inl (refl, refl))
