-- ===== src/Backups/Schedules.antt =====
-- Backup schedules and their Celery Beat rows: the services (backend/apps/backups/services.py), the
-- model (backend/apps/backups/models.py), the check of a cron expression
-- (backend/apps/backups/serializers.py) and the requests (backend/apps/backups/views.py). The state
-- is one schedule from its creation on. The validators of the fields and the time zones that a
-- CrontabSchedule accepts, which are Celery Beat's, are parameters.
use node_pilot.Common.{
  ℕ, Bool, true, false, ◌&&◌, ◌||◌, not, Option, none, some, List, [], ◌∷◌, length, ◌==◌, or_else,
  if◌then◌else◌,
}
use node_pilot.Common.Error.{value_error, validation_error, row_gone}
use node_pilot.Common.Exec.{Result, ok, err, Exec, pure, lift, raise_if, when, modify, ◌>>=◌, ◌>>◌}
use node_pilot.Hypervisor.Text.{Text, codes}
use node_pilot.Host.Names.{same_text, split_words}
use node_pilot.Backups.Model.{BackupType}

-- `BackupSchedule`; `linked` says that `periodic_task` is set.
pub record Schedule : Type 0 where
  pub organization : ℕ
  pub vm : ℕ
  pub target : ℕ
  pub backup_type : BackupType
  pub cron_expression : Text
  pub timezone : Text
  pub retention_days : ℕ
  pub enabled : Bool
  pub linked : Bool

-- The schedule's PeriodicTask with its CrontabSchedule: the five fields and the time zone.
pub record PeriodicTask : Type 0 where
  pub crontab : List Text
  pub timezone : Text
  pub enabled : Bool

pub record Beat : Type 0 where
  pub schedule : Option Schedule
  pub task : Option PeriodicTask

-- `validated_data` of a POST, and the fields that a PATCH gives.
pub record Post : Type 0 where
  pub organization : ℕ
  pub vm : ℕ
  pub target : ℕ
  pub backup_type : BackupType
  pub cron_expression : Text
  pub timezone : Option Text
  pub retention_days : Option ℕ

pub record Patch : Type 0 where
  pub organization : Option ℕ
  pub vm : Option ℕ
  pub target : Option ℕ
  pub backup_type : Option BackupType
  pub cron_expression : Option Text
  pub timezone : Option Text
  pub retention_days : Option ℕ
  pub enabled : Option Bool

-- Unpacking `cron_expression.split()` into five names.
unfoldable pub cron_fields : Text → Result (List Text)
cron_fields cron = if length (split_words cron) == 5 then ok (split_words cron) else err value_error

-- The five fields, and `CrontabSchedule.objects.get_or_create`, which refuses an unknown time zone.
unfoldable pub get_crontab : (Text → Bool) → Text → Text → Result (List Text)
unfolding cron_fields
get_crontab zones cron timezone = elim (cron_fields cron) [
  | err e ↦ err e
  | ok fields ↦ if zones timezone then ok fields else err validation_error
]

-- `_sync_periodic_task`
unfoldable pub sync_periodic_task : (Text → Bool) → Schedule → Exec Beat (Unit {0})
unfolding get_crontab
sync_periodic_task zones schedule = do
  fields ← lift (get_crontab zones schedule.cron_expression schedule.timezone)
  modify (λ beat. record beat {
    task =
        some
          (record { crontab = fields; timezone = schedule.timezone; enabled = schedule.enabled });
  })
  modify (λ beat. record beat { schedule = some (record schedule { linked = true }) })

unfoldable pub create_schedule : (Text → Bool) → Post → Exec Beat (Unit {0})
unfolding sync_periodic_task
create_schedule zones post = do
  schedule ← pure (record {
    organization = post.organization;
    vm = post.vm;
    target = post.target;
    backup_type = post.backup_type;
    cron_expression = post.cron_expression;
    timezone = or_else post.timezone (codes "UTC");
    retention_days = or_else post.retention_days 30;
    enabled = true;
    linked = false;
  })
  modify (λ (beat : Beat). record beat { schedule = some schedule })
  sync_periodic_task zones schedule

-- `field in fields and fields[field] != old`
abbrev pub differs : Option Text → Text → Bool
differs none old = false
differs (some new) old = not (same_text new old)

-- The loop of `setattr`.
abbrev pub patched : Patch → Schedule → Schedule
patched patch s = record s {
  organization = or_else patch.organization s.organization;
  vm = or_else patch.vm s.vm;
  target = or_else patch.target s.target;
  backup_type = or_else patch.backup_type s.backup_type;
  cron_expression = or_else patch.cron_expression s.cron_expression;
  timezone = or_else patch.timezone s.timezone;
  retention_days = or_else patch.retention_days s.retention_days;
  enabled = or_else patch.enabled s.enabled;
}

-- What `update_schedule` writes to the task: the crontab where it changed, `enabled` where given.
abbrev pub retimed : Bool → List Text → Text → PeriodicTask → PeriodicTask
retimed true fields timezone t = record t { crontab = fields; timezone = timezone }
retimed false fields timezone t = t

abbrev pub switched : Option Bool → PeriodicTask → PeriodicTask
switched none t = t
switched (some e) t = record t { enabled = e }

-- The fields of the new crontab, which are read only where it changed.
unfoldable pub new_fields : Bool → (Text → Bool) → Text → Text → Result (List Text)
unfolding get_crontab
new_fields false zones cron timezone = ok []
new_fields true zones cron timezone = get_crontab zones cron timezone

abbrev pub change_task : (PeriodicTask → PeriodicTask) → Option PeriodicTask → Option PeriodicTask
change_task f none = none
change_task f (some t) = some (f t)

-- The part of `update_schedule` on the linked task.
unfoldable pub update_task : (Text → Bool) → Bool → Option Bool → Schedule → Exec Beat (Unit {0})
unfolding new_fields
update_task zones changed enabled schedule = do
  fields ← lift (new_fields changed zones schedule.cron_expression schedule.timezone)
  modify (λ beat. record beat {
    task =
        change_task (λ t. switched enabled (retimed changed fields schedule.timezone t)) beat.task;
  })

unfoldable pub update_schedule : (Text → Bool) → Schedule → Patch → Exec Beat (Unit {0})
unfolding update_task
update_schedule zones schedule patch = do
  changed ← pure (
      differs patch.cron_expression schedule.cron_expression
      || differs patch.timezone schedule.timezone)
  modify (λ (beat : Beat). record beat { schedule = some (patched patch schedule) })
  when schedule.linked (update_task zones changed patch.enabled (patched patch schedule))

unfoldable pub delete_schedule : Schedule → Exec Beat (Unit {0})
delete_schedule schedule = do
  when schedule.linked (modify (λ (beat : Beat). record beat { task = none }))
  modify (λ (beat : Beat). record beat { schedule = none })

-- `zip(fields, …)` with every validator passed.
abbrev pub all_pass : List (Text → Bool) → List Text → Bool
all_pass [] fields = true
all_pass (v ∷ vs) [] = true
all_pass (v ∷ vs) (f ∷ fields) = v f && all_pass vs fields

pub data Request : Type 0 where
  patch : Patch → Request
  destroy : Request

module _ (validators : List (Text → Bool)) (zones : Text → Bool) where
  unfoldable pub validate_cron_expression : Text → Exec Beat (Unit {0})
  validate_cron_expression value = do
    raise_if (not (length (split_words value) == 5)) validation_error
    raise_if (not (all_pass validators (split_words value))) validation_error

  abbrev pub validate_given : Option Text → Exec Beat (Unit {0})
  validate_given none = pure tt
  validate_given (some cron) = validate_cron_expression cron

  -- POST.
  unfoldable pub perform_create : Post → Exec Beat (Unit {0})
  perform_create post = do validate_cron_expression post.cron_expression; create_schedule zones post

  -- `perform_update` and `perform_destroy` on the schedule that was loaded.
  unfoldable pub on_schedule : Request → Schedule → Exec Beat (Unit {0})
  on_schedule (patch p) schedule = do
    validate_given p.cron_expression
    update_schedule zones schedule p
  on_schedule destroy schedule = delete_schedule schedule

  -- A request on the schedule: none is found after it was deleted.
  unfoldable pub perform : Request → Exec Beat (Unit {0})
  perform request beat = elim beat.schedule [
    | none ↦ (err row_gone, beat)
    | some schedule ↦ on_schedule request schedule beat
  ]
