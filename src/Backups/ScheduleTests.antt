-- ===== src/Backups/ScheduleTests.antt =====
-- Tests of backup schedules, and the example of their property.
use node_pilot.Common.{
  ◌&&◌, ◌++◌, is_some, Bool, true, false, Option, none, some, List, [], ◌∷◌, ◌≡◌, refl,
}
use node_pilot.Common.Error.{validation_error}
use node_pilot.Common.Exec.{err}
use node_pilot.Hypervisor.Text.{Text, codes}
use node_pilot.Host.Names.{same_text}
use node_pilot.Backups.Model.{full}
use node_pilot.Backups.Schedules.{
  Beat, Post, Patch, cron_fields, get_crontab, sync_periodic_task, create_schedule, new_fields,
  update_task, update_schedule, validate_cron_expression, Request, patch, perform_create,
  on_schedule, perform,
}
use node_pilot.Backups.Mirrored.{IsMirrored, nothing, served, schedule-IsMirrored}

abbrev join : List Text → Text
join [] = []
join (t ∷ ts) = t ++ join ts

-- Fields that are not empty.
abbrev fills : Text → Bool
fills [] = false
fills (c ∷ cs) = true

abbrev all_fill : List (Text → Bool)
all_fill = fills ∷ fills ∷ fills ∷ fills ∷ fills ∷ []

abbrev nightly : Post
nightly = record {
  organization = 1;
  vm = 2;
  target = 3;
  backup_type = full;
  cron_expression = codes "0 2 * * *";
  timezone = none;
  retention_days = some 7;
}

abbrev changes : Option Text → Option Bool → Patch
changes cron enabled = record {
  organization = none;
  vm = none;
  target = none;
  backup_type = none;
  cron_expression = cron;
  timezone = none;
  retention_days = none;
  enabled = enabled;
}

abbrev requests : List Request
requests =
    patch (changes (some (codes "30 3 * * 1")) (some false))
    ∷ patch (changes (some (codes "daily")) none)
    ∷ patch (changes none (some true))
    ∷ []

-- The time zones that are known.
abbrev a_zone : Text → Bool
a_zone zone = same_text zone (codes "UTC")

abbrev made : Beat
made = (perform_create all_fill a_zone nightly nothing).1

-- Four fields are refused before anything is stored.
four_fields_refused :
    perform_create all_fill a_zone (record nightly { cron_expression = codes "0 2 * *" }) nothing
    ≡ (err validation_error, nothing)
unfolding perform_create validate_cron_expression
four_fields_refused = refl

-- The last request turns the schedule on again, with the crontab of the first.
turned_on :
    elim (served a_zone all_fill requests made).task [
      | none ↦ false
      | some t ↦ t.enabled && same_text (join t.crontab) (codes "303**1")
    ]
    ≡ true
unfolding perform_create create_schedule sync_periodic_task validate_cron_expression cron_fields
    get_crontab perform on_schedule update_schedule update_task new_fields
turned_on = refl

-- A time zone that is not known is not refused before the row is stored: the schedule stays, with no
-- task.
zone_refused :
    let beat =
      (perform_create all_fill a_zone
        (record nightly { timezone = some (codes "Mars") })
        nothing).1 in
    (is_some beat.schedule ≡ true) × (is_some beat.task ≡ false)
unfolding perform_create create_schedule sync_periodic_task validate_cron_expression cron_fields
    get_crontab
zone_refused = (refl, refl)

-- Outside the views nothing checks an expression: a malformed one is stored, and the task keeps its
-- crontab.
malformed_stored :
    elim made.schedule [
      | none ↦ false
      | some s ↦
          elim (update_schedule a_zone s (changes (some (codes "daily")) none) made).1.schedule [
            | none ↦ false
            | some s' ↦ same_text s'.cron_expression (codes "daily")
          ]
    ]
    ≡ true
unfolding perform_create create_schedule sync_periodic_task validate_cron_expression cron_fields
    get_crontab update_schedule update_task new_fields
malformed_stored = refl

schedule-IsMirrored_example : IsMirrored a_zone (served a_zone all_fill requests made)
schedule-IsMirrored_example =
    schedule-IsMirrored a_zone all_fill nightly requests refl (tt, (tt, (tt, tt)))
