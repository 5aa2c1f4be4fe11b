-- ===== src/Backups/Mirrored.antt =====
-- A backup schedule and its Celery Beat task through the requests on it (backend/apps/backups/).
use node_pilot.Common.{
  Bool, true, false, ◌||◌, Option, none, some, List, [], ◌∷◌, length, ◌==◌, or_else, ◌≡◌, refl, sym,
  ap, ◌∙◌, ◌⊎◌, inl, inr, arith, All, Bool-cases,
}
use mathlib.Core.Path.{subst}
use node_pilot.Common.Error.{Error, validation_error}
use node_pilot.Common.Exec.{Result, ok, err, Exec, when, ◌>>◌, bind_step, bind_stop}
use node_pilot.Hypervisor.Text.{Text, codes}
use node_pilot.Host.Names.{split_words}
use node_pilot.Host.Facts.{same_text-eq}
use node_pilot.Backups.Schedules.{
  Schedule, PeriodicTask, Beat, Post, Patch, cron_fields, get_crontab, sync_periodic_task,
  create_schedule, differs, patched, retimed, switched, new_fields, update_task, update_schedule,
  delete_schedule, all_pass, validate_cron_expression, Request, patch, destroy, validate_given,
  perform_create, on_schedule, perform,
}

abbrev is_cron : Text → Bool
is_cron cron = length (split_words cron) == 5

abbrev pub nothing : Beat
nothing = record { schedule = none; task = none }

differs-false :
    (given : Option Text) (old : Text) → differs given old ≡ false → or_else given old ≡ old
differs-false none old h = refl
differs-false (some new) old h = same_text-eq new old (ground (arith, h))

switched_crontab : (given : Option Bool) (t : PeriodicTask) → (switched given t).crontab ≡ t.crontab
switched_crontab none t = refl
switched_crontab (some e) t = refl

switched_timezone :
    (given : Option Bool) (t : PeriodicTask) → (switched given t).timezone ≡ t.timezone
switched_timezone none t = refl
switched_timezone (some e) t = refl

switched_enabled :
    (given : Option Bool) (t : PeriodicTask) → (switched given t).enabled ≡ or_else given t.enabled
switched_enabled none t = refl
switched_enabled (some e) t = refl

module _ (zones : Text → Bool) where
  -- A linked schedule whose task has its cron fields, its time zone and its `enabled`.
  pub record Matches (s : Schedule) (t : PeriodicTask) : Type 0 where
    pub is_linked : s.linked ≡ true
    pub known_zone : zones s.timezone ≡ true
    pub five_fields : is_cron s.cron_expression ≡ true
    pub same_fields : t.crontab ≡ split_words s.cron_expression
    pub same_timezone : t.timezone ≡ s.timezone
    pub same_enabled : t.enabled ≡ s.enabled

  -- A schedule with a task that matches it, or neither.
  pub data IsMirrored : Beat → Type 0 where
    both :
        (s : Schedule) (t : PeriodicTask)
        → Matches s t
        → IsMirrored (record { schedule = some s; task = some t })
    neither : IsMirrored (record { schedule = none; task = none })

  -- The time zones that a POST sets and that a request gives are known.
  abbrev pub KnowsZone : Post → Type 0
  KnowsZone post = zones (or_else post.timezone (codes "UTC")) ≡ true

  abbrev pub IsKnown : Option Text → Type 0
  IsKnown none = Unit
  IsKnown (some zone) = zones zone ≡ true

  abbrev pub GivesZone : Request → Type 0
  GivesZone (patch p) = IsKnown p.timezone
  GivesZone destroy = Unit

  zone_after :
      (given : Option Text) (old : Text)
      → IsKnown given
      → zones old ≡ true
      → zones (or_else given old) ≡ true
  zone_after none old g h = h
  zone_after (some zone) old g h = g

  get_crontab-ok :
      (cron timezone : Text)
      → is_cron cron ≡ true
      → zones timezone ≡ true
      → get_crontab zones cron timezone ≡ ok (split_words cron)
  unfolding get_crontab cron_fields
  get_crontab-ok cron timezone five known = ground (arith, five, known)

  -- A task with the fields and the time zone of the patched schedule, once `enabled` is set.
  switched-Matches :
      (p : Patch) (s : Schedule) (t : PeriodicTask)
      → s.linked ≡ true
      → is_cron (patched p s).cron_expression ≡ true
      → t.crontab ≡ split_words (patched p s).cron_expression
      → zones (patched p s).timezone ≡ true
      → t.timezone ≡ (patched p s).timezone
      → t.enabled ≡ s.enabled
      → Matches (patched p s) (switched p.enabled t)
  switched-Matches p s t linked five fields known zone on = record {
    is_linked = linked;
    known_zone = known;
    five_fields = five;
    same_fields = switched_crontab p.enabled t ∙ fields;
    same_timezone = switched_timezone p.enabled t ∙ zone;
    same_enabled = switched_enabled p.enabled t ∙ ap (or_else p.enabled) on;
  }

  -- Whichever fields a PATCH gives, with a new cron expression of five fields the task matches the
  -- patched schedule.
  patched-Matches :
      (p : Patch) (s : Schedule) (t : PeriodicTask) (changed : Bool)
      → (differs p.cron_expression s.cron_expression || differs p.timezone s.timezone) ≡ changed
      → is_cron (patched p s).cron_expression ≡ true
      → zones (patched p s).timezone ≡ true
      → Matches s t
      → (fields : List Text) × (new_fields changed zones
            (patched p s).cron_expression
            (patched p s).timezone
          ≡ ok fields)
        × Matches
            (patched p s)
            (switched p.enabled (retimed changed fields (patched p s).timezone t))
  unfolding new_fields
  patched-Matches p s t true e five known m = (
    split_words (patched p s).cron_expression,
    get_crontab-ok (patched p s).cron_expression (patched p s).timezone five known,
    switched-Matches p s _ m.is_linked five refl known refl m.same_enabled,
  )
  patched-Matches p s t false e five known m = (
    [],
    refl,
    switched-Matches p s t m.is_linked five
        (m.same_fields
          ∙ ap split_words
              (sym (differs-false p.cron_expression s.cron_expression (ground (arith, e)))))
        known (m.same_timezone ∙ sym (differs-false p.timezone s.timezone (ground (arith, e))))
        m.same_enabled,
  )

  when-true :
      {S : Type 0} (c : Bool) (m : Exec S (Unit {0})) (state : S)
      → c ≡ true
      → when c m state ≡ m state
  when-true c m state h = rw h refl

  update_task_run :
      (changed : Bool) (enabled : Option Bool) (s : Schedule) (row : Option Schedule)
      (t : PeriodicTask) (fields : List Text)
      → new_fields changed zones s.cron_expression s.timezone ≡ ok fields
      → update_task zones changed enabled s (record { schedule = row; task = some t }) ≡ (
        ok tt,
        record {
          schedule = row;
          task = some (switched enabled (retimed changed fields s.timezone t));
        },
      )
  unfolding update_task
  update_task_run changed enabled s row t fields read = rw read refl

  update-IsMirrored :
      (p : Patch) (s : Schedule) (t : PeriodicTask)
      → is_cron (patched p s).cron_expression ≡ true
      → zones (patched p s).timezone ≡ true
      → Matches s t
      → IsMirrored (update_schedule zones s p (record { schedule = some s; task = some t })).1
  unfolding update_schedule
  update-IsMirrored p s t five known m =
      let changed = differs p.cron_expression s.cron_expression || differs p.timezone s.timezone in
      let (fields, read, matches) = patched-Matches p s t changed refl five known m in
      subst (λ (r : Result (Unit {0}) × Beat). IsMirrored r.1)
        (sym (
          when-true s.linked (update_task zones changed p.enabled (patched p s)) _ m.is_linked
          ∙ update_task_run changed p.enabled (patched p s) (some (patched p s)) t fields read))
        (both (patched p s) (switched p.enabled (retimed changed fields (patched p s).timezone t))
          matches)

  delete-IsMirrored :
      (s : Schedule) (t : PeriodicTask)
      → Matches s t
      → IsMirrored (delete_schedule s (record { schedule = some s; task = some t })).1
  unfolding delete_schedule
  delete-IsMirrored s t m = rw m.is_linked neither

  -- What runs behind a check that changes nothing.
  checked-IsMirrored :
      {Q : Type 0} (check : Exec Beat (Unit {0})) (next : Exec Beat (Unit {0})) (beat : Beat)
      → ((e : Error) × (check beat ≡ (err e, beat))) ⊎ ((check beat ≡ (ok tt, beat)) × Q)
      → IsMirrored beat
      → (Q → IsMirrored (next beat).1)
      → IsMirrored ((check >> next) beat).1
  checked-IsMirrored check next beat (inl (e, stops)) before after =
      subst (λ (r : Result (Unit {0}) × Beat). IsMirrored r.1)
        (sym (bind_stop check (λ _. next) beat e beat stops)) before
  checked-IsMirrored check next beat (inr (passes, q)) before after =
      subst (λ (r : Result (Unit {0}) × Beat). IsMirrored r.1)
        (sym (bind_step check (λ _. next) beat tt beat passes)) (after q)

  created-IsMirrored :
      (post : Post)
      → KnowsZone post
      → is_cron post.cron_expression ≡ true
      → IsMirrored (create_schedule zones post nothing).1
  unfolding create_schedule sync_periodic_task
  created-IsMirrored post known five =
      rw (get_crontab-ok post.cron_expression (or_else post.timezone (codes "UTC")) five known) (
        both _ _ (record {
          is_linked = refl;
          known_zone = known;
          five_fields = five;
          same_fields = refl;
          same_timezone = refl;
          same_enabled = refl;
        }))

  module _ (validators : List (Text → Bool)) where
    -- A validation changes nothing, and passes only five fields.
    validated :
        (cron : Text) (beat : Beat)
        → ((e : Error) × (validate_cron_expression validators zones cron beat ≡ (err e, beat)))
          ⊎ ((validate_cron_expression validators zones cron beat ≡ (ok tt, beat))
              × (is_cron cron ≡ true))
    unfolding validate_cron_expression
    validated cron beat = elim (Bool-cases (is_cron cron)) [
      | inr other ↦ inl (validation_error, rw other refl)
      | inl five ↦ elim (Bool-cases (all_pass validators (split_words cron))) [
        | inr fails ↦ inl (validation_error, rw (five, fails) refl)
        | inl passes ↦ inr (rw (five, passes) refl, five)
      ]
    ]

    create-IsMirrored :
        (post : Post) → KnowsZone post → IsMirrored (perform_create validators zones post nothing).1
    unfolding perform_create
    create-IsMirrored post known =
        checked-IsMirrored (validate_cron_expression validators zones post.cron_expression)
          (create_schedule zones post) nothing (validated post.cron_expression nothing) neither
          (created-IsMirrored post known)

    patch-IsMirrored :
        (p : Patch) (s : Schedule) (t : PeriodicTask) (given : Option Text)
        → p.cron_expression ≡ given
        → zones (or_else p.timezone s.timezone) ≡ true
        → Matches s t
        → IsMirrored
            ((validate_given validators zones given >> update_schedule zones s p)
              (record { schedule = some s; task = some t })).1
    patch-IsMirrored p s t none e known m =
        update-IsMirrored p s t (ap (λ g. is_cron (or_else g s.cron_expression)) e ∙ m.five_fields)
          known m
    patch-IsMirrored p s t (some cron) e known m =
        checked-IsMirrored (validate_cron_expression validators zones cron)
          (update_schedule zones s p) _ (validated cron _) (both s t m)
          (λ five.
            update-IsMirrored p s t (ap (λ g. is_cron (or_else g s.cron_expression)) e ∙ five) known
              m)

    perform-IsMirrored :
        (request : Request) (beat : Beat)
        → GivesZone request
        → IsMirrored beat
        → IsMirrored (perform validators zones request beat).1
    unfolding perform on_schedule
    perform-IsMirrored (patch p) _ g (both s t m) =
        patch-IsMirrored p s t p.cron_expression refl
          (zone_after p.timezone s.timezone g m.known_zone) m
    perform-IsMirrored destroy _ g (both s t m) = delete-IsMirrored s t m
    perform-IsMirrored request _ g neither = neither

    abbrev pub served : List Request → Beat → Beat
    served [] beat = beat
    served (request ∷ requests) beat = served requests (perform validators zones request beat).1

    served-IsMirrored :
        (requests : List Request) (beat : Beat)
        → All GivesZone requests
        → IsMirrored beat
        → IsMirrored (served requests beat)
    served-IsMirrored [] beat g m = m
    served-IsMirrored (request ∷ requests) beat g m =
        served-IsMirrored requests _ g.1 (perform-IsMirrored request beat g.0 m)

    -- After a POST on the views and any PATCH and DELETE requests after it, refused ones included, none
    -- of which gives a time zone that Celery Beat does not know, there is either no schedule and no
    -- periodic task, or a linked schedule with five cron fields and a task with those fields, its time
    -- zone and its `enabled`.
    pub schedule-IsMirrored :
        (post : Post) (requests : List Request)
        → KnowsZone post
        → All GivesZone requests
        → IsMirrored (served requests (perform_create validators zones post nothing).1)
    schedule-IsMirrored post requests known given =
        served-IsMirrored requests _ given (create-IsMirrored post known)
