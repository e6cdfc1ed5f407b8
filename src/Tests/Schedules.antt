-- ===== src/Tests/Schedules.antt =====
-- A workflow of every Sunday, and one of every second day.
use opc_platform.Prelude.{
  ◌≡◌, refl, none, some, [], ◌∷◌, if◌then◌else◌, str_eq, pos, lookup, insert,
}
use opc_platform.Workflow.Schedules.{
  Syntax, CronScheduler, Moment, add_workflow, set_enabled, matches_every, in_range, is_exactly,
  matches_part, matches_parts, matches_cron_field, matches_fields, matches_cron, check_and_trigger,
}

schedules : Unit {0}
unfolding lookup insert add_workflow set_enabled matches_every in_range is_exactly matches_part
    matches_parts matches_cron_field matches_fields matches_cron check_and_trigger
schedules = tt

abbrev syntax : Syntax
syntax = record {
  fields = λ e.
      if str_eq e "0 9 * * 0"
      then "0" ∷ "9" ∷ "*" ∷ "*" ∷ "0" ∷ []
      else if str_eq e "0 9 */2 * *"
      then "0" ∷ "9" ∷ "*/2" ∷ "*" ∷ "*" ∷ []
      else [];
  after_every = λ f. if str_eq f "*/2" then some "2" else none;
  split_commas = λ f. f ∷ [];
  split_dash = λ p. none;
  atoi = λ t.
      if str_eq t "0"
      then some (pos 0)
      else if str_eq t "9"
      then some (pos 9)
      else if str_eq t "2"
      then some (pos 2)
      else none;
}

-- The first of a month, a Sunday.
abbrev sunday : Moment
sunday = record { minute = 0; hour = 9; day = 1; month = 3; weekday = 0 }

abbrev entries : CronScheduler
unfolding schedules
entries = add_workflow "days" "0 9 */2 * *" (add_workflow "weekly" "0 9 * * 0" [])

weekly_runs : check_and_trigger syntax sunday ("weekly" ∷ "days" ∷ []) entries ≡ "weekly" ∷ []
unfolding schedules
weekly_runs = refl
