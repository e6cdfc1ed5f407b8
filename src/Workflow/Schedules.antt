-- ===== src/Workflow/Schedules.antt =====
-- pkg/workflow/cron.go: the scheduled workflows and the match of a cron expression. The string library
-- is a parameter, `Syntax`; the loop of the scheduler calls `check_and_trigger` each minute, and what is
-- triggered is Execute of the workflow's specification.
use opc_platform.Prelude.{
  ℕ, zero, suc, ◌%◌, ◌==◌, String, Bool, true, false, not, ◌&&◌, Option, none, some, List, [], ◌∷◌,
  if◌then◌else◌, str_eq, ℤ, pos, negsuc, ltb_ℤ, Map, lookup, insert, delete,
}

-- `strings.Fields`, the rest after the prefix `*/`, `strings.Split` at commas, `strings.SplitN` at the
-- first dash of a part that has one, and `strconv.Atoi`.
pub record Syntax : Type 0 where
  pub fields : String → List String
  pub after_every : String → Option String
  pub split_commas : String → List String
  pub split_dash : String → Option (String × String)
  pub atoi : String → Option ℤ

pub record CronEntry : Type 0 where
  pub workflow_name : String
  pub schedule : String
  pub enabled : Bool

abbrev pub CronScheduler : Type 0
CronScheduler = Map CronEntry

-- Minute, hour, day, month and weekday.
pub record Moment : Type 0 where
  pub minute : ℕ
  pub hour : ℕ
  pub day : ℕ
  pub month : ℕ
  pub weekday : ℕ

unfoldable pub add_workflow : String → String → CronScheduler → CronScheduler
add_workflow name schedule entries =
    insert name (record { workflow_name = name; schedule = schedule; enabled = true }) entries

unfoldable pub remove_workflow : String → CronScheduler → CronScheduler
remove_workflow name entries = delete name entries

-- `Enable` and `Disable`; `none` is the error of a name that is not there.
unfoldable pub set_enabled : Bool → String → CronScheduler → Option CronScheduler
set_enabled enabled name entries = elim (lookup name entries) [
  | none ↦ none
  | some entry ↦ some (insert name (record entry { enabled = enabled }) entries)
]

-- `*/N`
unfoldable pub matches_every : Option ℤ → ℕ → Bool
matches_every none value = false
matches_every (some (negsuc n)) value = false
matches_every (some (pos zero)) value = false
matches_every (some (pos (suc n))) value = value % suc n == 0

abbrev pub leb_ℤ : ℤ → ℤ → Bool
leb_ℤ a b = not (ltb_ℤ b a)

unfoldable pub in_range : Option ℤ → Option ℤ → ℕ → Bool
in_range none high value = false
in_range (some low) none value = false
in_range (some low) (some high) value = leb_ℤ low (pos value) && leb_ℤ (pos value) high

unfoldable pub is_exactly : Option ℤ → ℕ → Bool
is_exactly none value = false
is_exactly (some n) value = leb_ℤ n (pos value) && leb_ℤ (pos value) n

module _ (syntax : Syntax) where
  -- A range, or an exact value.
  unfoldable pub matches_part : String → ℕ → Bool
  unfolding in_range is_exactly
  matches_part part value = elim (syntax.split_dash part) [
    | none ↦ is_exactly (syntax.atoi part) value
    | some (low, high) ↦ in_range (syntax.atoi low) (syntax.atoi high) value
  ]

  unfoldable pub matches_parts : List String → ℕ → Bool
  unfolding matches_part
  matches_parts [] value = false
  matches_parts (part ∷ parts) value =
      let rest = matches_parts parts value in if matches_part part value then true else rest

  unfoldable pub matches_cron_field : String → ℕ → Bool
  unfolding matches_every matches_parts
  matches_cron_field field value =
      if str_eq field "*" then true else (elim (syntax.after_every field) [
        | some n ↦ matches_every (syntax.atoi n) value
        | none ↦ matches_parts (syntax.split_commas field) value
      ])

  -- The loop over the five fields; an expression with more or fewer fields matches never.
  unfoldable pub matches_fields : List String → List ℕ → Bool
  unfolding matches_cron_field
  matches_fields [] [] = true
  matches_fields [] (v ∷ values) = false
  matches_fields (field ∷ fields) [] = false
  matches_fields (field ∷ fields) (v ∷ values) =
      matches_cron_field field v && matches_fields fields values

  unfoldable pub matches_cron : String → Moment → Bool
  unfolding matches_fields
  matches_cron expr now =
      matches_fields (syntax.fields expr)
        (now.minute ∷ now.hour ∷ now.day ∷ now.month ∷ now.weekday ∷ [])

  -- The workflows that are triggered, in the order in which the entries are visited.
  unfoldable pub check_and_trigger : Moment → List String → CronScheduler → List String
  unfolding matches_cron
  check_and_trigger now [] entries = []
  check_and_trigger now (name ∷ names) entries =
      let rest = check_and_trigger now names entries in
      elim (lookup name entries) [
        | none ↦ rest
        | some entry ↦
            if entry.enabled && matches_cron entry.schedule now then name ∷ rest else rest
      ]
