-- ===== src/Cost.antt =====
-- pkg/cost/cost.go: the tracker of cost events, with its budget, its prices and its reports. Money is
-- that of the quotas; the arithmetic of floats, the calendar and JSON are parameters. A time of 0 is
-- the zero time. The events file is a list of lines, each ended by a newline, and the text after the
-- last newline, where a write was cut off.
pub mod Reports
pub mod Prices
pub mod Disk
pub mod Budget
use Prim.Native.String.{◌++◌}
use opc_platform.Prelude.{
  ℕ, suc, ◌+◌, ◌-◌, String, Bool, true, false, not, ◌&&◌, ◌||◌, Option, none, some, List, [], ◌∷◌,
  if◌then◌else◌, ltb, leb, ◌==◌, str_eq, Map, lookup, lookup_or, insert, length, MapOrder, keys,
  keep, drop, Write, unopened, whole, cut_off,
}
use mathlib.Core.List.{◌++◌ as append}
use opc_platform.Quota.{Money}

-- `float64(tokens) / 1000.0 * price`, `spent / limit`, and the starts of the day and the month.
pub record Rates (C : Type 0) : Type 0 where
  pub money : Money C
  pub per_1k : ℕ → C → C
  pub ratio : C → C → C
  pub day_start : ℕ → ℕ
  pub month_start : ℕ → ℕ

pub record CostEvent (C : Type 0) : Type 0 where
  pub event_id : String
  pub timestamp : ℕ
  pub agent_name : String
  pub task_id : String
  pub goal_ref : String
  pub project_ref : String
  pub tokens_in : ℕ
  pub tokens_out : ℕ
  pub total_tokens : ℕ
  pub input_cost : C
  pub output_cost : C
  pub total_cost : C
  pub duration : ℕ
  pub model_provider : String
  pub model_name : String

pub record ModelPricing (C : Type 0) : Type 0 where
  pub provider : String
  pub model : String
  pub input_per_1k : C
  pub output_per_1k : C

pub record BudgetConfig (C : Type 0) : Type 0 where
  pub daily_limit : C
  pub monthly_limit : C
  pub alert_pct : C

pub record BudgetStatus (C : Type 0) : Type 0 where
  pub daily_spent : C
  pub daily_limit : C
  pub daily_pct : C
  pub monthly_spent : C
  pub monthly_limit : C
  pub monthly_pct : C
  pub exceeded : Bool

pub record EventsFile : Type 0 where
  pub lines : List String
  pub rest : Option String

pub record Tracker (C : Type 0) : Type 0 where
  pub events : List (CostEvent C)
  pub budget : BudgetConfig C
  pub pricing : Map (ModelPricing C)
  pub file : EventsFile

-- The messages of `CheckBudget`, but for their numbers.
pub data BudgetMessage : Type 0 where
  silent daily_exceeded monthly_exceeded daily_alert monthly_alert : BudgetMessage

unfoldable pub pricing_key : String → String → String
pricing_key provider model = provider ++ ("/" ++ model)

-- What is written follows the rest of a write that was cut off.
abbrev pub joined : Option String → String → String
joined none text = text
joined (some before) text = before ++ text

module _ {C : Type 0} where
  unfoldable pub set_budget : BudgetConfig C → Tracker C → Tracker C
  set_budget config t = record t { budget = config }

  unfoldable pub set_pricing : ModelPricing C → Tracker C → Tracker C
  set_pricing p t = record t { pricing = insert (pricing_key p.provider p.model) p t.pricing }

  -- The last `n` events, or all of them.
  unfoldable pub recent_events : ℕ → Tracker C → List (CostEvent C)
  recent_events n t =
      if leb (length t.events) n then t.events else drop (length t.events - n) t.events

module _ {C : Type 0} (rates : Rates C) where
  abbrev pub plus : C → C → C
  plus = rates.money.plus

  abbrev pub nothing : C
  nothing = rates.money.nothing

  -- `a >= b`, without NaN, and `a > 0`.
  abbrev pub at_least : C → C → Bool
  at_least a b = not (rates.money.less a b)

  abbrev pub above_nothing : C → Bool
  above_nothing a = rates.money.less nothing a

  -- The identifier and the time where they are missing, and the totals.
  unfoldable pub complete_event : String → ℕ → CostEvent C → CostEvent C
  complete_event new_id now e = record e {
    event_id = if str_eq e.event_id "" then new_id else e.event_id;
    timestamp = if e.timestamp == 0 then now else e.timestamp;
    total_tokens = e.tokens_in + e.tokens_out;
    total_cost = plus e.input_cost e.output_cost;
  }

  -- `persistEvent`: the file, and whether the line is written.
  unfoldable pub persist_event :
      (CostEvent C → Option String) → Write String → CostEvent C → EventsFile → EventsFile × Bool
  persist_event marshal unopened e file = (file, false)
  persist_event marshal whole e file = elim (marshal e) [
    | none ↦ (file, false)
    | some line ↦
        (record { lines = append file.lines (joined file.rest line ∷ []); rest = none }, true)
  ]
  persist_event marshal (cut_off part) e file = elim (marshal e) [
    | none ↦ (file, false)
    | some line ↦ (record file { rest = some (joined file.rest part) }, false)
  ]

  -- The tracker, and whether the event is recorded.
  unfoldable pub record_cost :
      (CostEvent C → Option String)
      → Write String
      → String
      → ℕ
      → CostEvent C
      → Tracker C
      → Tracker C × Bool
  unfolding complete_event persist_event
  record_cost marshal write new_id now event t =
      let e = complete_event new_id now event in
      let (file, written) = persist_event marshal write e t.file in
      if written
      then (record t { file = file; events = append t.events (e ∷ []) }, true)
      else (record t { file = file }, false)

  -- The sum of the costs of the events that pass a test, in their order.
  unfoldable pub spent : (CostEvent C → Bool) → C → List (CostEvent C) → C
  spent test total [] = total
  spent test total (e ∷ es) = spent test (if test e then plus total e.total_cost else total) es

  unfoldable pub get_budget_status : ℕ → Tracker C → BudgetStatus C
  unfolding spent
  get_budget_status now t =
      let daily = spent (λ e. leb (rates.day_start now) e.timestamp) nothing t.events in
      let monthly = spent (λ e. leb (rates.month_start now) e.timestamp) nothing t.events in
      let day_limit = t.budget.daily_limit in
      let month_limit = t.budget.monthly_limit in
      record {
        daily_spent = daily;
        daily_limit = day_limit;
        daily_pct = if above_nothing day_limit then rates.ratio daily day_limit else nothing;
        monthly_spent = monthly;
        monthly_limit = month_limit;
        monthly_pct =
            if above_nothing month_limit then rates.ratio monthly month_limit else nothing;
        exceeded =
            (above_nothing day_limit && at_least daily day_limit)
            || (above_nothing month_limit && at_least monthly month_limit);
      }

  unfoldable pub check_budget : ℕ → Tracker C → Bool × BudgetMessage
  unfolding get_budget_status
  check_budget now t =
      let status = get_budget_status now t in
      if status.exceeded
      then (
        true,
        if above_nothing status.daily_limit && at_least status.daily_spent status.daily_limit
            then daily_exceeded
            else monthly_exceeded,
      )
      else (
        false,
        if not (above_nothing t.budget.alert_pct)
            then silent
            else if at_least status.daily_pct t.budget.alert_pct
            then daily_alert
            else if at_least status.monthly_pct t.budget.alert_pct
            then monthly_alert
            else silent,
      )

  unfoldable pub day_cost : ℕ → ℕ → Tracker C → C
  unfolding spent
  day_cost start end t = spent (λ e. leb start e.timestamp && ltb e.timestamp end) nothing t.events
