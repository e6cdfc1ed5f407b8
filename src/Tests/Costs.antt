-- ===== src/Tests/Costs.antt =====
-- A tracker with three events and two prices.
use opc_platform.Prelude.{
  whole, ℕ, ◌-◌, ◌*◌, ◌≤◌, ◌≡◌, ◌≢◌, refl, ◌⊎◌, String, true, false, Option, none, some, [], ◌∷◌,
  arith, if◌then◌else◌, str_eq, Map, lookup, lookup_or, insert, keys, length, take, drop,
}
use mathlib.Core.List.{◌++◌ as append}
use opc_platform.Cost.{
  CostEvent, Tracker, Rates, ModelPricing, pricing_key, plus, complete_event, persist_event,
  record_cost, spent, get_budget_status, check_budget, recent_events,
}
use opc_platform.Cost.Reports.{
  add_to, add_event, add_events, generate_report, since, since_for, generate_report_sums,
}
use opc_platform.Cost.Prices.{
  Texts, longest_prefix, find_price, calculate_cost, fits, charged, calculate_cost-longest,
}
use opc_platform.Cost.Disk.{load_lines, scanned, new_tracker, record_cost-cut_off}
use opc_platform.Cost.Budget.{get_budget_status-record_cost}
use opc_platform.Tests.Samples.{plain_order}
use opc_platform.Tests.Quotas.{cents}

costs : Unit {0}
unfolding lookup insert keys take drop pricing_key complete_event persist_event record_cost spent
    get_budget_status check_budget recent_events add_to add_event add_events generate_report
    longest_prefix find_price calculate_cost load_lines new_tracker
costs = tt

abbrev pub rates : Rates ℕ
rates = record {
  money = cents;
  per_1k = λ tokens price. tokens * price;
  ratio = λ a b. a;
  day_start = λ t. t - 24;
  month_start = λ t. t - 720;
}

-- A text starts with itself only, in these samples.
abbrev pub texts : Texts
texts = record { has_prefix = str_eq; size = λ s. 1 }

abbrev event : String → String → ℕ → CostEvent ℕ
event agent goal cost = record {
  event_id = "";
  timestamp = 0;
  agent_name = agent;
  task_id = "t";
  goal_ref = goal;
  project_ref = "";
  tokens_in = 1;
  tokens_out = 2;
  total_tokens = 0;
  input_cost = cost;
  output_cost = 1;
  total_cost = 0;
  duration = 0;
  model_provider = "p";
  model_name = "m";
}

abbrev pub marshal : CostEvent ℕ → Option String
marshal e = some "line"

abbrev priced : Map (ModelPricing ℕ)
priced = ("p/m", record { provider = "p"; model = "m"; input_per_1k = 3; output_per_1k = 4 }) ∷ []

abbrev pub tracker : Tracker ℕ
unfolding costs
tracker =
    let t = new_tracker rates (λ l. true) (λ l. none) priced (record { lines = []; rest = none }) in
    record t {
      events =
          complete_event rates "1" 100 (event "a" "g" 5)
          ∷ complete_event rates "2" 110 (event "b" "g" 7)
          ∷ complete_event rates "3" 990 (event "a" "" 2)
          ∷ [];
    }

spent_today : (get_budget_status rates 1000 tracker).daily_spent ≡ 3
unfolding costs
spent_today = refl

abbrev by_goal : Map ℕ
by_goal = ("g", 14) ∷ []

goals_reported : (generate_report rates "goal" 100 tracker).by_goal ≡ some by_goal
unfolding costs
goals_reported = refl

generate_report_sums_example :
    let report = generate_report rates "goal" 100 tracker in
    let sum_of = λ (of : CostEvent ℕ → String) (name : String).
      spent rates (since_for rates of 100 name) 0 tracker.events in
    (report.total_cost ≡ spent rates (since rates 100) 0 tracker.events)
    × ((name : String)
        → str_eq name "" ≡ false
        → ((m : Map ℕ)
            → report.by_agent ≡ some m
            → lookup_or name m 0 ≡ sum_of (λ e. e.agent_name) name)
          × ((m : Map ℕ)
              → report.by_goal ≡ some m
              → lookup_or name m 0 ≡ sum_of (λ e. e.goal_ref) name)
          × ((m : Map ℕ)
              → report.by_project ≡ some m
              → lookup_or name m 0 ≡ sum_of (λ e. e.project_ref) name))
    × ((◌≡◌ {A = String} "goal" "agent" → report.by_agent ≢ none)
        × (◌≡◌ {A = String} "goal" "goal" → report.by_goal ≢ none)
        × (◌≡◌ {A = String} "goal" "project" → report.by_project ≢ none))
generate_report_sums_example = generate_report_sums rates "goal" 100 tracker

calculate_cost_known : calculate_cost rates texts plain_order 2 3 "p" "m" tracker ≡ (6, 12)
unfolding costs
calculate_cost_known = refl

calculate_cost-longest_example :
    let cost = calculate_cost rates texts plain_order 2 3 "p" "n" tracker in
    let Fits = λ (k : String) (p : ModelPricing ℕ).
      (lookup k tracker.pricing ≡ some p) × (fits rates texts "p" "n" p ≡ true) in
    ((p : ModelPricing ℕ)
      → lookup (pricing_key "p" "n") tracker.pricing ≡ some p
      → cost ≡ charged rates 2 3 p)
    × (lookup (pricing_key "p" "n") tracker.pricing ≡ none
        → ((cost ≡ (0, 0)) × ((k : String) (p : ModelPricing ℕ) → Fits k p → ⊥))
          ⊎ ((j : String) × (best : ModelPricing ℕ) × Fits j best
              × (cost ≡ charged rates 2 3 best)
              × ((k : String) (p : ModelPricing ℕ)
                  → Fits k p
                  → texts.size p.model ≤ texts.size best.model)))
calculate_cost-longest_example = calculate_cost-longest rates texts plain_order 2 3 "p" "n" tracker

abbrev no_file : Tracker ℕ
no_file = record tracker { events = [] }

-- With a codec for one event; the event is then recorded.
abbrev paid : CostEvent ℕ
unfolding costs
paid = complete_event rates "4" 1000 (event "a" "g" 5)

-- Half a line was written before.
abbrev half_written : Tracker ℕ
half_written = record no_file { file = record { lines = []; rest = some "li" } }

record_cost-cut_off_example :
    let recorded = record_cost rates marshal whole "4" 1000 (event "a" "g" 5) half_written in
    (recorded.1 ≡ true)
    × (recorded.0.events ≡ append half_written.events (paid ∷ []))
    × (load_lines rates
          (λ l. true)
          (λ l. if str_eq l "line" then some paid else none)
          (scanned rates recorded.0.file)
          []
        ≡ (half_written.events, true))
unfolding costs
record_cost-cut_off_example =
    record_cost-cut_off rates (λ l. true) (λ l. if str_eq l "line" then some paid else none) marshal
      "li" "4" 1000 (event "a" "g" 5) half_written refl refl refl "line" refl refl refl

get_budget_status-record_cost_example :
    let recorded = record_cost rates marshal whole "4" 1000 (event "a" "g" 5) tracker in
    let old = get_budget_status rates 1000 tracker in
    (recorded.1 ≡ true
      → ((get_budget_status rates 1000 recorded.0).daily_spent ≡ plus rates old.daily_spent 6)
        × ((get_budget_status rates 1000 recorded.0).monthly_spent
            ≡ plus rates old.monthly_spent 6))
    × (recorded.1 ≡ false → get_budget_status rates 1000 recorded.0 ≡ old)
get_budget_status-record_cost_example =
    get_budget_status-record_cost rates marshal whole "4" 1000 (event "a" "g" 5) tracker refl
      (omega arith) (omega arith)

last_two : length (recent_events 2 tracker) ≡ 2
unfolding costs
last_two = refl
