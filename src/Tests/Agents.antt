-- ===== src/Tests/Agents.antt =====
-- An agent that starts, fails its tasks, and completes one.
use opc_platform.Prelude.{
  whole, ℕ, suc, ◌+◌, ◌≡◌, refl, inl, inr, true, false, none, some, List, [], ◌∷◌, arith,
  if◌then◌else◌, lookup, has_key, insert, delete, leb, pos,
}
use opc_platform.Quota.{
  new_usage, get_or_create_usage, is_zero_config, check_usage, check, reset_windows, record_usage,
}
use opc_platform.Cost.{
  Tracker, complete_event, persist_event, record_cost, spent, get_budget_status, pricing_key,
}
use opc_platform.Cost.Prices.{longest_prefix, find_price, calculate_cost}
use opc_platform.Storage.{
  TaskRecord, insert_row, update_row, task_failed, task_completed, phase_failed,
}
use opc_platform.Storage.Agents.{create_agent, get_agent, update_agent, update_task, get_task}
use opc_platform.Controller.Agents.{
  AgentSpec, Controller, Specs, new_controller, apply, start_agent, stop_agent, write_agent,
  write_phase,
}
use opc_platform.Controller.Agents.Records.{IsConsistent}
use opc_platform.Controller.Tasks.{
  Env, Turn, ExecuteResult, write_task, build_quota_config, over_budget, check_quota, apply_quota,
  begin_task, trip_breaker, finish_failed, finish_completed, finish_task, execute_task, charge_to,
  task_costs, get_agent_model, circuit_breaker_threshold,
}
use opc_platform.Controller.Tasks.Endings.{execute_task-Holds}
use opc_platform.Controller.Tasks.Charges.{priced, finish_completed-budget}
use opc_platform.Controller.Calls.{Call, call, run_calls, applies, starts, finishes}
use opc_platform.Controller.Calls.Consistency.{run_calls-IsConsistent}
use opc_platform.Controller.Calls.Counts.{failed_in_row}
use opc_platform.Controller.Calls.Breaker.{phase_of, run_calls-breaker}
use opc_platform.Tests.Samples.{plain_order}
use opc_platform.Tests.Quotas.{calendar}
use opc_platform.Tests.Costs.{rates, texts, marshal, tracker}
use opc_platform.Tests.Stores.{store, task}

agents : Unit {0}
unfolding lookup insert delete new_usage get_or_create_usage is_zero_config check_usage check
    reset_windows record_usage complete_event persist_event record_cost spent get_budget_status
    pricing_key longest_prefix find_price calculate_cost insert_row update_row create_agent
    get_agent update_agent update_task get_task new_controller apply start_agent stop_agent
    write_agent write_phase write_task build_quota_config over_budget check_quota apply_quota
    begin_task trip_breaker finish_failed finish_completed finish_task execute_task charge_to
    task_costs get_agent_model call run_calls failed_in_row phase_of
agents = tt

abbrev spec : AgentSpec
spec = record {
  name = "a";
  agent_type = "custom";
  provider = "p";
  model = "m";
  tokens_per_task = pos 0;
  tokens_per_hour = pos 0;
  tokens_per_day = pos 0;
  cost_per_task = "";
  cost_per_day = "";
  cost_per_month = "";
  on_exceed = "";
  recovery = record {
    retries = pos 0;
    enabled = false;
    max_restarts = pos 0;
    restart_delay = "";
    backoff = "";
  };
}

abbrev specs : Specs
specs = record { marshal = λ s. "spec"; unmarshal = λ s. some spec; registered = λ s. true }

abbrev env : Env ℕ
env = record {
  rates = rates;
  calendar = calendar;
  texts = texts;
  order = plain_order;
  marshal_event = marshal;
  parse_cost_string = λ s. 0;
  budget_text = λ s. "budget exceeded";
  quota_text = λ r. "quota";
  missing_text = λ name. "agent not available";
  breaker_text = λ n. "circuit breaker";
}

abbrev turn : Turn
turn = record { started = 1000; ended = 1001; recorded = 1002; write = whole; event_id = "e" }

abbrev result : ExecuteResult ℕ
result = record { output = "done"; tokens_in = 2; tokens_out = 3; cost = 7 }

abbrev failure : Call ℕ
failure = finishes turn (inl "boom") task

abbrev four_failures : List (Call ℕ)
four_failures = applies spec ∷ starts none "a" ∷ failure ∷ failure ∷ failure ∷ failure ∷ []

abbrev after_four : Controller ℕ
unfolding agents
after_four = run_calls specs env four_failures (new_controller store)

still_runs : has_key "a" after_four.agents ≡ true
unfolding agents
still_runs = refl

fifth_stops : has_key "a" (finish_task env turn (inl "boom") task after_four).agents ≡ false
unfolding agents
fifth_stops = refl

fifth_marks : phase_of "a" (finish_task env turn (inl "boom") task after_four) ≡ some phase_failed
unfolding agents
fifth_marks = refl

run_calls-IsConsistent_example :
    IsConsistent (run_calls specs env four_failures (new_controller store))
run_calls-IsConsistent_example = run_calls-IsConsistent env specs four_failures store refl refl

run_calls-breaker_example :
    let c = run_calls specs env four_failures (new_controller store) in
    let c' = finish_task env turn (inl "boom") task c in
    let trips = leb circuit_breaker_threshold (suc (failed_in_row "a" 0 four_failures)) in
    (has_key "a" c'.agents ≡ (if trips then false else has_key "a" c.agents))
    × (phase_of "a" c' ≡ (
        if trips
        then (if has_key "a" c.store.agents then some phase_failed else none)
        else phase_of "a" c))
run_calls-breaker_example =
    run_calls-breaker env specs four_failures store turn "boom" task refl refl

abbrev known : TaskRecord ℕ
known = record task { task_id = "u" }

execute_task-Holds_example :
    let r = execute_task env turn (inr result) known (new_controller store) in
    (t : TaskRecord ℕ) × (get_task "u" r.0.store ≡ some t)
    × (t.status ≡ (elim r.1 [ inl error ↦ task_failed | inr done ↦ task_completed ]))
unfolding new_controller lookup
execute_task-Holds_example =
    execute_task-Holds env turn (inr result) known (new_controller store) refl refl

abbrev managed : Controller ℕ
unfolding agents
managed = record after_four { cost_mgr = some tracker }

finish_completed-budget_example :
    let spent_by = λ (t : Tracker ℕ). (get_budget_status rates 1002 t).daily_spent in
    let reported = leb 1 result.cost in
    (after : Tracker ℕ) × ((finish_completed env turn result known managed).cost_mgr ≡ some after)
    × (spent_by after ≡ (
        if reported
        then spent_by tracker
        else spent_by tracker + priced env result "a" tracker managed))
    × ((t : TaskRecord ℕ) × (get_task "u" (finish_completed env turn result known managed).store
          ≡ some t)
        × (t.cost ≡ (if reported then result.cost else priced env result "a" tracker managed))
        × (t.tokens_in ≡ 2)
        × (t.tokens_out ≡ 3))
unfolding managed agents
finish_completed-budget_example =
    finish_completed-budget env turn result known managed tracker refl refl refl refl
      (λ e. ("line", refl)) (λ x. omega arith) (omega arith) (omega arith)
