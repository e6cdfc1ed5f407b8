-- ===== src/Controller/Tasks.antt =====
-- pkg/controller/controller.go: ExecuteTask and StreamTask. ExecuteTask is two steps, before and after
-- the adapter's call, since other calls come in between. The parameters are the floats, the calendar,
-- JSON, the order of a map, and the texts that `fmt` makes.
pub mod Kept
pub mod Endings
pub mod Charges
use Prim.Native.String.{◌++◌}
use opc_platform.Prelude.{
  ℕ, suc, ◌-◌, String, Bool, true, false, not, ◌&&◌, ◌⊎◌, inl, inr, Option, none, some, List, [],
  ◌∷◌, if◌then◌else◌, str_eq, leb, Map, lookup, lookup_or, insert, delete, MapOrder, Write, ℤ, pos,
}
use opc_platform.Quota.{
  QuotaConfig, QuotaCheckResult, Calendar, AgentUsage, Money, check, record_usage,
}
use opc_platform.Cost.{Rates, CostEvent, Tracker, BudgetStatus, get_budget_status, record_cost}
use opc_platform.Cost.Prices.{Texts, calculate_cost}
use opc_platform.Storage.{
  Store, TaskRecord, AgentRecord, task_running, task_completed, task_failed, phase_stopped,
  phase_failed,
}
use opc_platform.Storage.Agents.{update_task, list_tasks_by_agent}
use opc_platform.Controller.Agents.{
  Controller, ManagedAgent, ControllerError, write_phase, stop_agent,
}

abbrev pub circuit_breaker_threshold : ℕ
circuit_breaker_threshold = 5

-- What the adapter's `Execute` returns.
pub record ExecuteResult (C : Type 0) : Type 0 where
  pub output : String
  pub tokens_in : ℕ
  pub tokens_out : ℕ
  pub cost : C

pub record Env (C : Type 0) : Type 0 where
  pub rates : Rates C
  pub calendar : Calendar
  pub texts : Texts
  pub order : MapOrder
  pub marshal_event : CostEvent C → Option String
  pub parse_cost_string : String → C
  pub budget_text : BudgetStatus C → String
  pub quota_text : QuotaCheckResult → String
  pub missing_text : String → String
  pub breaker_text : ℕ → String

-- One call's times, and what the cost tracker finds when it writes.
pub record Turn : Type 0 where
  pub started : ℕ
  pub ended : ℕ
  pub recorded : ℕ
  pub write : Write String
  pub event_id : String

pub data TaskError : Type 0 where
  budget_exceeded agent_unavailable : TaskError
  quota_exceeded execution_failed : String → TaskError

module _ {C : Type 0} where
  -- `c.store.UpdateTask(ctx, task)`, whose error is logged only.
  unfoldable pub write_task : TaskRecord C → Controller C → Controller C
  write_task task c = elim (update_task task c.store) [
    | none ↦ c
    | some store ↦ record c { store = store }
  ]

  abbrev pub failed_with : String → ℕ → TaskRecord C → TaskRecord C
  failed_with text now task = record task {
    status = task_failed;
    error = text;
    ended_at = some now;
  }

  abbrev pub begun : ℕ → TaskRecord C → TaskRecord C
  begun now task = record task { status = task_running; started_at = some now }

  unfoldable pub get_agent_model : String → Controller C → String × String
  get_agent_model name c = elim (lookup name c.agents) [
    | none ↦ ("anthropic", "claude-sonnet-4")
    | some ma ↦ (ma.spec.provider, ma.spec.model)
  ]

module _ {C : Type 0} (env : Env C) where
  unfoldable pub build_quota_config : String → Controller C → QuotaConfig C
  build_quota_config name c = elim (lookup name c.agents) [
    | none ↦ record {
      token_per_task = pos 0;
      token_per_hour = pos 0;
      token_per_day = pos 0;
      cost_per_task = env.rates.money.nothing;
      cost_per_day = env.rates.money.nothing;
      cost_per_month = env.rates.money.nothing;
      on_exceed = "";
    }
    | some ma ↦ record {
      token_per_task = ma.spec.tokens_per_task;
      token_per_hour = ma.spec.tokens_per_hour;
      token_per_day = ma.spec.tokens_per_day;
      cost_per_task = env.parse_cost_string ma.spec.cost_per_task;
      cost_per_day = env.parse_cost_string ma.spec.cost_per_day;
      cost_per_month = env.parse_cost_string ma.spec.cost_per_month;
      on_exceed = ma.spec.on_exceed;
    }
  ]

  -- The status of the budget, where it is exceeded.
  unfoldable pub over_budget : ℕ → Controller C → Option (BudgetStatus C)
  over_budget now c = elim c.cost_mgr [
    | none ↦ none
    | some tracker ↦
        let status = get_budget_status env.rates now tracker in
        if status.exceeded then some status else none
  ]

  -- The agent is stopped, and its record says why.
  unfoldable pub pause_agent : String → String → Controller C → Controller C
  pause_agent why name c = elim (stop_agent name c).1 [
    | none ↦ write_phase phase_stopped (some ("paused: " ++ why)) name (stop_agent name c).0
    | some error ↦ (stop_agent name c).0
  ]

  -- The quota of the agent, whose check may make an empty usage.
  unfoldable pub check_quota : ℕ → String → Controller C → QuotaCheckResult × Controller C
  check_quota now name c =
      let checked =
        check env.rates.money env.calendar now name (build_quota_config name c) c.usage in
      (checked.0, record c { usage = checked.1 })

  -- What a verdict of the quota does: a task that may not run is refused unless the action is `alert`.
  unfoldable pub apply_quota :
      QuotaCheckResult → ℕ → TaskRecord C → Controller C → Controller C × (TaskError ⊎ TaskRecord C)
  apply_quota verdict now task c =
      let why = env.quota_text verdict in
      let paused = pause_agent why task.agent_name c in
      let stopped = if str_eq verdict.action "pause" then paused else c in
      let run : Controller C × (TaskError ⊎ TaskRecord C) =
        (write_task (begun now task) c, inr (begun now task)) in
      if verdict.allowed then run else if str_eq verdict.action "alert" then run else (
        write_task (failed_with ("quota exceeded: " ++ why) now task) stopped,
        inl (quota_exceeded why),
      )

  -- `ExecuteTask` up to the call of the adapter.
  unfoldable pub begin_task :
      ℕ → TaskRecord C → Controller C → Controller C × (TaskError ⊎ TaskRecord C)
  begin_task now task c = elim (over_budget now c) [
    | some status ↦
        (write_task (failed_with (env.budget_text status) now task) c, inl budget_exceeded)
    | none ↦ elim (lookup task.agent_name c.agents) [
      | none ↦ (
        write_task (failed_with (env.missing_text task.agent_name) now task) c,
        inl agent_unavailable,
      )
      | some ma ↦
          let checked = check_quota now task.agent_name c in
          apply_quota checked.0 now task checked.1
    ]
  ]

  -- The breaker counts the failure, and stops the agent at the threshold.
  unfoldable pub trip_breaker : String → Controller C → Controller C
  trip_breaker name c =
      let count = suc (lookup_or name c.fail_counts 0) in
      let counted = record c { fail_counts = insert name count c.fail_counts } in
      let stopped = (stop_agent name counted).0 in
      if leb circuit_breaker_threshold count
      then write_phase phase_failed (some (env.breaker_text count)) name stopped
      else counted

  -- `ExecuteTask` after an error of the adapter.
  unfoldable pub finish_failed : String → ℕ → TaskRecord C → Controller C → Controller C
  finish_failed text now task c =
      trip_breaker task.agent_name (write_task (failed_with text now task) c)

  -- The cost of a result, and its two parts: the agent's own cost comes before the prices.
  unfoldable pub task_costs : ExecuteResult C → String → Tracker C → Controller C → C × C × C
  task_costs result name tracker c =
      let nothing = env.rates.money.nothing in
      let model = get_agent_model name c in
      let priced =
        calculate_cost env.rates env.texts env.order result.tokens_in result.tokens_out model.0
          model.1 tracker in
      if env.rates.money.less nothing result.cost
      then (result.cost, nothing, nothing)
      else (env.rates.money.plus priced.0 priced.1, priced.0, priced.1)

  abbrev pub cost_event :
      Turn → TaskRecord C → ExecuteResult C → C × C × C → String × String → CostEvent C
  cost_event turn task result costs model = record {
    event_id = "";
    timestamp = 0;
    agent_name = task.agent_name;
    task_id = task.task_id;
    goal_ref = task.goal_id;
    project_ref = task.project_id;
    tokens_in = result.tokens_in;
    tokens_out = result.tokens_out;
    total_tokens = 0;
    input_cost = costs.1;
    output_cost = costs.2;
    total_cost = env.rates.money.nothing;
    duration = turn.ended - turn.started;
    model_provider = model.0;
    model_name = model.1;
  }

  -- The cost of the task, and the tracker with the event.
  unfoldable pub charge_to :
      Turn
      → TaskRecord C
      → ExecuteResult C
      → Controller C
      → Option (Tracker C)
      → C × Option (Tracker C)
  charge_to turn task result c none = (task.cost, none)
  charge_to turn task result c (some tracker) =
      let costs = task_costs result task.agent_name tracker c in
      let event = cost_event turn task result costs (get_agent_model task.agent_name c) in
      (
        costs.0,
        some
            (record_cost env.rates env.marshal_event turn.write turn.event_id turn.recorded event
              tracker).0,
      )

  abbrev pub charge : Turn → TaskRecord C → ExecuteResult C → Controller C → C × Option (Tracker C)
  charge turn task result c = charge_to turn task result c c.cost_mgr

  -- `ExecuteTask` after a result of the adapter.
  unfoldable pub finish_completed :
      Turn → ExecuteResult C → TaskRecord C → Controller C → Controller C
  finish_completed turn result task c =
      let forgiven = record c { fail_counts = delete task.agent_name c.fail_counts } in
      let charged = charge turn task result forgiven in
      write_task
        (record task {
          status = task_completed;
          result = result.output;
          tokens_in = result.tokens_in;
          tokens_out = result.tokens_out;
          cost = charged.0;
          ended_at = some turn.ended;
        })
        (record forgiven {
          cost_mgr = charged.1;
          usage =
              record_usage env.rates.money env.calendar turn.recorded task.agent_name
                result.tokens_in result.tokens_out charged.0 c.usage;
        })

  unfoldable pub finish_task :
      Turn → String ⊎ ExecuteResult C → TaskRecord C → Controller C → Controller C
  finish_task turn (inl text) task c = finish_failed text turn.ended task c
  finish_task turn (inr result) task c = finish_completed turn result task c

  -- `ExecuteTask`, where nothing comes in between.
  unfoldable pub execute_task :
      Turn
      → String ⊎ ExecuteResult C
      → TaskRecord C
      → Controller C
      → Controller C × (TaskError ⊎ ExecuteResult C)
  execute_task turn answer task c =
      let start = begin_task turn.started task c in
      elim start.1 [
        | inl error ↦ (start.0, inl error)
        | inr running ↦ (
          finish_task turn answer running start.0,
          elim answer [ inl text ↦ inl (execution_failed text) | inr result ↦ inr result ],
        )
      ]

  -- `StreamTask`: the agent must run; no budget, quota or breaker is asked.
  unfoldable pub stream_task :
      ℕ → TaskRecord C → Controller C → Controller C × (TaskError ⊎ TaskRecord C)
  stream_task now task c = elim (lookup task.agent_name c.agents) [
    | none ↦ (
      write_task (failed_with (env.missing_text task.agent_name) now task) c,
      inl agent_unavailable,
    )
    | some ma ↦ (write_task (begun now task) c, inr (begun now task))
  ]
