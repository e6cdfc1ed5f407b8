-- ===== src/Controller/Tasks/Charges.antt =====
-- What ExecuteTask charges for a result.
use opc_platform.Prelude.{
  lookup, has_key, eq_iff, whole, ◌≤◌, String, Bool, true, false, ◌≡◌, refl, ◌∙◌, ap, some, inl,
  inr, if◌then◌else◌, arith, Option-cases, Bool-cases, delete,
}
use opc_platform.Storage.{TaskRecord}
use opc_platform.Storage.Agents.{update_task, updated_task, get_task}
use opc_platform.Storage.RoundTrips.{lookup-update_row}
use opc_platform.Cost.{
  CostEvent, Tracker, complete_event, persist_event, record_cost, get_budget_status,
}
use opc_platform.Cost.Prices.{calculate_cost}
use opc_platform.Cost.Budget.{get_budget_status-record_cost}
use opc_platform.Controller.Agents.{Controller}
use opc_platform.Controller.Tasks.{
  Env, Turn, ExecuteResult, write_task, get_agent_model, task_costs, cost_event, charge_to, charge,
  finish_completed,
}

module _ {C : Type 0} (env : Env C) where
  write_task-cost_mgr :
      (task : TaskRecord C) (c : Controller C) → (write_task task c).cost_mgr ≡ c.cost_mgr
  unfolding write_task
  write_task-cost_mgr task c = elim (Option-cases (update_task task c.store)) [
    | inl failed ↦ ground (arith, failed)
    | inr (store, written) ↦ ground (arith, written)
  ]

  -- The row of a task that is written is the task, but for its agent and its message.
  write_task-stored :
      (task : TaskRecord C) (c : Controller C)
      → c.store.available ≡ true
      → has_key task.task_id c.store.tasks ≡ true
      → (t : TaskRecord C) × (get_task task.task_id (write_task task c).store ≡ some t)
        × (t.cost ≡ task.cost)
        × (t.tokens_in ≡ task.tokens_in)
        × (t.tokens_out ≡ task.tokens_out)
  unfolding write_task update_task get_task
  write_task-stored task c up there = elim (Option-cases (lookup task.task_id c.store.tasks)) [
    | inl missing ↦ absurd (ground (arith, missing, there))
    | inr (old, found) ↦ (
      updated_task task old,
      ground (
        arith,
        up,
        found,
        lookup-update_row task.task_id task.task_id (updated_task task) c.store.tasks,
        eq_iff task.task_id task.task_id,
      ),
      refl,
      refl,
      refl,
    )
  ]

  -- What the price list says of a result.
  abbrev pub priced : ExecuteResult C → String → Tracker C → Controller C → C
  priced result name tracker c =
      let model = get_agent_model name c in
      let parts =
        calculate_cost env.rates env.texts env.order result.tokens_in result.tokens_out model.0
          model.1 tracker in
      env.rates.money.plus parts.0 parts.1

  task_costs-cases :
      (result : ExecuteResult C) (name : String) (tracker : Tracker C) (c : Controller C)
      → let costs = task_costs env result name tracker c in
        let plus = env.rates.money.plus in
        let nothing = env.rates.money.nothing in
        let reported = env.rates.money.less nothing result.cost in
        (plus costs.1 costs.2
          ≡ (if reported then plus nothing nothing else priced result name tracker c))
        × (costs.0 ≡ (if reported then result.cost else priced result name tracker c))
  unfolding task_costs
  task_costs-cases result name tracker c =
      elim (Bool-cases (env.rates.money.less env.rates.money.nothing result.cost)) [
        | inl reported ↦ rw (reported, task_costs) (refl, refl)
        | inr silent ↦ rw (silent, task_costs) (refl, refl)
      ]

  charge-managed :
      (turn : Turn) (result : ExecuteResult C) (task : TaskRecord C) (c : Controller C)
      (tracker : Tracker C)
      → c.cost_mgr ≡ some tracker
      → let costs = task_costs env result task.agent_name tracker c in
        let event = cost_event env turn task result costs (get_agent_model task.agent_name c) in
        charge env turn task result c ≡ (
          costs.0,
          some
              (record_cost env.rates env.marshal_event turn.write turn.event_id turn.recorded event
                tracker).0,
        )
  unfolding charge_to
  charge-managed turn result task c tracker managed = ap (charge_to env turn task result c) managed

  plus_if :
      (b : Bool) (s p : C)
      → ((x : C) → env.rates.money.plus x env.rates.money.nothing ≡ x)
      → let plus = env.rates.money.plus in
        let nothing = env.rates.money.nothing in
        plus s (if b then plus nothing nothing else p) ≡ (if b then s else plus s p)
  plus_if true s p unit = ap (env.rates.money.plus s) (unit env.rates.money.nothing) ∙ unit s
  plus_if false s p unit = refl

  -- Where the events can be written and adding no money changes nothing, a result adds its cost by the
  -- price list to what GetBudgetStatus says is spent today, unless the agent reports a cost of its own:
  -- then nothing is added to what is spent. If the store is available and holds the task, it then holds
  -- it as costing what the agent reports, or else by the price list, and with the result's tokens.
  pub finish_completed-budget :
      (turn : Turn) (result : ExecuteResult C) (task : TaskRecord C) (c : Controller C)
      (tracker : Tracker C)
      → c.cost_mgr ≡ some tracker
      → c.store.available ≡ true
      → has_key task.task_id c.store.tasks ≡ true
      → turn.write ≡ whole
      → ((e : CostEvent C) → (line : String) × (env.marshal_event e ≡ some line))
      → ((x : C) → env.rates.money.plus x env.rates.money.nothing ≡ x)
      → env.rates.day_start turn.recorded ≤ turn.recorded
      → env.rates.month_start turn.recorded ≤ turn.recorded
      → let spent = λ (t : Tracker C). (get_budget_status env.rates turn.recorded t).daily_spent in
        let reported = env.rates.money.less env.rates.money.nothing result.cost in
        (after : Tracker C) × ((finish_completed env turn result task c).cost_mgr ≡ some after)
        × (spent after ≡ (
            if reported
            then spent tracker
            else env.rates.money.plus (spent tracker) (priced result task.agent_name tracker c)))
        × ((t : TaskRecord C) × (get_task task.task_id
                (finish_completed env turn result task c).store
              ≡ some t)
            × (t.cost ≡ (if reported then result.cost else priced result task.agent_name tracker c))
            × (t.tokens_in ≡ result.tokens_in)
            × (t.tokens_out ≡ result.tokens_out))
  unfolding finish_completed record_cost persist_event get_agent_model
  finish_completed-budget turn result task c tracker managed up there write marshals unit day
        month =
      let name = task.agent_name in
      let d : Controller C = record c { fail_counts = delete name c.fail_counts } in
      let costs = task_costs env result name tracker d in
      let event = cost_event env turn task result costs (get_agent_model name d) in
      let done = complete_event env.rates turn.event_id turn.recorded event in
      let (line, marshalled) = marshals done in
      let recorded =
        record_cost env.rates env.marshal_event turn.write turn.event_id turn.recorded event
          tracker in
      let counted =
        (get_budget_status-record_cost env.rates env.marshal_event turn.write turn.event_id
            turn.recorded event tracker refl day month).0
          (ground (arith, write, marshalled)) in
      let spent = (get_budget_status env.rates turn.recorded tracker).daily_spent in
      let cases = task_costs-cases result name tracker d in
      let charged = charge-managed turn result task d tracker managed in
      let c' = finish_completed env turn result task c in
      let stored : (t : TaskRecord C) × (get_task task.task_id c'.store ≡ some t)
          × (t.cost ≡ (charge env turn task result d).0)
          × (t.tokens_in ≡ result.tokens_in)
          × (t.tokens_out ≡ result.tokens_out) =
        write_task-stored _ _ up there in
      (
        recorded.0,
        write_task-cost_mgr _ _ ∙ ap (λ r. r.1) charged,
        counted.0
            ∙ ap (env.rates.money.plus spent) cases.0
            ∙ plus_if (env.rates.money.less env.rates.money.nothing result.cost) spent
                (priced result name tracker d) unit,
        (stored.0, stored.1, stored.2 ∙ ap (λ r. r.0) charged ∙ cases.1, stored.3, stored.4),
      )
