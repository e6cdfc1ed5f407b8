-- ===== src/Controller/Tasks/Endings.antt =====
-- What the store holds of a task after ExecuteTask.
use mathlib.Core.Path.{subst, sym}
use opc_platform.Prelude.{
  ℕ, String, true, ◌≡◌, refl, some, ◌⊎◌, inl, inr, if◌then◌else◌, str_eq, lookup, has_key,
  Option-cases, if-either,
}
use opc_platform.Storage.{TaskRecord, task_failed, task_completed}
use opc_platform.Storage.Agents.{get_task}
use opc_platform.Quota.{QuotaCheckResult}
use opc_platform.Controller.Agents.{Controller}
use opc_platform.Controller.Tasks.{
  Env, Turn, ExecuteResult, TaskError, failed_with, begun, pause_agent, apply_quota, check_quota,
  over_budget, begin_task, finish_task, execute_task, execution_failed,
}
use opc_platform.Controller.Tasks.Kept.{
  KeepsTasks, keep, Holds, write_task-Holds, write_task-there, pause_agent-KeepsTasks,
  finish_task-Holds,
}

module _ {C : Type 0} (env : Env C) where
  -- What holds after the first step: a refused task is failed, and another is still there.
  abbrev Begun : TaskRecord C → ℕ → Controller C × (TaskError ⊎ TaskRecord C) → Type 0
  Begun task now r = elim r.1 [
    | inl error ↦ Holds task.task_id task_failed r.0
    | inr running ↦
        (running ≡ begun now task)
        × (r.0.store.available ≡ true)
        × (has_key task.task_id r.0.store.tasks ≡ true)
  ]

  apply_quota-Begun :
      (verdict : QuotaCheckResult) (now : ℕ) (task : TaskRecord C) (c : Controller C)
      → c.store.available ≡ true
      → has_key task.task_id c.store.tasks ≡ true
      → Begun task now (apply_quota env verdict now task c)
  unfolding apply_quota
  apply_quota-Begun verdict now task c up there =
      let there' = write_task-there (begun now task) c up there in
      let why = env.quota_text verdict in
      let stopped =
        if str_eq verdict.action "pause" then pause_agent env why task.agent_name c else c in
      let kept : KeepsTasks c stopped =
        if-either (KeepsTasks c) (str_eq verdict.action "pause")
          (pause_agent-KeepsTasks env why task.agent_name c up) (keep c up) in
      let refused =
        write_task-Holds (failed_with _ now task) stopped kept.up
          (subst (λ ts. has_key task.task_id ts ≡ true) (sym kept.tasks_eq) there) in
      if-either (Begun task now) verdict.allowed (refl, there'.0, there'.1)
        (if-either (Begun task now) (str_eq verdict.action "alert") (refl, there'.0, there'.1)
          refused)

  begin_task-Begun :
      (now : ℕ) (task : TaskRecord C) (c : Controller C)
      → c.store.available ≡ true
      → has_key task.task_id c.store.tasks ≡ true
      → Begun task now (begin_task env now task c)
  unfolding begin_task check_quota
  begin_task-Begun now task c up there = elim (Option-cases (over_budget env now c)) [
    | inr (status, over) ↦
        rw (over, begin_task) (write_task-Holds (failed_with _ now task) c up there)
    | inl within ↦ elim (Option-cases (lookup task.agent_name c.agents)) [
      | inl missing ↦
          rw (within, missing, begin_task) (write_task-Holds (failed_with _ now task) c up there)
      | inr (ma, running) ↦
          rw (within, running, begin_task)
            (apply_quota-Begun (check_quota env now task.agent_name c).0 now task
              (check_quota env now task.agent_name c).1 up there)
    ]
  ]

  answered :
      Turn
      → String ⊎ ExecuteResult C
      → Controller C × (TaskError ⊎ TaskRecord C)
      → Controller C × (TaskError ⊎ ExecuteResult C)
  answered turn answer start = elim start.1 [
    | inl error ↦ (start.0, inl error)
    | inr running ↦ (
      finish_task env turn answer running start.0,
      elim answer [ inl text ↦ inl (execution_failed text) | inr result ↦ inr result ],
    )
  ]

  abbrev final_status : TaskError ⊎ ExecuteResult C → String
  final_status (inl error) = task_failed
  final_status (inr result) = task_completed

  answered-Holds :
      (turn : Turn) (answer : String ⊎ ExecuteResult C) (task : TaskRecord C)
      (start : Controller C × (TaskError ⊎ TaskRecord C))
      → Begun task turn.started start
      → Holds task.task_id
          (final_status (answered turn answer start).1)
          (answered turn answer start).0
  unfolding answered
  answered-Holds turn answer task (c, inl error) held = held
  answered-Holds turn (inl text) task (c, inr running) (same, up, there) =
      subst
        (λ (t : TaskRecord C). Holds task.task_id task_failed (finish_task env turn (inl text) t c))
        (sym same) (finish_task-Holds env turn (inl text) (begun turn.started task) c up there)
  answered-Holds turn (inr result) task (c, inr running) (same, up, there) =
      subst
        (λ (t : TaskRecord C).
          Holds task.task_id task_completed (finish_task env turn (inr result) t c))
        (sym same) (finish_task-Holds env turn (inr result) (begun turn.started task) c up there)

  -- Where the store is available and holds the task, ExecuteTask leaves it there with the status
  -- Completed, if it returns a result, or else Failed, whatever the budget, the quota and the agent
  -- say and whether or not the agent is stopped.
  pub execute_task-Holds :
      (turn : Turn) (answer : String ⊎ ExecuteResult C) (task : TaskRecord C) (c : Controller C)
      → c.store.available ≡ true
      → has_key task.task_id c.store.tasks ≡ true
      → let r = execute_task env turn answer task c in
        (t : TaskRecord C) × (get_task task.task_id r.0.store ≡ some t)
        × (t.status ≡ (elim r.1 [ inl error ↦ task_failed | inr result ↦ task_completed ]))
  unfolding execute_task answered
  execute_task-Holds turn answer task c up there =
      answered-Holds turn answer task (begin_task env turn.started task c)
        (begin_task-Begun turn.started task c up there)
