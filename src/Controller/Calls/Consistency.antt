-- ===== src/Controller/Calls/Consistency.antt =====
-- The running agents and the phases of the records, whatever is called.
use mathlib.Core.Path.{subst, sym}
use opc_platform.Prelude.{
  ℕ, suc, String, true, ◌≡◌, refl, Option, some, List, [], ◌∷◌, ◌⊎◌, inl, inr, arith, str_eq,
  lookup, lookup_or, has_key, insert, leb, Option-cases, if-either,
}
use opc_platform.Storage.{Store, TaskRecord, phase_stopped, phase_failed, update_row}
use opc_platform.Storage.Agents.{update_task, updated_task, list_agents}
use opc_platform.Quota.{QuotaCheckResult}
use opc_platform.Controller.Agents.{Controller, Specs, stop_agent, recover_agents, new_controller}
use opc_platform.Controller.Agents.Records.{
  IsConsistent, IsConsistent-but, write_phase-IsConsistent, stop_agent-IsConsistent,
}
use opc_platform.Controller.Agents.Running.{
  start_agent-IsConsistent, apply-IsConsistent, remove_agent-IsConsistent,
  recover_each-IsConsistent,
}
use opc_platform.Controller.Tasks.{
  Env, Turn, ExecuteResult, TaskError, write_task, failed_with, begun, pause_agent, apply_quota,
  check_quota, over_budget, begin_task, trip_breaker, finish_failed, finish_completed, finish_task,
  stream_task, circuit_breaker_threshold,
}
use opc_platform.Controller.Calls.{
  Call, call, run_calls, restart_agent, applies, starts, restarts, stops, deletes, recovers, begins,
  streams, finishes,
}

module _ {C : Type 0} where
  pub write_task-IsConsistent :
      (task : TaskRecord C) (c : Controller C) → IsConsistent c → IsConsistent (write_task task c)
  unfolding write_task update_task
  write_task-IsConsistent task c ok =
      let done : write_task task c ≡ record c {
        store = record c.store {
          tasks = update_row task.task_id (updated_task task) c.store.tasks;
        };
      } =
        ground (arith, ok.up) in
      subst IsConsistent (sym done)
        (record { up = ok.up; known = ok.known; named = ok.named; marked = ok.marked })

  restart_agent-IsConsistent :
      (specs : Specs) (answer : Option String) (name : String) (c : Controller C)
      → IsConsistent c
      → IsConsistent (restart_agent specs answer name c).0
  unfolding restart_agent
  restart_agent-IsConsistent specs answer name c ok =
      start_agent-IsConsistent specs answer name _
        (if-either IsConsistent (has_key name c.agents) (stop_agent-IsConsistent name c ok) ok)

  recover_agents-IsConsistent :
      (specs : Specs) (answers : String → Option String) (c : Controller C)
      → IsConsistent c
      → IsConsistent (recover_agents specs answers c)
  unfolding recover_agents
  recover_agents-IsConsistent specs answers c ok = elim (Option-cases (list_agents c.store)) [
    | inl failed ↦ rw (failed, recover_agents) ok
    | inr (agents, listed) ↦
        rw (listed, recover_agents) (recover_each-IsConsistent specs answers agents c ok)
  ]

module _ {C : Type 0} (env : Env C) where
  pause_agent-IsConsistent :
      (why name : String) (c : Controller C)
      → IsConsistent c
      → IsConsistent (pause_agent env why name c)
  unfolding pause_agent
  pause_agent-IsConsistent why name c ok =
      let c' = (stop_agent name c).0 in
      let stopped = stop_agent-IsConsistent name c ok in
      elim (Option-cases (stop_agent name c).1) [
        | inl fine ↦
            rw (fine, pause_agent)
              (write_phase-IsConsistent phase_stopped (some _) name c'
                (IsConsistent-but name c' stopped) refl)
        | inr (error, failed) ↦ rw (failed, pause_agent) stopped
      ]

  apply_quota-IsConsistent :
      (verdict : QuotaCheckResult) (now : ℕ) (task : TaskRecord C) (c : Controller C)
      → IsConsistent c
      → IsConsistent (apply_quota env verdict now task c).0
  unfolding apply_quota
  apply_quota-IsConsistent verdict now task c ok =
      let run = write_task-IsConsistent (begun now task) c ok in
      let paused = pause_agent-IsConsistent (env.quota_text verdict) task.agent_name c ok in
      let stopped = if-either IsConsistent (str_eq verdict.action "pause") paused ok in
      let refused = write_task-IsConsistent (failed_with _ now task) _ stopped in
      let P = λ (r : Controller C × (TaskError ⊎ TaskRecord C)). IsConsistent r.0 in
      if-either P verdict.allowed run (if-either P (str_eq verdict.action "alert") run refused)

  begin_task-IsConsistent :
      (now : ℕ) (task : TaskRecord C) (c : Controller C)
      → IsConsistent c
      → IsConsistent (begin_task env now task c).0
  unfolding begin_task check_quota
  begin_task-IsConsistent now task c ok = elim (Option-cases (over_budget env now c)) [
    | inr (status, over) ↦
        rw (over, begin_task) (write_task-IsConsistent (failed_with _ now task) c ok)
    | inl within ↦ elim (Option-cases (lookup task.agent_name c.agents)) [
      | inl missing ↦
          rw (within, missing, begin_task) (write_task-IsConsistent (failed_with _ now task) c ok)
      | inr (ma, running) ↦
          rw (within, running, begin_task)
            (apply_quota-IsConsistent (check_quota env now task.agent_name c).0 now task
              (check_quota env now task.agent_name c).1
              (record { up = ok.up; known = ok.known; named = ok.named; marked = ok.marked }))
    ]
  ]

  stream_task-IsConsistent :
      (now : ℕ) (task : TaskRecord C) (c : Controller C)
      → IsConsistent c
      → IsConsistent (stream_task env now task c).0
  unfolding stream_task
  stream_task-IsConsistent now task c ok = elim (Option-cases (lookup task.agent_name c.agents)) [
    | inl missing ↦
        rw (missing, stream_task) (write_task-IsConsistent (failed_with _ now task) c ok)
    | inr (ma, running) ↦ rw (running, stream_task) (write_task-IsConsistent (begun now task) c ok)
  ]

  trip_breaker-IsConsistent :
      (name : String) (c : Controller C) → IsConsistent c → IsConsistent (trip_breaker env name c)
  unfolding trip_breaker
  trip_breaker-IsConsistent name c ok =
      let count = suc (lookup_or name c.fail_counts 0) in
      let counted : Controller C = record c { fail_counts = insert name count c.fail_counts } in
      let kept : IsConsistent counted = record {
        up = ok.up;
        known = ok.known;
        named = ok.named;
        marked = ok.marked;
      } in
      let stopped = stop_agent-IsConsistent name counted kept in
      if-either IsConsistent (leb circuit_breaker_threshold count)
        (write_phase-IsConsistent phase_failed (some (env.breaker_text count)) name
          (stop_agent name counted).0 (IsConsistent-but name (stop_agent name counted).0 stopped)
          refl)
        kept

  finish_task-IsConsistent :
      (turn : Turn) (answer : String ⊎ ExecuteResult C) (task : TaskRecord C) (c : Controller C)
      → IsConsistent c
      → IsConsistent (finish_task env turn answer task c)
  unfolding finish_task finish_failed finish_completed
  finish_task-IsConsistent turn (inl text) task c ok =
      trip_breaker-IsConsistent task.agent_name _
        (write_task-IsConsistent (failed_with text turn.ended task) c ok)
  finish_task-IsConsistent turn (inr result) task c ok =
      write_task-IsConsistent _ _
        (record { up = ok.up; known = ok.known; named = ok.named; marked = ok.marked })

  module _ (specs : Specs) where
    call-IsConsistent :
        (x : Call C) (c : Controller C) → IsConsistent c → IsConsistent (call specs env x c)
    unfolding call
    call-IsConsistent (applies spec) c ok = apply-IsConsistent specs spec c ok
    call-IsConsistent (starts answer name) c ok = start_agent-IsConsistent specs answer name c ok
    call-IsConsistent (restarts answer name) c ok =
        restart_agent-IsConsistent specs answer name c ok
    call-IsConsistent (stops name) c ok = stop_agent-IsConsistent name c ok
    call-IsConsistent (deletes name) c ok = remove_agent-IsConsistent name c ok
    call-IsConsistent (recovers answers) c ok = recover_agents-IsConsistent specs answers c ok
    call-IsConsistent (begins now task) c ok = begin_task-IsConsistent now task c ok
    call-IsConsistent (streams now task) c ok = stream_task-IsConsistent now task c ok
    call-IsConsistent (finishes turn answer task) c ok =
        finish_task-IsConsistent turn answer task c ok

    run_calls-keeps :
        (calls : List (Call C)) (c : Controller C)
        → IsConsistent c
        → IsConsistent (run_calls specs env calls c)
    unfolding run_calls
    run_calls-keeps [] c ok = ok
    run_calls-keeps (x ∷ calls) c ok =
        run_calls-keeps calls (call specs env x c) (call-IsConsistent x c ok)

    -- After any sequence of calls on a new controller, whose store is available and empty of agents,
    -- every running agent has a record, records stand at their names, and a record with the phase
    -- Running is that of a running agent.
    pub run_calls-IsConsistent :
        (calls : List (Call C)) (store : Store C)
        → store.available ≡ true
        → store.agents ≡ []
        → IsConsistent (run_calls specs env calls (new_controller store))
    unfolding new_controller lookup
    run_calls-IsConsistent calls store up empty =
        run_calls-keeps calls (new_controller store) (record {
          up = up;
          known = λ n k. ground (arith, k);
          named = λ n a f. ground (arith, f, empty);
          marked = λ n a f p. ground (arith, f, empty);
        })
