-- ===== src/Controller/Calls/Failures.antt =====
-- The calls that do not count failures.
use opc_platform.Prelude.{
  ℕ, String, ◌≡◌, refl, ◌∙◌, Option, none, some, List, [], ◌∷◌, ◌⊎◌, inl, inr, arith, str_eq,
  lookup, has_key, Option-cases, if-either,
}
use opc_platform.Storage.{TaskRecord, AgentRecord, phase_stopped, phase_running, phase_starting}
use opc_platform.Storage.Agents.{update_task, update_agent, get_agent, list_agents}
use opc_platform.Controller.Agents.{
  Controller, Specs, AgentSpec, write_agent, write_phase, stop_agent, start_agent, recover_each,
  recover_agents, apply, remove_agent, delete_agent_record,
}
use opc_platform.Controller.Tasks.{
  Env, TaskError, write_task, failed_with, begun, pause_agent, apply_quota, check_quota,
  over_budget, begin_task, stream_task,
}
use opc_platform.Controller.Calls.{restart_agent}

module _ {C : Type 0} where
  -- Two controllers that count the same failures.
  abbrev pub SameCounts : Controller C → Controller C → Type 0
  SameCounts c c' = c'.fail_counts ≡ c.fail_counts

  pub write_agent-SameCounts : (a : AgentRecord) (c : Controller C) → SameCounts c (write_agent a c)
  unfolding write_agent
  write_agent-SameCounts a c = elim (Option-cases (update_agent a c.store)) [
    | inl failed ↦ ground (arith, failed)
    | inr (store, written) ↦ ground (arith, written)
  ]

  pub write_phase-SameCounts :
      (phase : String) (message : Option String) (name : String) (c : Controller C)
      → SameCounts c (write_phase phase message name c)
  unfolding write_phase
  write_phase-SameCounts phase message name c = elim (Option-cases (get_agent name c.store)) [
    | inl missing ↦ ground (arith, missing)
    | inr (a, found) ↦ rw (found, write_phase) (write_agent-SameCounts _ c)
  ]

  pub stop_agent-SameCounts :
      (name : String) (c : Controller C) → SameCounts c (stop_agent name c).0
  unfolding stop_agent
  stop_agent-SameCounts name c = elim (Option-cases (lookup name c.agents)) [
    | inl idle ↦ ground (arith, idle)
    | inr (ma, running) ↦
        rw (running, stop_agent) (write_phase-SameCounts phase_stopped none name _)
  ]

  pub start_agent-SameCounts :
      (specs : Specs) (answer : Option String) (name : String) (c : Controller C)
      → SameCounts c (start_agent specs answer name c).0
  unfolding start_agent write_agent
  start_agent-SameCounts specs answer name c = elim (Option-cases (get_agent name c.store)) [
    | inl missing ↦ ground (arith, missing)
    | inr (a, found) ↦ elim (Option-cases (specs.unmarshal a.spec_yaml)) [
      | inl bad ↦ ground (arith, found, bad)
      | inr (spec, parsed) ↦ elim (Option-cases answer) [
        | inl started ↦ ground (arith, found, parsed, started)
        | inr (error, failed) ↦ ground (arith, found, parsed, failed)
      ]
    ]
  ]

  pub apply-SameCounts :
      (specs : Specs) (spec : AgentSpec) (c : Controller C) → SameCounts c (apply specs spec c).0
  unfolding apply
  apply-SameCounts specs spec c = elim (Option-cases (get_agent spec.name c.store)) [
    | inl new ↦ ground (arith, new)
    | inr (a, found) ↦ ground (arith, found)
  ]

  pub remove_agent-SameCounts :
      (name : String) (c : Controller C) → SameCounts c (remove_agent name c).0
  unfolding remove_agent delete_agent_record
  remove_agent-SameCounts name c = ground (arith, stop_agent-SameCounts name c)

  pub restart_agent-SameCounts :
      (specs : Specs) (answer : Option String) (name : String) (c : Controller C)
      → SameCounts c (restart_agent specs answer name c).0
  unfolding restart_agent
  restart_agent-SameCounts specs answer name c =
      start_agent-SameCounts specs answer name _
      ∙ if-either (SameCounts c) (has_key name c.agents) (stop_agent-SameCounts name c) refl

  pub recover_each-SameCounts :
      (specs : Specs) (answers : String → Option String) (agents : List AgentRecord)
      (c : Controller C)
      → SameCounts c (recover_each specs answers agents c)
  unfolding recover_each
  recover_each-SameCounts specs answers [] c = refl
  recover_each-SameCounts specs answers (a ∷ agents) c =
      let started = start_agent-SameCounts specs (answers a.name) a.name c in
      recover_each-SameCounts specs answers agents _
      ∙ if-either (SameCounts c) (str_eq a.phase phase_running) started
          (if-either (SameCounts c) (str_eq a.phase phase_starting) started refl)

  pub recover_agents-SameCounts :
      (specs : Specs) (answers : String → Option String) (c : Controller C)
      → SameCounts c (recover_agents specs answers c)
  unfolding recover_agents
  recover_agents-SameCounts specs answers c = elim (Option-cases (list_agents c.store)) [
    | inl failed ↦ ground (arith, failed)
    | inr (agents, listed) ↦
        rw (listed, recover_agents) (recover_each-SameCounts specs answers agents c)
  ]

  pub write_task-SameCounts :
      (task : TaskRecord C) (c : Controller C) → SameCounts c (write_task task c)
  unfolding write_task
  write_task-SameCounts task c = elim (Option-cases (update_task task c.store)) [
    | inl failed ↦ ground (arith, failed)
    | inr (store, written) ↦ ground (arith, written)
  ]

module _ {C : Type 0} (env : Env C) where
  pub pause_agent-SameCounts :
      (why name : String) (c : Controller C) → SameCounts c (pause_agent env why name c)
  unfolding pause_agent
  pause_agent-SameCounts why name c = elim (Option-cases (stop_agent name c).1) [
    | inl fine ↦
        rw (fine, pause_agent)
          (write_phase-SameCounts phase_stopped (some _) name _ ∙ stop_agent-SameCounts name c)
    | inr (error, failed) ↦ rw (failed, pause_agent) (stop_agent-SameCounts name c)
  ]

  pub begin_task-SameCounts :
      (now : ℕ) (task : TaskRecord C) (c : Controller C)
      → SameCounts c (begin_task env now task c).0
  unfolding begin_task check_quota apply_quota
  begin_task-SameCounts now task c = elim (Option-cases (over_budget env now c)) [
    | inr (status, over) ↦ rw (over, begin_task) (write_task-SameCounts (failed_with _ now task) c)
    | inl within ↦ elim (Option-cases (lookup task.agent_name c.agents)) [
      | inl missing ↦
          rw (within, missing, begin_task) (write_task-SameCounts (failed_with _ now task) c)
      | inr (ma, running) ↦
          let verdict = (check_quota env now task.agent_name c).0 in
          let c' = (check_quota env now task.agent_name c).1 in
          let P = λ (r : Controller C × (TaskError ⊎ TaskRecord C)). SameCounts c r.0 in
          let run = write_task-SameCounts (begun now task) c' in
          rw (within, running, begin_task, apply_quota)
            (if-either P verdict.allowed run (
              if-either P (str_eq verdict.action "alert") run (
                write_task-SameCounts (failed_with _ now task) _
                ∙ if-either (SameCounts c) (str_eq verdict.action "pause")
                    (pause_agent-SameCounts (env.quota_text verdict) task.agent_name c') refl)))
    ]
  ]

  pub stream_task-SameCounts :
      (now : ℕ) (task : TaskRecord C) (c : Controller C)
      → SameCounts c (stream_task env now task c).0
  unfolding stream_task
  stream_task-SameCounts now task c = elim (Option-cases (lookup task.agent_name c.agents)) [
    | inl missing ↦ rw (missing, stream_task) (write_task-SameCounts (failed_with _ now task) c)
    | inr (ma, running) ↦ rw (running, stream_task) (write_task-SameCounts (begun now task) c)
  ]
