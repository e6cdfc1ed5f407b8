-- ===== src/Controller/Calls/Counts.antt =====
-- The failures of an agent in a row, as the calls count them.
use opc_platform.Prelude.{
  ℕ, suc, String, ◌≡◌, refl, ◌∙◌, ap, some, List, [], ◌∷◌, ◌⊎◌, inl, inr, if◌then◌else◌, arith,
  str_eq, eq_iff, lookup, lookup_or, insert, leb, if-either, lookup_or-insert, lookup-delete,
}
use opc_platform.Storage.{Store, TaskRecord, phase_failed}
use opc_platform.Controller.Agents.{Controller, Specs, new_controller}
use opc_platform.Controller.Tasks.{
  Env, Turn, ExecuteResult, write_task, failed_with, trip_breaker, finish_failed, finish_completed,
  finish_task, circuit_breaker_threshold,
}
use opc_platform.Controller.Calls.{
  Call, call, run_calls, applies, starts, restarts, stops, deletes, recovers, begins, streams,
  finishes,
}
use mathlib.Core.Path.{subst}
use opc_platform.Controller.Calls.Failures.{
  SameCounts, start_agent-SameCounts, stop_agent-SameCounts, apply-SameCounts,
  restart_agent-SameCounts, remove_agent-SameCounts, recover_agents-SameCounts,
  begin_task-SameCounts, stream_task-SameCounts, write_task-SameCounts, write_phase-SameCounts,
}

-- How often the agent has failed since it last completed a task: what one call adds, and after calls.
unfoldable pub count_call : {C : Type 0} → String → Call C → ℕ → ℕ
count_call name (finishes turn (inl text) task) n = if str_eq task.agent_name name then suc n else n
count_call name (finishes turn (inr result) task) n = if str_eq task.agent_name name then 0 else n
count_call name (applies spec) n = n
count_call name (starts answer agent) n = n
count_call name (restarts answer agent) n = n
count_call name (stops agent) n = n
count_call name (deletes agent) n = n
count_call name (recovers answers) n = n
count_call name (begins now task) n = n
count_call name (streams now task) n = n

unfoldable pub failed_in_row : {C : Type 0} → String → ℕ → List (Call C) → ℕ
failed_in_row name n [] = n
failed_in_row name n (x ∷ calls) = failed_in_row name (count_call name x n) calls

module _ {C : Type 0} (env : Env C) where
  trip_breaker-count :
      (name agent : String) (c : Controller C)
      → lookup_or name (trip_breaker env agent c).fail_counts 0 ≡ (
          if str_eq agent name
          then suc (lookup_or name c.fail_counts 0)
          else lookup_or name c.fail_counts 0)
  unfolding trip_breaker
  trip_breaker-count name agent c =
      let n = suc (lookup_or agent c.fail_counts 0) in
      let counted : Controller C = record c { fail_counts = insert agent n c.fail_counts } in
      let kept : SameCounts counted (trip_breaker env agent c) =
        if-either (SameCounts counted) (leb circuit_breaker_threshold n)
          (write_phase-SameCounts phase_failed (some _) agent _
            ∙ stop_agent-SameCounts agent counted)
          refl in
      ap (λ m. lookup_or name m 0) kept
      ∙ ground (arith, lookup_or-insert agent name n c.fail_counts 0, eq_iff agent name)

  finish_task-count :
      (turn : Turn) (answer : String ⊎ ExecuteResult C) (task : TaskRecord C) (c : Controller C)
      (name : String)
      → lookup_or name (finish_task env turn answer task c).fail_counts 0 ≡ (
          if str_eq task.agent_name name
          then (elim answer [ inl text ↦ suc (lookup_or name c.fail_counts 0) | inr result ↦ 0 ])
          else lookup_or name c.fail_counts 0)
  unfolding finish_task finish_failed finish_completed
  finish_task-count turn (inl text) task c name =
      let written = write_task (failed_with text turn.ended task) c in
      let same = write_task-SameCounts (failed_with text turn.ended task) c in
      subst
        (λ m.
          lookup_or name (trip_breaker env task.agent_name written).fail_counts 0
          ≡ (if str_eq task.agent_name name then suc (lookup_or name m 0) else lookup_or name m 0))
        same (trip_breaker-count name task.agent_name written)
  finish_task-count turn (inr result) task c name =
      ap (λ m. lookup_or name m 0) (write_task-SameCounts _ _)
      ∙ ground (arith, lookup-delete task.agent_name name c.fail_counts)

  module _ (specs : Specs) where
    call-count :
        (name : String) (x : Call C) (c : Controller C)
        → lookup_or name (call specs env x c).fail_counts 0
          ≡ count_call name x (lookup_or name c.fail_counts 0)
    unfolding call count_call
    call-count name (applies spec) c = ap (λ m. lookup_or name m 0) (apply-SameCounts specs spec c)
    call-count name (starts answer agent) c =
        ap (λ m. lookup_or name m 0) (start_agent-SameCounts specs answer agent c)
    call-count name (restarts answer agent) c =
        ap (λ m. lookup_or name m 0) (restart_agent-SameCounts specs answer agent c)
    call-count name (stops agent) c = ap (λ m. lookup_or name m 0) (stop_agent-SameCounts agent c)
    call-count name (deletes agent) c =
        ap (λ m. lookup_or name m 0) (remove_agent-SameCounts agent c)
    call-count name (recovers answers) c =
        ap (λ m. lookup_or name m 0) (recover_agents-SameCounts specs answers c)
    call-count name (begins now task) c =
        ap (λ m. lookup_or name m 0) (begin_task-SameCounts env now task c)
    call-count name (streams now task) c =
        ap (λ m. lookup_or name m 0) (stream_task-SameCounts env now task c)
    call-count name (finishes turn (inl text) task) c =
        finish_task-count turn (inl text) task c name
    call-count name (finishes turn (inr result) task) c =
        finish_task-count turn (inr result) task c name

    run_calls-count :
        (name : String) (calls : List (Call C)) (c : Controller C)
        → lookup_or name (run_calls specs env calls c).fail_counts 0
          ≡ failed_in_row name (lookup_or name c.fail_counts 0) calls
    unfolding run_calls failed_in_row
    run_calls-count name [] c = refl
    run_calls-count name (x ∷ calls) c =
        run_calls-count name calls (call specs env x c)
        ∙ ap (λ n. failed_in_row name n calls) (call-count name x c)

    pub new_controller-count :
        (name : String) (calls : List (Call C)) (store : Store C)
        → lookup_or name (run_calls specs env calls (new_controller store)).fail_counts 0
          ≡ failed_in_row name 0 calls
    unfolding new_controller lookup
    new_controller-count name calls store = run_calls-count name calls (new_controller store)
