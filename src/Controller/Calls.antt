-- ===== src/Controller/Calls.antt =====
-- The calls of pkg/controller/controller.go and RestartAgent of lifecycle.go in any order, each task in
-- its two steps.
pub mod Consistency
pub mod Failures
pub mod Counts
pub mod Breaker
use opc_platform.Prelude.{
  ℕ, suc, String, ◌⊎◌, inl, inr, Option, List, [], ◌∷◌, Map, lookup, none, some, Bool, true, false,
  if◌then◌else◌, has_key, str_eq,
}
use opc_platform.Storage.{TaskRecord}
use opc_platform.Controller.Agents.{
  AgentSpec, Controller, ControllerError, Specs, apply, start_agent, stop_agent, remove_agent,
  recover_agents,
}
use opc_platform.Controller.Tasks.{Env, Turn, ExecuteResult, begin_task, finish_task, stream_task}

-- A call with what the adapter answers.
pub data Call (C : Type 0) : Type 0 where
  applies : AgentSpec → Call C
  starts restarts : Option String → String → Call C
  stops deletes : String → Call C
  recovers : (String → Option String) → Call C
  begins streams : ℕ → TaskRecord C → Call C
  finishes : Turn → String ⊎ ExecuteResult C → TaskRecord C → Call C

module _ {C : Type 0} where
  -- `RestartAgent`, with the error of `StopAgent` dropped; the restart count is the lifecycle's.
  unfoldable pub restart_agent :
      Specs → Option String → String → Controller C → Controller C × Option ControllerError
  restart_agent specs answer name c =
      start_agent specs answer name (if has_key name c.agents then (stop_agent name c).0 else c)

module _ {C : Type 0} (specs : Specs) (env : Env C) where
  unfoldable pub call : Call C → Controller C → Controller C
  call (applies spec) c = (apply specs spec c).0
  call (starts answer name) c = (start_agent specs answer name c).0
  call (restarts answer name) c = (restart_agent specs answer name c).0
  call (stops name) c = (stop_agent name c).0
  call (deletes name) c = (remove_agent name c).0
  call (recovers answers) c = recover_agents specs answers c
  call (begins now task) c = (begin_task env now task c).0
  call (streams now task) c = (stream_task env now task c).0
  call (finishes turn answer task) c = finish_task env turn answer task c

  unfoldable pub run_calls : List (Call C) → Controller C → Controller C
  run_calls [] c = c
  run_calls (x ∷ calls) c = run_calls calls (call x c)
