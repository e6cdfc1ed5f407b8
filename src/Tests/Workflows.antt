-- ===== src/Tests/Workflows.antt =====
-- Runs of the sample workflow.
use opc_platform.Prelude.{String, true, false, none, some, [], ◌∷◌, ◌≡◌, refl, has}
use opc_platform.Dag.Degrees.{names}
use opc_platform.Dag.Validate.{DagError, dependency_cycle}
use opc_platform.Workflow.{WorkflowSpec, WorkflowStatus, step_node, validate_dag}
use opc_platform.Workflow.Steps.{StepRun, StepStatus, step_run, execute_step, task_failed}
use opc_platform.Workflow.Layers.{
  LayerError, pick, pick_flying, commit, turn, turns, wait, execute_single, execute_concurrent,
  execute_layer, begin, finish,
}
use opc_platform.Workflow.Layers.Settled.{tells, is_completed, is_failed}
use opc_platform.Workflow.Layers.Interleavings.{execute_single-turns}
use opc_platform.Workflow.Execution.{
  WorkflowRun, layer_failed, invalid_dag, rejected, ran, pending_steps, skip_pending,
  execute_layers, close_run, run_layers, execute,
}
use opc_platform.Workflow.Execution.Results.{
  is_open, execute_completes, execute_fails, execute_rejects,
}
use opc_platform.Tests.Samples.{
  plain_order, step, loop, diamond, spec, keep_text, succeeds, good_plays, bad_plays,
}
use opc_platform.Tests.Graphs.{graphs}

runs : Unit {0}
unfolding graphs execute_step pick pick_flying commit turn turns wait execute_single
    execute_concurrent execute_layer pending_steps skip_pending execute_layers close_run run_layers
    execute
runs = tt

abbrev completed_run : String → String → String × StepRun
completed_run name text = (name, step_run name StepStatus.completed text text "")

abbrev good_run : WorkflowRun
good_run = record {
  id = "r";
  workflow_name = "diamond";
  status = WorkflowStatus.completed;
  steps =
      completed_run "d" "4"
      ∷ completed_run "a" "1"
      ∷ completed_run "b" "2"
      ∷ completed_run "c" "3"
      ∷ [];
}

abbrev bad_run : WorkflowRun
bad_run = record {
  id = "r";
  workflow_name = "diamond";
  status = WorkflowStatus.failed;
  steps =
      ("d", step_run "d" StepStatus.skipped "" "" "")
      ∷ completed_run "a" "1"
      ∷ completed_run "b" "2"
      ∷ ("c", step_run "c" StepStatus.failed "x" "" "x")
      ∷ [];
}

abbrev c_failed : LayerError
c_failed = record { step = "c"; cause = task_failed "x" }

execute_good : execute keep_text plain_order "r" spec good_plays ≡ some (ran good_run none)
unfolding runs
execute_good = refl

execute_bad :
    execute keep_text plain_order "r" spec bad_plays
    ≡ some (ran bad_run (some (layer_failed c_failed)))
unfolding runs
execute_bad = refl

abbrev loop_spec : WorkflowSpec
loop_spec = record spec { steps = loop }

execute_loop :
    execute keep_text plain_order "r" loop_spec [] ≡ some (rejected (invalid_dag dependency_cycle))
unfolding runs
execute_loop = refl

execute_completes_example :
    (good_run.status ≡ WorkflowStatus.completed)
    × ((n : String) → has n (names diamond) ≡ true → tells is_completed n good_run.steps ≡ true)
execute_completes_example =
    execute_completes keep_text plain_order "r" spec good_plays good_run execute_good

execute_fails_example :
    (bad_run.status ≡ WorkflowStatus.failed)
    × ((e : LayerError) × (layer_failed c_failed ≡ layer_failed e)
        × (tells is_failed e.step bad_run.steps ≡ true))
    × ((n : String) → tells is_open n bad_run.steps ≡ false)
execute_fails_example =
    execute_fails keep_text plain_order "r" spec bad_plays bad_run (layer_failed c_failed)
      execute_bad

execute_rejects_example :
    (bad : DagError) × (validate_dag plain_order loop ≡ some bad)
    × (invalid_dag dependency_cycle ≡ invalid_dag bad)
execute_rejects_example =
    execute_rejects keep_text plain_order "r" loop_spec [] (invalid_dag dependency_cycle)
      execute_loop

execute_single-turns_example :
    execute_concurrent keep_text [] []
      (step "a" [] ∷ [])
      (begin "a" ∷ finish "a" (succeeds "1") ∷ [])
    ≡ some (execute_single keep_text [] [] (step "a" []) (succeeds "1"))
execute_single-turns_example = execute_single-turns keep_text [] [] (step "a" []) (succeeds "1")
