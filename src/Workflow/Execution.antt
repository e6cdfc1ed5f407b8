-- ===== src/Workflow/Execution.antt =====
-- `Execute`: the layers one after another, and the state of the run.
pub mod Rounds
pub mod Results
use opc_platform.Prelude.{String, Bool, Option, none, some, List, [], ◌∷◌, Map, insert, MapOrder}
use opc_platform.Dag.{Outcome, done, cyclic, out_of_fuel}
use opc_platform.Dag.Validate.{DagError}
use opc_platform.Workflow.{
  WorkflowStep, WorkflowSpec, WorkflowStatus, completed, failed, validate_dag, build_dag,
}
use opc_platform.Workflow.Steps.{ReplaceAll, StepRun, StepStatus, step_run}
use opc_platform.Workflow.Layers.{LayerState, LayerError, Play, execute_layer}

pub record WorkflowRun : Type 0 where
  pub id : String
  pub workflow_name : String
  pub status : WorkflowStatus
  pub steps : Map StepRun

pub data ExecuteError : Type 0 where
  invalid_dag : DagError → ExecuteError
  build_failed : ExecuteError
  layer_failed : LayerError → ExecuteError

-- What `Execute` returns: an error before there is a run, or a run with an error or none.
pub data Executed : Type 0 where
  rejected : ExecuteError → Executed
  ran : WorkflowRun → Option ExecuteError → Executed

-- All steps start as Pending.
unfoldable pub pending_steps : Map StepRun → List WorkflowStep → Map StepRun
pending_steps steps [] = steps
pending_steps steps (s ∷ ss) =
    pending_steps (insert s.name (step_run s.name StepStatus.pending "" "" "") steps) ss

-- The steps that a failed run leaves Pending become Skipped.
abbrev pub skip : StepStatus → StepStatus
skip StepStatus.pending = StepStatus.skipped
skip StepStatus.running = StepStatus.running
skip StepStatus.completed = StepStatus.completed
skip StepStatus.failed = StepStatus.failed
skip StepStatus.skipped = StepStatus.skipped

unfoldable pub skip_pending : Map StepRun → Map StepRun
skip_pending [] = []
skip_pending ((n, sr) ∷ steps) = (n, record sr { status = skip sr.status }) ∷ skip_pending steps

-- The end of the run.
unfoldable pub close_run : String → String → Map StepRun × Option LayerError → Executed
close_run id name (steps, none) =
    ran (record { id = id; workflow_name = name; status = completed; steps = steps }) none
close_run id name (steps, some e) =
    ran (record { id = id; workflow_name = name; status = failed; steps = skip_pending steps })
      (some (layer_failed e))

module _ (replace_all : ReplaceAll) where
  -- The loop over the layers: the step runs, and the error that ended it. `none` where the plays are
  -- not of these layers.
  unfoldable pub execute_layers :
      Map StepRun
      → Map String
      → List (List WorkflowStep)
      → List Play
      → Option (Map StepRun × Option LayerError)
  execute_layers steps outputs [] plays = some (steps, none)
  execute_layers steps outputs (layer ∷ layers) [] = none
  execute_layers steps outputs (layer ∷ layers) (play ∷ plays) =
      elim (execute_layer replace_all steps outputs layer play) [
        | none ↦ none
        | some st ↦ elim st.first_err [
          | some e ↦ some (st.steps, some e)
          | none ↦ execute_layers st.steps st.outputs layers plays
        ]
      ]

  unfoldable pub run_layers :
      String → WorkflowSpec → List (List WorkflowStep) → List Play → Option Executed
  run_layers id spec layers plays =
      elim (execute_layers (pending_steps [] spec.steps) [] layers plays) [
        | none ↦ none
        | some result ↦ some (close_run id spec.metadata_name result)
      ]

  unfoldable pub execute : MapOrder → (id : String) → WorkflowSpec → List Play → Option Executed
  execute order id spec plays = elim (validate_dag order spec.steps) [
    | some e ↦ some (rejected (invalid_dag e))
    | none ↦ elim (build_dag order spec.steps) [
      | done layers ↦ run_layers id spec layers plays
      | cyclic ↦ some (rejected build_failed)
      | out_of_fuel ↦ none
    ]
  ]
