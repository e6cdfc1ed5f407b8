-- ===== src/Workflow.antt =====
-- pkg/workflow/engine.go: the workflow's specification, and the tests and the sorting of its steps.
pub mod Schedules
pub mod Steps
pub mod Layers
pub mod Execution
use opc_platform.Prelude.{
  String, Option, none, some, List, [], ◌∷◌, if◌then◌else◌, not, str_eq, MapOrder,
}
use opc_platform.Dag.{Node, Outcome, build_layers}
use opc_platform.Dag.Validate.{DagError, name_required, agent_required, validate}

-- `WorkflowStatus`.
pub data WorkflowStatus : Type 0 where
  pending running completed failed : WorkflowStatus

pub record WorkflowInput : Type 0 where
  pub message : String
  pub context : List String

pub record WorkflowOutput : Type 0 where
  pub name : String

pub record WorkflowStep : Type 0 where
  pub name : String
  pub agent : String
  pub depends_on : List String
  pub input : WorkflowInput
  pub outputs : List WorkflowOutput

-- `WorkflowSpec` with its `WorkflowBody`, and of `Metadata` the name.
pub record WorkflowSpec : Type 0 where
  pub api_version : String
  pub kind : String
  pub metadata_name : String
  pub schedule : String
  pub steps : List WorkflowStep

pub data ParseError : Type 0 where
  bad_yaml api_version_required wrong_kind metadata_name_required no_steps : ParseError

pub data Parsed : Type 0 where
  ok : WorkflowSpec → Parsed
  err : ParseError → Parsed

-- The tests of `ParseWorkflow` on a document that could be read.
unfoldable pub check_spec : WorkflowSpec → Parsed
check_spec spec =
    if str_eq spec.api_version ""
    then err api_version_required
    else if not (str_eq spec.kind "Workflow")
    then err wrong_kind
    else if str_eq spec.metadata_name ""
    then err metadata_name_required
    else elim spec.steps [ [] ↦ err no_steps | s ∷ ss ↦ ok spec ]

-- `unmarshal` is the YAML library's reader.
unfoldable pub parse_workflow : (unmarshal : String → Option WorkflowSpec) → String → Parsed
unfolding check_spec
parse_workflow unmarshal text = elim (unmarshal text) [
  | none ↦ err bad_yaml
  | some spec ↦ check_spec spec
]

abbrev pub zero_step : WorkflowStep
zero_step = record {
  name = "";
  agent = "";
  depends_on = [];
  input = record { message = ""; context = [] };
  outputs = [];
}

instance abbrev pub step_node : Node WorkflowStep
step_node = record { name = λ s. s.name; deps = λ s. s.depends_on; zero_value = zero_step }

-- The first two tests of a step in `validateDAG`.
unfoldable pub step_problem : WorkflowStep → Option DagError
step_problem s =
    if str_eq s.name ""
    then some name_required
    else if str_eq s.agent ""
    then some (agent_required s.name)
    else none

abbrev pub validate_dag : MapOrder → List WorkflowStep → Option DagError
validate_dag order steps = validate step_problem order steps

abbrev pub build_dag : MapOrder → List WorkflowStep → Outcome (List (List WorkflowStep))
build_dag order steps = build_layers order steps
