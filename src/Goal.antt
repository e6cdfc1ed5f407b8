-- ===== src/Goal.antt =====
-- pkg/goal: the projects of a goal, and pkg/goal/dag.go, which tests and sorts them.
use opc_platform.Prelude.{ℕ, String, Option, none, some, List, [], if◌then◌else◌, str_eq, MapOrder}
use opc_platform.Dag.{Node, Outcome, build_layers}
use opc_platform.Dag.Validate.{DagError, name_required, validate}

-- `ProjectStatus`.
pub data ProjectStatus : Type 0 where
  pending running completed failed : ProjectStatus

-- `Project`, without its tasks.
pub record Project : Type 0 where
  pub id : String
  pub goal_id : String
  pub company_id : String
  pub name : String
  pub description : String
  pub dependencies : List String
  pub status : ProjectStatus
  pub result : String
  pub round : ℕ
  pub max_rounds : ℕ

-- What stands for the nil pointer, which is never looked up: the names in the map are the nodes'.
abbrev pub zero_project : Project
zero_project = record {
  id = "";
  goal_id = "";
  company_id = "";
  name = "";
  description = "";
  dependencies = [];
  status = pending;
  result = "";
  round = 0;
  max_rounds = 0;
}

instance abbrev pub project_node : Node Project
project_node = record { name = λ p. p.name; deps = λ p. p.dependencies; zero_value = zero_project }

-- The first test of a project in `ValidateProjectDAG`.
unfoldable pub project_problem : Project → Option DagError
project_problem p = if str_eq p.name "" then some name_required else none

abbrev pub validate_project_dag : MapOrder → List Project → Option DagError
validate_project_dag order projects = validate project_problem order projects

abbrev pub build_project_layers : MapOrder → List Project → Outcome (List (List Project))
build_project_layers order projects = build_layers order projects
