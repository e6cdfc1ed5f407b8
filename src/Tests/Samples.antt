-- ===== src/Tests/Samples.antt =====
-- Small graphs and workflows.
use opc_platform.Prelude.{String, none, List, [], ◌∷◌, refl, MapOrder}
use opc_platform.Workflow.{WorkflowStep, WorkflowSpec}
use opc_platform.Workflow.Steps.{Answer, ReplaceAll, answered, refused}
use opc_platform.Workflow.Layers.{Play, single, concurrent, begin, finish}
use opc_platform.Goal.{Project, zero_project}

-- The iterations give the keys as they stand.
abbrev pub plain_order : MapOrder
plain_order = record { range = λ n ks. ks; range_keeps = λ n x ks. refl }

abbrev pub step : String → List String → WorkflowStep
step name deps = record {
  name = name;
  agent = "agent";
  depends_on = deps;
  input = record { message = "do"; context = [] };
  outputs = [];
}

-- `b` and `c` wait for `a`, and `d` for both.
abbrev pub diamond : List WorkflowStep
diamond = step "d" ("b" ∷ "c" ∷ []) ∷ step "a" [] ∷ step "b" ("a" ∷ []) ∷ step "c" ("a" ∷ []) ∷ []

abbrev pub loop : List WorkflowStep
loop = step "a" ("b" ∷ []) ∷ step "b" ("a" ∷ []) ∷ []

abbrev pub spec : WorkflowSpec
spec = record {
  api_version = "opc/v1";
  kind = "Workflow";
  metadata_name = "diamond";
  schedule = "";
  steps = diamond;
}

abbrev pub keep_text : ReplaceAll
keep_text f s = s

abbrev pub succeeds : String → Answer
succeeds text = record {
  task_id = text;
  create_task = λ t. none;
  execute_task = λ t. answered text;
}

abbrev pub fails : String → Answer
fails text = record { task_id = text; create_task = λ t. none; execute_task = λ t. refused text }

-- `b` and `c` start together, and `c` ends first.
abbrev pub good_plays : List Play
good_plays =
    single (succeeds "1")
    ∷ concurrent
        (begin "b" ∷ begin "c" ∷ finish "c" (succeeds "3") ∷ finish "b" (succeeds "2") ∷ [])
    ∷ single (succeeds "4")
    ∷ []

-- `c` fails.
abbrev pub bad_plays : List Play
bad_plays =
    single (succeeds "1")
    ∷ concurrent (begin "c" ∷ finish "c" (fails "x") ∷ begin "b" ∷ finish "b" (succeeds "2") ∷ [])
    ∷ []

abbrev pub project : String → List String → Project
project name deps = record zero_project { name = name; dependencies = deps }

abbrev pub chain : List Project
chain = project "site" ("api" ∷ []) ∷ project "api" [] ∷ []
