-- ===== src/Tests/Graphs.antt =====
-- The graph algorithms on the sample graphs.
use opc_platform.Prelude.{
  String, none, some, List, [], ◌∷◌, ◌≡◌, ◌≢◌, ◌↔◌, refl, insert, delete, lookup, keys, count, has,
  if◌then◌else◌,
}
use opc_platform.Dag.{
  done, cyclic, out_of_fuel, ensure, add_edge, add_edges, decrement, decrement_all, zero_names,
  relax, kahn_loop, add_node, add_nodes, tables_of, visited_count, add_names, by_name, layer_of,
  remove_layer, layers_loop, finish, build_layers,
}
use opc_platform.Dag.Validate.{
  validate, check_names, check_deps, check_all_deps, check_count, unknown_dependency,
  self_dependency, duplicate_name, dependency_cycle,
}
use opc_platform.Dag.Validate.Verdict.{IsValidDag, validate_iff, validate-build_layers}
use opc_platform.Dag.Degrees.{names}
use opc_platform.Dag.Layers.Rounds.{IsLayered, placed_all}
use opc_platform.Dag.Layers.Order.{build_layers-IsLayered, build_layers-ne-out_of_fuel}
use opc_platform.Workflow.{WorkflowStep, validate_dag, build_dag, step_node, step_problem}
use opc_platform.Goal.{build_project_layers, validate_project_dag, project_problem, project_node}
use opc_platform.Tests.Samples.{plain_order, step, diamond, loop, chain, project}

-- What the runs compute with.
unfoldable pub graphs : Unit {0}
unfolding insert delete lookup keys ensure add_edge add_edges decrement decrement_all zero_names
    relax kahn_loop add_node add_nodes tables_of visited_count add_names by_name layer_of
    remove_layer layers_loop finish build_layers validate check_names check_deps check_all_deps
    check_count step_problem project_problem
graphs = tt

build_diamond :
    build_dag plain_order diamond
    ≡ done (
        (step "a" [] ∷ [])
        ∷ (step "b" ("a" ∷ []) ∷ step "c" ("a" ∷ []) ∷ [])
        ∷ (step "d" ("b" ∷ "c" ∷ []) ∷ [])
        ∷ [])
unfolding graphs
build_diamond = refl

build_loop : build_dag plain_order loop ≡ cyclic
unfolding graphs
build_loop = refl

pub validate_diamond : validate_dag plain_order diamond ≡ none
unfolding graphs
validate_diamond = refl

validate_loop : validate_dag plain_order loop ≡ some dependency_cycle
unfolding graphs
validate_loop = refl

validate_unknown :
    validate_dag plain_order (step "a" ("z" ∷ []) ∷ []) ≡ some (unknown_dependency "a" "z")
unfolding graphs
validate_unknown = refl

validate_self : validate_dag plain_order (step "a" ("a" ∷ []) ∷ []) ≡ some (self_dependency "a")
unfolding graphs
validate_self = refl

validate_twice :
    validate_dag plain_order (step "a" [] ∷ step "a" [] ∷ []) ≡ some (duplicate_name "a")
unfolding graphs
validate_twice = refl

validate_chain : validate_project_dag plain_order chain ≡ none
unfolding graphs
validate_chain = refl

build_chain :
    build_project_layers plain_order chain
    ≡ done ((project "api" [] ∷ []) ∷ (project "site" ("api" ∷ []) ∷ []) ∷ [])
unfolding graphs
build_chain = refl

validate_iff_example : (validate_dag plain_order diamond ≡ none) ↔ IsValidDag step_problem diamond
validate_iff_example = validate_iff step_problem diamond plain_order

build_layers-IsLayered_example :
    IsLayered chain [] ((project "api" [] ∷ []) ∷ (project "site" ("api" ∷ []) ∷ []) ∷ [])
    × ((n : String)
        → count n (
            placed_all chain [] ((project "api" [] ∷ []) ∷ (project "site" ("api" ∷ []) ∷ []) ∷ []))
          ≡ (if has n (names chain) then 1 else 0))
build_layers-IsLayered_example = build_layers-IsLayered chain plain_order _ build_chain

build_layers-ne-out_of_fuel_example : build_dag plain_order loop ≢ out_of_fuel
build_layers-ne-out_of_fuel_example = build_layers-ne-out_of_fuel loop plain_order

validate-build_layers_example :
    (layers : List (List WorkflowStep)) × (build_dag plain_order diamond ≡ done layers)
validate-build_layers_example =
    validate-build_layers step_problem diamond plain_order validate_diamond
