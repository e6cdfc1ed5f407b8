-- ===== src/Dag/Validate.antt =====
-- The checks of `validateDAG` (pkg/workflow/engine.go) and `ValidateProjectDAG` (pkg/goal/dag.go).
pub mod Checks
pub mod Verdict
use opc_platform.Prelude.{
  ℕ, String, Bool, true, false, not, Option, none, some, List, [], ◌∷◌, if◌then◌else◌, ◌==◌, str_eq,
  Map, has_key, insert, length, MapOrder,
}
use opc_platform.Dag.{Node, visited_count}

pub data DagError : Type 0 where
  name_required : DagError
  agent_required : (step : String) → DagError
  duplicate_name : (name : String) → DagError
  unknown_dependency : (name dep : String) → DagError
  self_dependency : (name : String) → DagError
  dependency_cycle : DagError
  -- No error of the program: the model's loop ran out of fuel.
  fuel_exhausted : DagError

-- `stepSet` and `nameSet`.
abbrev pub NameSet : Type 0
NameSet = Map (Unit {0})

-- The inner loop over the dependencies of one node; `none` is the error `nil`.
unfoldable pub check_deps : NameSet → String → List String → Option DagError
check_deps set name [] = none
check_deps set name (dep ∷ ds) =
    let rest = check_deps set name ds in
    if not (has_key dep set)
    then some (unknown_dependency name dep)
    else if str_eq dep name
    then some (self_dependency name)
    else rest

-- `if visited != len(steps)`
unfoldable pub check_count : Option ℕ → ℕ → Option DagError
check_count none total = some fuel_exhausted
check_count (some visited) total = if visited == total then none else some dependency_cycle

module _ {A : Type 0} ⦃node : Node A⦄ where
  unfoldable pub check_all_deps : NameSet → List A → Option DagError
  check_all_deps set [] = none
  check_all_deps set (s ∷ ss) =
      let rest = check_all_deps set ss in
      elim (check_deps set (node.name s) (node.deps s)) [ some e ↦ some e | none ↦ rest ]

-- `problem` is what is checked of a node before its name is looked up in the set.
module _ {A : Type 0} ⦃node : Node A⦄ (problem : A → Option DagError) where
  unfoldable pub check_names : NameSet → List A → NameSet × Option DagError
  check_names set [] = (set, none)
  check_names set (s ∷ ss) =
      let rest = check_names (insert (node.name s) tt set) ss in
      elim (problem s) [
        | some e ↦ (set, some e)
        | none ↦
            if has_key (node.name s) set then (set, some (duplicate_name (node.name s))) else rest
      ]

  unfoldable pub validate : MapOrder → List A → Option DagError
  validate order nodes =
      let (set, bad_name) = check_names [] nodes in
      elim bad_name [
        | some e ↦ some e
        | none ↦ elim (check_all_deps set nodes) [
          | some e ↦ some e
          | none ↦ check_count (visited_count order nodes) (length nodes)
        ]
      ]
