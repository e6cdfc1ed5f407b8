-- ===== src/Storage/RoundTrips.antt =====
-- What is read back from the tables.
use opc_platform.Prelude.{
  false, List, [], ◌∷◌, ◌&&◌, keep, String, Bool, true, ◌≡◌, refl, inl, inr, none, some,
  if◌then◌else◌, arith, str_eq, eq_iff, Map, lookup, delete, lookup-insert, lookup-delete,
  Option-cases,
}
use opc_platform.Storage.{FederatedGoalProjectRecord, Store, AgentRecord, update_row}
use opc_platform.Storage.Agents.{get_agent, update_agent}
use opc_platform.Storage.Federated.{
  get_federated_goal_run, delete_federated_goal_run, list_federated_goal_projects, cascaded,
  sorted_projects,
}

module _ {R : Type 0} where
  pub lookup-update_row :
      (key read : String) (change : R → R) (table : Map R)
      → lookup read (update_row key change table) ≡ (
          if str_eq key read
          then (elim (lookup key table) [ none ↦ none | some row ↦ some (change row) ])
          else lookup read table)
  unfolding update_row
  lookup-update_row key read change table = elim (Option-cases (lookup key table)) [
    | inl missing ↦ ground (arith, missing, eq_iff key read)
    | inr (row, found) ↦ ground (arith, found, lookup-insert key read (change row) table)
  ]

-- The projects of a goal among those that a cascade leaves.
keep-cascaded :
    (goal other : String) (ps : List FederatedGoalProjectRecord)
    → keep (λ p. str_eq p.goal_id other) (cascaded true goal ps)
      ≡ (if str_eq goal other then [] else keep (λ p. str_eq p.goal_id other) ps)
keep-cascaded goal other [] = ground arith
keep-cascaded goal other (p ∷ ps) = ground (
  arith,
  keep-cascaded goal other ps,
  eq_iff goal other,
  eq_iff p.goal_id goal,
  eq_iff p.goal_id other,
)

module _ {C : Type 0} where
  -- What the agents' table holds after an update, where the database is available.
  pub get_agent-update_agent :
      (a : AgentRecord) (s : Store C) (key : String)
      → s.available ≡ true
      → (s' : Store C) × (update_agent a s ≡ some s')
        × (s'.available ≡ true)
        × (get_agent key s' ≡ (
            if str_eq a.name key
            then (elim (get_agent key s) [ none ↦ none | some old ↦ some a ])
            else get_agent key s))
  unfolding update_agent get_agent
  get_agent-update_agent a s key h = (
    record s { agents = update_row a.name (λ old. a) s.agents },
    ground (arith, h),
    h,
    ground (arith, h, eq_iff a.name key, lookup-update_row a.name key (λ old. a) s.agents),
  )

  -- Deleting a federated goal run removes it from what is read. The list of its projects is empty then,
  -- if the connection enforces the foreign key; if it does not, as that of `New`, every project stays in
  -- the list. The projects of the other goals stay in any case.
  pub delete_federated_goal_run-projects :
      (enforced : Bool) (before : String → String → Bool) (goal other : String) (s : Store C)
      → s.available ≡ true
      → (s' : Store C) × (delete_federated_goal_run enforced goal s ≡ some s')
        × (get_federated_goal_run goal s' ≡ none)
        × (list_federated_goal_projects before other s' ≡ (
            if enforced && str_eq goal other
            then some []
            else list_federated_goal_projects before other s))
  unfolding delete_federated_goal_run get_federated_goal_run list_federated_goal_projects
      sorted_projects
  delete_federated_goal_run-projects true before goal other s h = (
    record s {
      federated_goal_runs = delete goal s.federated_goal_runs;
      federated_goal_projects = cascaded true goal s.federated_goal_projects;
    },
    ground (arith, h),
    ground (arith, h, lookup-delete goal goal s.federated_goal_runs, eq_iff goal goal),
    ground (arith, h, keep-cascaded goal other s.federated_goal_projects),
  )
  delete_federated_goal_run-projects false before goal other s h = (
    record s { federated_goal_runs = delete goal s.federated_goal_runs },
    ground (arith, h),
    ground (arith, h, lookup-delete goal goal s.federated_goal_runs, eq_iff goal goal),
    refl,
  )
