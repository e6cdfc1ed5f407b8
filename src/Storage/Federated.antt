-- ===== src/Storage/Federated.antt =====
-- The federated goal runs and their projects of pkg/storage/sqlite/sqlite.go. The foreign key of the
-- projects deletes on cascade; whether the connection enforces it is a flag, which the driver has off
-- where the data source name does not ask for foreign keys, as that of `New` does not.
use opc_platform.Prelude.{
  has_key, String, Bool, not, ◌&&◌, ◌||◌, Option, none, some, List, [], ◌∷◌, if◌then◌else◌, str_eq,
  leb, ltb, lookup, delete, keep,
}
use opc_platform.Storage.{
  Store, FederatedGoalRunRecord, FederatedGoalProjectRecord, update_row, replace_row, rows,
  newest_first,
}

-- `goal_id=? AND project_name=?`
abbrev pub same_project : FederatedGoalProjectRecord → FederatedGoalProjectRecord → Bool
same_project p q = str_eq p.goal_id q.goal_id && str_eq p.project_name q.project_name

unfoldable pub update_projects :
    FederatedGoalProjectRecord → List FederatedGoalProjectRecord → List FederatedGoalProjectRecord
update_projects p [] = []
update_projects p (q ∷ qs) =
    (if same_project p q
      then record q {
        status = p.status;
        result = p.result;
        round = p.round;
        agent_name = p.agent_name;
      }
      else q)
    ∷ update_projects p qs

-- `ORDER BY layer, project_name`, where `before` orders the names.
unfoldable pub by_layer :
    (String → String → Bool)
    → FederatedGoalProjectRecord
    → List FederatedGoalProjectRecord
    → List FederatedGoalProjectRecord
by_layer before p [] = p ∷ []
by_layer before p (q ∷ qs) =
    let later = by_layer before p qs in
    if ltb p.layer q.layer || (leb p.layer q.layer && before p.project_name q.project_name)
    then p ∷ q ∷ qs
    else q ∷ later

unfoldable pub sorted_projects :
    (String → String → Bool) → List FederatedGoalProjectRecord → List FederatedGoalProjectRecord
unfolding by_layer
sorted_projects before [] = []
sorted_projects before (p ∷ ps) = by_layer before p (sorted_projects before ps)

-- `ON DELETE CASCADE`, where the connection enforces the foreign key.
abbrev pub cascaded :
    Bool → String → List FederatedGoalProjectRecord → List FederatedGoalProjectRecord
cascaded enforced goal projects =
    if enforced then keep (λ p. not (str_eq p.goal_id goal)) projects else projects

module _ {C : Type 0} where
  -- An old row of the run is replaced, which deletes it.
  unfoldable pub save_federated_goal_run :
      Bool → FederatedGoalRunRecord → Store C → Option (Store C)
  unfolding replace_row
  save_federated_goal_run enforced run s =
      let replaced = has_key run.goal_id s.federated_goal_runs in
      if s.available
      then some (record s {
        federated_goal_runs = replace_row run.goal_id run s.federated_goal_runs;
        federated_goal_projects =
            cascaded (enforced && replaced) run.goal_id s.federated_goal_projects;
      })
      else none

  unfoldable pub get_federated_goal_run : String → Store C → Option (FederatedGoalRunRecord)
  get_federated_goal_run key s = if s.available then lookup key s.federated_goal_runs else none

  unfoldable pub update_federated_goal_run_status : String → String → Store C → Option (Store C)
  unfolding update_row
  update_federated_goal_run_status key status s =
      if s.available
      then some (record s {
        federated_goal_runs =
            update_row key (λ old. record old { status = status }) s.federated_goal_runs;
      })
      else none

  unfoldable pub list_active_federated_goal_runs : Store C → Option (List (FederatedGoalRunRecord))
  unfolding rows newest_first
  list_active_federated_goal_runs s =
      if s.available
      then some (
          keep (λ r. not (str_eq r.status "Completed" || str_eq r.status "Failed"))
            (rows s.federated_goal_runs))
      else none

  unfoldable pub delete_federated_goal_run : Bool → String → Store C → Option (Store C)
  delete_federated_goal_run enforced key s =
      if s.available
      then some (record s {
        federated_goal_runs = delete key s.federated_goal_runs;
        federated_goal_projects = cascaded enforced key s.federated_goal_projects;
      })
      else none

  -- A project needs its run, where the foreign key is enforced.
  unfoldable pub save_federated_goal_project :
      Bool → FederatedGoalProjectRecord → Store C → Option (Store C)
  save_federated_goal_project enforced p s =
      if s.available && (not enforced || has_key p.goal_id s.federated_goal_runs)
      then some (record s {
        federated_goal_projects = p ∷ keep (λ q. not (same_project p q)) s.federated_goal_projects;
      })
      else none

  unfoldable pub update_federated_goal_project :
      FederatedGoalProjectRecord → Store C → Option (Store C)
  unfolding update_projects
  update_federated_goal_project p s =
      if s.available
      then some (record s { federated_goal_projects = update_projects p s.federated_goal_projects })
      else none

  unfoldable pub list_federated_goal_projects :
      (String → String → Bool) → String → Store C → Option (List FederatedGoalProjectRecord)
  unfolding sorted_projects
  list_federated_goal_projects before goal s =
      if s.available
      then some
          (sorted_projects before (keep (λ p. str_eq p.goal_id goal) s.federated_goal_projects))
      else none
