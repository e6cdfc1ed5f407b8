-- ===== src/Storage/Goals.antt =====
-- The goals, projects and issues of pkg/storage/sqlite/sqlite.go, and the statistics of their tasks.
use opc_platform.Prelude.{
  ◌+◌, ℕ, map, length, keep, ◌+◌, String, Option, none, some, List, [], ◌∷◌, if◌then◌else◌, str_eq,
  lookup, delete, keep,
}
use opc_platform.Storage.{
  Store, GoalRecord, ProjectRecord, IssueRecord, TaskRecord, HierarchyStats, task_completed,
  task_failed, insert_row, update_row, rows, newest_first,
}

abbrev pub or_text : String → String → String
or_text text fallback = if str_eq text "" then fallback else text

module _ {C : Type 0} where
  -- An empty status and an empty phase are stored as active.
  abbrev pub stored_goal : GoalRecord C → GoalRecord C
  stored_goal g = record g { status = or_text g.status "active"; phase = or_text g.phase "active" }

  unfoldable pub create_goal : GoalRecord C → Store C → Option (Store C)
  unfolding insert_row
  create_goal g s =
      if s.available
      then (elim (insert_row g.goal_id (stored_goal g) s.goals) [
        | none ↦ none
        | some t ↦ some (record s { goals = t })
      ])
      else none

  -- The columns `owner` and `deadline` are not selected.
  abbrev pub read_goal : GoalRecord C → GoalRecord C
  read_goal g = record g { owner = ""; deadline = "" }

  unfoldable pub get_goal : String → Store C → Option (GoalRecord C)
  get_goal key s =
      if s.available
      then (elim (lookup key s.goals) [ none ↦ none | some g ↦ some (read_goal g) ])
      else none

  unfoldable pub read_goals : List (GoalRecord C) → List (GoalRecord C)
  read_goals [] = []
  read_goals (g ∷ goals) = read_goal g ∷ read_goals goals

  unfoldable pub list_goals : Store C → Option (List (GoalRecord C))
  unfolding rows newest_first read_goals
  list_goals s = if s.available then some (read_goals (newest_first [] (rows s.goals))) else none

  abbrev pub updated_goal : GoalRecord C → GoalRecord C → GoalRecord C
  updated_goal g old = record g { owner = old.owner; deadline = old.deadline }

  unfoldable pub update_goal : GoalRecord C → Store C → Option (Store C)
  unfolding update_row
  update_goal g s =
      if s.available
      then some (record s { goals = update_row g.goal_id (updated_goal g) s.goals })
      else none

  unfoldable pub delete_goal : String → Store C → Option (Store C)
  delete_goal key s = if s.available then some (record s { goals = delete key s.goals }) else none

  -- A new project has used nothing yet.
  abbrev pub stored_project : C → ProjectRecord C → ProjectRecord C
  stored_project zero_cost p = record p { tokens_in = 0; tokens_out = 0; cost = zero_cost }

  unfoldable pub create_project : C → ProjectRecord C → Store C → Option (Store C)
  unfolding insert_row
  create_project zero_cost p s =
      if s.available
      then (elim (insert_row p.project_id (stored_project zero_cost p) s.projects) [
        | none ↦ none
        | some t ↦ some (record s { projects = t })
      ])
      else none

  unfoldable pub get_project : String → Store C → Option (ProjectRecord C)
  get_project key s = if s.available then lookup key s.projects else none

  unfoldable pub list_projects : Store C → Option (List (ProjectRecord C))
  unfolding rows newest_first
  list_projects s = if s.available then some (newest_first [] (rows s.projects)) else none

  unfoldable pub list_projects_by_goal : String → Store C → Option (List (ProjectRecord C))
  unfolding rows newest_first
  list_projects_by_goal goal s =
      if s.available then some (keep (λ p. str_eq p.goal_id goal) (rows s.projects)) else none

  abbrev pub updated_project : ProjectRecord C → ProjectRecord C → ProjectRecord C
  updated_project p old = record p { goal_id = old.goal_id; spec_yaml = old.spec_yaml }

  unfoldable pub update_project : ProjectRecord C → Store C → Option (Store C)
  unfolding update_row
  update_project p s =
      if s.available
      then some (record s { projects = update_row p.project_id (updated_project p) s.projects })
      else none

  unfoldable pub delete_project : String → Store C → Option (Store C)
  delete_project key s =
      if s.available then some (record s { projects = delete key s.projects }) else none

  abbrev pub stored_issue : C → IssueRecord C → IssueRecord C
  stored_issue zero_cost i = record i {
    tokens_in = 0;
    tokens_out = 0;
    cost = zero_cost;
    lineage_json = or_text i.lineage_json "[]";
  }

  unfoldable pub create_issue : C → IssueRecord C → Store C → Option (Store C)
  unfolding insert_row
  create_issue zero_cost i s =
      if s.available
      then (elim (insert_row i.issue_id (stored_issue zero_cost i) s.issues) [
        | none ↦ none
        | some t ↦ some (record s { issues = t })
      ])
      else none

  unfoldable pub get_issue : String → Store C → Option (IssueRecord C)
  get_issue key s = if s.available then lookup key s.issues else none

  unfoldable pub list_issues : Store C → Option (List (IssueRecord C))
  unfolding rows newest_first
  list_issues s = if s.available then some (newest_first [] (rows s.issues)) else none

  unfoldable pub list_issues_by_project : String → Store C → Option (List (IssueRecord C))
  unfolding rows newest_first
  list_issues_by_project project s =
      if s.available then some (keep (λ i. str_eq i.project_id project) (rows s.issues)) else none

  abbrev pub updated_issue : IssueRecord C → IssueRecord C → IssueRecord C
  updated_issue i old = record i {
    project_id = old.project_id;
    spec_yaml = old.spec_yaml;
    lineage_json = or_text i.lineage_json "[]";
  }

  unfoldable pub update_issue : IssueRecord C → Store C → Option (Store C)
  unfolding update_row
  update_issue i s =
      if s.available
      then some (record s { issues = update_row i.issue_id (updated_issue i) s.issues })
      else none

  unfoldable pub delete_issue : String → Store C → Option (Store C)
  delete_issue key s =
      if s.available then some (record s { issues = delete key s.issues }) else none

  -- What `SUM` of whole numbers is, and `SUM` of `CASE WHEN status = ? THEN 1 ELSE 0 END`; of no rows, it
  -- is 0 by `COALESCE`.
  unfoldable pub sum_of : (TaskRecord C → ℕ) → List (TaskRecord C) → ℕ
  sum_of column [] = 0
  sum_of column (t ∷ tasks) = column t + sum_of column tasks

  abbrev pub one_if : String → TaskRecord C → ℕ
  one_if status t = if str_eq t.status status then 1 else 0

  -- The columns of the query. `sum_real` is what SQLite's `SUM` makes of the costs, which are floats,
  -- with `COALESCE`.
  unfoldable pub stats_of : (List C → C) → List (TaskRecord C) → HierarchyStats C
  unfolding sum_of
  stats_of sum_real tasks = record {
    total_tokens_in = sum_of (λ t. t.tokens_in) tasks;
    total_tokens_out = sum_of (λ t. t.tokens_out) tasks;
    total_cost = sum_real (map (λ t. t.cost) tasks);
    task_count = length tasks;
    completed_tasks = sum_of (one_if task_completed) tasks;
    failed_tasks = sum_of (one_if task_failed) tasks;
  }

  unfoldable pub goal_stats : (List C → C) → String → Store C → Option (HierarchyStats C)
  unfolding rows stats_of
  goal_stats sum_real goal s =
      if s.available
      then some (stats_of sum_real (keep (λ t. str_eq t.goal_id goal) (rows s.tasks)))
      else none

  unfoldable pub project_stats : (List C → C) → String → Store C → Option (HierarchyStats C)
  unfolding rows stats_of
  project_stats sum_real project s =
      if s.available
      then some (stats_of sum_real (keep (λ t. str_eq t.project_id project) (rows s.tasks)))
      else none
