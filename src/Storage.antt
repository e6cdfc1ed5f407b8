-- ===== src/Storage.antt =====
-- The records of api/v1/types.go and pkg/storage/store.go, and the tables of pkg/storage/sqlite that
-- hold them. A table is a list of rows by their primary key, in the order of their creation; the times
-- of creation and update are left out. Foreign keys are not enforced, as go-sqlite3
-- has them off by default; Federated has both settings for its cascade. A
-- statement fails where the database is not available.
pub mod Agents
pub mod Workflows
pub mod Goals
pub mod Federated
pub mod RoundTrips
pub mod Stats
pub mod Refinement
use opc_platform.Prelude.{
  ℕ, String, Bool, true, false, Option, none, some, List, [], ◌∷◌, if◌then◌else◌, Map, lookup,
  has_key, insert, delete,
}

-- `AgentPhase` and `TaskStatus`, which are strings.
abbrev pub phase_created : String
phase_created = "Created"

abbrev pub phase_starting : String
phase_starting = "Starting"

abbrev pub phase_running : String
phase_running = "Running"

abbrev pub phase_failed : String
phase_failed = "Failed"

abbrev pub phase_stopped : String
phase_stopped = "Stopped"

abbrev pub task_pending : String
task_pending = "Pending"

abbrev pub task_running : String
task_running = "Running"

abbrev pub task_completed : String
task_completed = "Completed"

abbrev pub task_failed : String
task_failed = "Failed"

pub record AgentRecord : Type 0 where
  pub name : String
  pub agent_type : String
  pub phase : String
  pub spec_yaml : String
  pub restarts : ℕ
  pub message : String

pub record TaskRecord (C : Type 0) : Type 0 where
  pub task_id : String
  pub agent_name : String
  pub message : String
  pub status : String
  pub result : String
  pub error : String
  pub tokens_in : ℕ
  pub tokens_out : ℕ
  pub cost : C
  pub issue_id : String
  pub project_id : String
  pub goal_id : String
  pub lineage_json : String
  pub started_at : Option ℕ
  pub ended_at : Option ℕ

pub record WorkflowRecord : Type 0 where
  pub name : String
  pub spec_yaml : String
  pub schedule : String
  pub enabled : Bool

pub record WorkflowRunRecord : Type 0 where
  pub run_id : String
  pub workflow_name : String
  pub status : String
  pub steps_json : String
  pub started_at : ℕ
  pub ended_at : Option ℕ

pub record GoalRecord (C : Type 0) : Type 0 where
  pub goal_id : String
  pub name : String
  pub description : String
  pub owner : String
  pub deadline : String
  pub status : String
  pub phase : String
  pub spec_yaml : String
  pub decomposition_plan : String
  pub decompose_cost : C
  pub tokens_in : ℕ
  pub tokens_out : ℕ
  pub cost : C

pub record ProjectRecord (C : Type 0) : Type 0 where
  pub project_id : String
  pub name : String
  pub goal_id : String
  pub description : String
  pub status : String
  pub spec_yaml : String
  pub tokens_in : ℕ
  pub tokens_out : ℕ
  pub cost : C

-- `ParentSpans`, a list that the store writes as JSON.
pub record IssueRecord (C : Type 0) : Type 0 where
  pub issue_id : String
  pub name : String
  pub project_id : String
  pub description : String
  pub agent_ref : String
  pub status : String
  pub spec_yaml : String
  pub goal_id : String
  pub trace_id : String
  pub span_id : String
  pub parent_spans : List String
  pub lineage_json : String
  pub tokens_in : ℕ
  pub tokens_out : ℕ
  pub cost : C

pub record HierarchyStats (C : Type 0) : Type 0 where
  pub total_tokens_in : ℕ
  pub total_tokens_out : ℕ
  pub total_cost : C
  pub task_count : ℕ
  pub completed_tasks : ℕ
  pub failed_tasks : ℕ

pub record FederatedGoalRunRecord : Type 0 where
  pub goal_id : String
  pub goal_name : String
  pub description : String
  pub callback_url : String
  pub status : String
  pub trace_context : String
  pub results_json : String

pub record FederatedGoalProjectRecord : Type 0 where
  pub goal_id : String
  pub project_id : String
  pub project_name : String
  pub company_id : String
  pub agent_name : String
  pub description : String
  pub status : String
  pub result : String
  pub round : ℕ
  pub max_rounds : ℕ
  pub layer : ℕ
  pub dependencies_json : String

-- The projects of a federated goal have a key of two parts, so they are a list of rows.
pub record Store (C : Type 0) : Type 0 where
  pub available : Bool
  pub agents : Map AgentRecord
  pub tasks : Map (TaskRecord C)
  pub workflows : Map WorkflowRecord
  pub workflow_runs : Map WorkflowRunRecord
  pub goals : Map (GoalRecord C)
  pub projects : Map (ProjectRecord C)
  pub issues : Map (IssueRecord C)
  pub federated_goal_runs : Map FederatedGoalRunRecord
  pub federated_goal_projects : List FederatedGoalProjectRecord

module _ {R : Type 0} where
  -- `INSERT`: the new row is the last, and its key is new.
  unfoldable pub insert_row : String → R → Map R → Option (Map R)
  insert_row key row table = if has_key key table then none else some (insert key row table)

  -- `UPDATE … WHERE key = ?`, which is no error where no row has the key.
  unfoldable pub update_row : String → (R → R) → Map R → Map R
  update_row key change table = elim (lookup key table) [
    | none ↦ table
    | some row ↦ insert key (change row) table
  ]

  -- `DELETE … WHERE key = ?`, an error of the caller's where no row is affected.
  unfoldable pub delete_known : String → Map R → Option (Map R)
  delete_known key table = if has_key key table then some (delete key table) else none

  -- `INSERT OR REPLACE`: an old row goes, and the new one is the last.
  unfoldable pub replace_row : String → R → Map R → Map R
  replace_row key row table = insert key row (delete key table)

  -- The rows in the order of their creation, and the last one first.
  unfoldable pub rows : Map R → List R
  rows [] = []
  rows ((key, row) ∷ table) = row ∷ rows table

  unfoldable pub newest_first : List R → List R → List R
  newest_first later [] = later
  newest_first later (row ∷ more) = newest_first (row ∷ later) more
