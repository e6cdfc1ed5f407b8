-- ===== src/Tests/Stores.antt =====
-- A store with a goal, a task and a federated goal run with its project.
use opc_platform.Prelude.{
  Option, List, ℕ, ◌+◌, ◌≤◌, ◌≡◌, refl, String, Bool, true, false, none, some, [], ◌∷◌, lookup,
  insert, delete,
}
use opc_platform.Storage.{
  FederatedGoalProjectRecord, Store, AgentRecord, TaskRecord, GoalRecord, HierarchyStats,
  insert_row, rows, task_completed,
}
use opc_platform.Storage.Agents.{create_task}
use opc_platform.Storage.Goals.{create_goal, get_goal, goal_stats, stats_of, sum_of}
use opc_platform.Storage.Federated.{
  get_federated_goal_run, delete_federated_goal_run, list_federated_goal_projects, by_layer,
  sorted_projects,
}
use opc_platform.Storage.Refinement.{
  AgentStatement, Answer, creates, updates, deletes, reads, done, failed, found, answers, specified,
  specified_answers, answers-refine,
}
use opc_platform.Storage.Stats.{goal_stats-create_task}

stores : Unit {0}
unfolding lookup insert delete insert_row rows create_task create_goal get_goal goal_stats stats_of
    sum_of by_layer sorted_projects list_federated_goal_projects get_federated_goal_run
    delete_federated_goal_run
stores = tt

abbrev no_order : String → String → Bool
no_order a b = false

abbrev goal : GoalRecord ℕ
goal = record {
  goal_id = "g";
  name = "ship";
  description = "ship it";
  owner = "ann";
  deadline = "friday";
  status = "";
  phase = "planned";
  spec_yaml = "";
  decomposition_plan = "";
  decompose_cost = 0;
  tokens_in = 0;
  tokens_out = 0;
  cost = 0;
}

abbrev pub task : TaskRecord ℕ
task = record {
  task_id = "t";
  agent_name = "a";
  message = "hello";
  status = task_completed;
  result = "";
  error = "";
  tokens_in = 3;
  tokens_out = 4;
  cost = 5;
  issue_id = "";
  project_id = "";
  goal_id = "g";
  lineage_json = "";
  started_at = none;
  ended_at = none;
}

abbrev pub store : Store ℕ
store = record {
  available = true;
  agents = [];
  tasks = ("u", record task { task_id = "u" }) ∷ [];
  workflows = [];
  workflow_runs = [];
  goals = [];
  projects = [];
  issues = [];
  federated_goal_runs =
      (
        "f",
        record {
          goal_id = "f";
          goal_name = "fed";
          description = "";
          callback_url = "";
          status = "InProgress";
          trace_context = "";
          results_json = "";
        },
      )
      ∷ [];
  federated_goal_projects =
      (record {
        goal_id = "f";
        project_id = "p1";
        project_name = "one";
        company_id = "c";
        agent_name = "a";
        description = "";
        status = "Pending";
        result = "";
        round = 0;
        max_rounds = 3;
        layer = 0;
        dependencies_json = "[]";
      })
      ∷ [];
}

abbrev sum_real : List ℕ → ℕ
sum_real [] = 0
sum_real (c ∷ costs) = c + sum_real costs

-- The goal has one task already, of the same numbers.
goal_stats-create_task_example :
    (old : HierarchyStats ℕ) × (new : HierarchyStats ℕ) × (goal_stats sum_real "g" store ≡ some old)
    × (goal_stats sum_real "g" (record store { tasks = insert "t" task store.tasks }) ≡ some new)
    × (old.total_cost ≡ 5)
    × ((new.total_tokens_in ≡ old.total_tokens_in + 3)
        × (new.total_tokens_out ≡ old.total_tokens_out + 4)
        × (new.task_count ≡ old.task_count + 1)
        × (new.completed_tasks ≡ old.completed_tasks + 1)
        × (new.failed_tasks ≡ old.failed_tasks + 0)
        × (new.completed_tasks + new.failed_tasks ≤ new.task_count)
        × (new.total_cost ≡ 10))
unfolding stores
goal_stats-create_task_example =
    goal_stats-create_task sum_real "g" task store
      (record store { tasks = insert "t" task store.tasks }) refl

-- What a connection like that of `New` leaves of a run that is deleted, and what one that enforces does.
abbrev left_after : Bool → Option (List FederatedGoalProjectRecord)
left_after enforced = elim (delete_federated_goal_run enforced "f" store) [
  | none ↦ none
  | some s ↦ list_federated_goal_projects no_order "f" s
]

projects_stay : left_after false ≡ some store.federated_goal_projects
unfolding stores
projects_stay = refl

projects_go : left_after true ≡ some []
unfolding stores
projects_go = refl

abbrev worker : String → AgentRecord
worker phase = record {
  name = "w";
  agent_type = "custom";
  phase = phase;
  spec_yaml = "";
  restarts = 0;
  message = "";
}

abbrev statements : List AgentStatement
statements =
    updates (worker "Running")
    ∷ reads "w"
    ∷ creates (worker "Created")
    ∷ creates (worker "Created")
    ∷ reads "w"
    ∷ deletes "w"
    ∷ deletes "w"
    ∷ []

answers-refine_example :
    answers statements store ≡ specified_answers statements (λ n. lookup n store.agents)
answers-refine_example = answers-refine statements store refl

abbrev expected : List Answer
expected = done ∷ found none ∷ done ∷ failed ∷ found (some (worker "Created")) ∷ done ∷ failed ∷ []

answers_seen : specified_answers statements (λ n. none) ≡ expected
unfolding specified specified_answers
answers_seen = refl
