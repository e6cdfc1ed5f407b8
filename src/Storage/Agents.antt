-- ===== src/Storage/Agents.antt =====
-- The agents and tasks of pkg/storage/sqlite/sqlite.go.
use opc_platform.Prelude.{String, Option, none, some, List, [], if◌then◌else◌, str_eq, lookup, keep}
use opc_platform.Storage.{
  Store, AgentRecord, TaskRecord, insert_row, update_row, delete_known, rows, newest_first,
}

module _ {C : Type 0} where
  unfoldable pub create_agent : AgentRecord → Store C → Option (Store C)
  unfolding insert_row
  create_agent a s =
      if s.available
      then (elim (insert_row a.name a s.agents) [
        | none ↦ none
        | some t ↦ some (record s { agents = t })
      ])
      else none

  unfoldable pub get_agent : String → Store C → Option (AgentRecord)
  get_agent key s = if s.available then lookup key s.agents else none

  unfoldable pub list_agents : Store C → Option (List (AgentRecord))
  unfolding rows newest_first
  list_agents s = if s.available then some (rows s.agents) else none

  unfoldable pub update_agent : AgentRecord → Store C → Option (Store C)
  unfolding update_row
  update_agent a s =
      if s.available
      then some (record s { agents = update_row a.name (λ old. a) s.agents })
      else none

  unfoldable pub delete_agent : String → Store C → Option (Store C)
  unfolding delete_known
  delete_agent name s =
      if s.available
      then (elim (delete_known name s.agents) [
        | none ↦ none
        | some t ↦ some (record s { agents = t })
      ])
      else none

  unfoldable pub create_task : TaskRecord C → Store C → Option (Store C)
  unfolding insert_row
  create_task task s =
      if s.available
      then (elim (insert_row task.task_id task s.tasks) [
        | none ↦ none
        | some t ↦ some (record s { tasks = t })
      ])
      else none

  unfoldable pub get_task : String → Store C → Option (TaskRecord C)
  get_task key s = if s.available then lookup key s.tasks else none

  unfoldable pub list_tasks : Store C → Option (List (TaskRecord C))
  unfolding rows newest_first
  list_tasks s = if s.available then some (newest_first [] (rows s.tasks)) else none

  unfoldable pub list_tasks_by_agent : String → Store C → Option (List (TaskRecord C))
  unfolding rows newest_first
  list_tasks_by_agent agent s =
      if s.available
      then some (newest_first [] (keep (λ t. str_eq t.agent_name agent) (rows s.tasks)))
      else none

  -- The agent and the message of a task are not written again.
  abbrev pub updated_task : TaskRecord C → TaskRecord C → TaskRecord C
  updated_task task old = record task { agent_name = old.agent_name; message = old.message }

  unfoldable pub update_task : TaskRecord C → Store C → Option (Store C)
  unfolding update_row
  update_task task s =
      if s.available
      then some (record s { tasks = update_row task.task_id (updated_task task) s.tasks })
      else none
