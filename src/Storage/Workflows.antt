-- ===== src/Storage/Workflows.antt =====
-- The workflows and their runs of pkg/storage/sqlite/sqlite.go.
use opc_platform.Prelude.{
  String, Option, none, some, List, [], ◌∷◌, if◌then◌else◌, str_eq, leb, lookup, keep,
}
use opc_platform.Storage.{
  Store, WorkflowRecord, WorkflowRunRecord, insert_row, update_row, delete_known, rows,
  newest_first,
}

abbrev pub updated_run : WorkflowRunRecord → WorkflowRunRecord → WorkflowRunRecord
updated_run run old = record old {
  status = run.status;
  steps_json = run.steps_json;
  ended_at = run.ended_at;
}

-- `ORDER BY started_at DESC`, by insertion.
unfoldable pub by_start : WorkflowRunRecord → List WorkflowRunRecord → List WorkflowRunRecord
by_start run [] = run ∷ []
by_start run (r ∷ runs) =
    let later = by_start run runs in
    if leb r.started_at run.started_at then run ∷ r ∷ runs else r ∷ later

unfoldable pub sorted_runs : List WorkflowRunRecord → List WorkflowRunRecord
sorted_runs [] = []
sorted_runs (r ∷ runs) = by_start r (sorted_runs runs)

module _ {C : Type 0} where
  unfoldable pub create_workflow : WorkflowRecord → Store C → Option (Store C)
  unfolding insert_row
  create_workflow wf s =
      if s.available
      then (elim (insert_row wf.name wf s.workflows) [
        | none ↦ none
        | some t ↦ some (record s { workflows = t })
      ])
      else none

  unfoldable pub get_workflow : String → Store C → Option (WorkflowRecord)
  get_workflow key s = if s.available then lookup key s.workflows else none

  unfoldable pub list_workflows : Store C → Option (List (WorkflowRecord))
  unfolding rows newest_first
  list_workflows s = if s.available then some (rows s.workflows) else none

  unfoldable pub update_workflow : WorkflowRecord → Store C → Option (Store C)
  unfolding update_row
  update_workflow wf s =
      if s.available
      then some (record s { workflows = update_row wf.name (λ old. wf) s.workflows })
      else none

  unfoldable pub delete_workflow : String → Store C → Option (Store C)
  unfolding delete_known
  delete_workflow name s =
      if s.available
      then (elim (delete_known name s.workflows) [
        | none ↦ none
        | some t ↦ some (record s { workflows = t })
      ])
      else none

  unfoldable pub create_workflow_run : WorkflowRunRecord → Store C → Option (Store C)
  unfolding insert_row
  create_workflow_run run s =
      if s.available
      then (elim (insert_row run.run_id run s.workflow_runs) [
        | none ↦ none
        | some t ↦ some (record s { workflow_runs = t })
      ])
      else none

  unfoldable pub get_workflow_run : String → Store C → Option (WorkflowRunRecord)
  get_workflow_run key s = if s.available then lookup key s.workflow_runs else none

  unfoldable pub update_workflow_run : WorkflowRunRecord → Store C → Option (Store C)
  unfolding update_row
  update_workflow_run run s =
      if s.available
      then some
          (record s { workflow_runs = update_row run.run_id (updated_run run) s.workflow_runs })
      else none

  unfoldable pub list_workflow_runs : String → Store C → Option (List WorkflowRunRecord)
  unfolding rows sorted_runs by_start
  list_workflow_runs workflow s =
      if s.available
      then some (sorted_runs (keep (λ r. str_eq r.workflow_name workflow) (rows s.workflow_runs)))
      else none
