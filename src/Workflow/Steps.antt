-- ===== src/Workflow/Steps.antt =====
-- Running one step: the message with the earlier outputs put in, the task, and its result.
use Prim.Native.String.{◌++◌}
use opc_platform.Prelude.{
  String, Option, none, some, List, [], ◌∷◌, if◌then◌else◌, str_eq, Map, lookup,
}
use opc_platform.Workflow.{WorkflowStep, WorkflowInput}

-- `strings.Join`.
unfoldable pub join : String → List String → String
join sep [] = ""
join sep (x ∷ []) = x
join sep (x ∷ y ∷ ys) = x ++ (sep ++ join sep (y ∷ ys))

-- `contextVarPattern.ReplaceAllStringFunc`, which is the regular expression library's: the text
-- with each match replaced by what the function gives at the match and at its step name.
abbrev pub ReplaceAll : Type 0
ReplaceAll = (String → String → String) → String → String

module _ (replace_all : ReplaceAll) (outputs : Map String) where
  unfoldable pub substitute_vars : String → String
  substitute_vars s =
      replace_all (λ matched step. elim (lookup step outputs) [ none ↦ matched | some v ↦ v ]) s

  unfoldable pub context_parts : List String → List String
  unfolding substitute_vars
  context_parts [] = []
  context_parts (c ∷ cs) =
      let rest = context_parts cs in
      let resolved = substitute_vars c in if str_eq resolved "" then rest else resolved ∷ rest

  unfoldable pub resolve_context : WorkflowInput → String
  unfolding context_parts join
  resolve_context input = join "\n\n" (substitute_vars input.message ∷ context_parts input.context)

-- The task that a step hands to the store and to the controller; its status is pending.
pub record StepTask : Type 0 where
  pub id : String
  pub agent_name : String
  pub message : String

-- The result of `controller.ExecuteTask`.
pub data Reply : Type 0 where
  answered refused : String → Reply

-- What a step meets outside the engine: the new task's id, and what the store's `CreateTask` and the
-- controller's `ExecuteTask` answer.
pub record Answer : Type 0 where
  pub task_id : String
  pub create_task : StepTask → Option String
  pub execute_task : StepTask → Reply

pub data StepStatus : Type 0 where
  pending running completed failed skipped : StepStatus

pub record StepRun : Type 0 where
  pub name : String
  pub status : StepStatus
  pub task_id : String
  pub output : String
  pub error : String

pub data StepError : Type 0 where
  create_failed : (step message : String) → StepError
  task_failed : (message : String) → StepError

abbrev pub step_run : String → StepStatus → String → String → String → StepRun
step_run name status task_id output error = record {
  name = name;
  status = status;
  task_id = task_id;
  output = output;
  error = error;
}

abbrev pub step_task : ReplaceAll → WorkflowStep → Map String → String → StepTask
unfolding resolve_context
step_task replace_all step outputs task_id = record {
  id = task_id;
  agent_name = step.agent;
  message = resolve_context replace_all outputs step.input;
}

unfoldable pub execute_step :
    ReplaceAll → WorkflowStep → Map String → Answer → StepRun × Option StepError
execute_step replace_all step outputs answer =
    let task = step_task replace_all step outputs answer.task_id in
    elim (answer.create_task task) [
      | some message ↦ (
        step_run step.name failed answer.task_id "" ("create task: " ++ message),
        some (create_failed step.name message),
      )
      | none ↦ elim (answer.execute_task task) [
        | refused message ↦
            (step_run step.name failed answer.task_id "" message, some (task_failed message))
        | answered text ↦ (step_run step.name completed answer.task_id text "", none)
      ]
    ]
