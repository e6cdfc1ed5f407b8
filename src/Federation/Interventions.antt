-- ===== src/Federation/Interventions.antt =====
-- pkg/federation/intervention.go: human interventions and approval gates. The registry of the package
-- is a state; a new identifier is an argument, and so is the time.
pub mod Gates
use opc_platform.Prelude.{
  ℕ, String, Bool, true, false, not, ◌||◌, Option, none, some, [], if◌then◌else◌, str_eq, Map,
  lookup, lookup_or, insert, delete,
}
use Prim.Native.String.{◌++◌}

pub record Intervention : Type 0 where
  pub intervention_id : String
  pub issue_id : String
  pub action : String
  pub reason : String
  pub actor_id : String
  pub timestamp : ℕ

pub record InterventionRegistry : Type 0 where
  pub interventions : Map Intervention
  pub approval_gates : Map Bool
  pub task_approvals : Map Intervention

pub data InterventionError : Type 0 where
  empty_issue invalid_action empty_task no_gate : InterventionError

unfoldable pub new_registry : InterventionRegistry
new_registry = record { interventions = []; approval_gates = []; task_approvals = [] }

-- `validActions`
abbrev pub is_valid_action : String → Bool
is_valid_action action =
    str_eq action "approve" || (str_eq action "reject" || str_eq action "modify")

unfoldable pub intervene :
    String
    → ℕ
    → String
    → String
    → String
    → String
    → InterventionRegistry
    → InterventionRegistry × Option InterventionError
intervene new_id now issue action reason actor r =
    if str_eq issue ""
    then (r, some empty_issue)
    else if not (is_valid_action action)
    then (r, some invalid_action)
    else (
      record r {
        interventions =
            insert new_id
              (record {
                intervention_id = new_id;
                issue_id = issue;
                action = action;
                reason = reason;
                actor_id = actor;
                timestamp = now;
              })
              r.interventions;
      },
      none,
    )

pub record InterventionRequest : Type 0 where
  pub request_issue : String
  pub request_action : String
  pub request_reason : String

pub record InterventionResult : Type 0 where
  pub result_issue : String
  pub result_action : String
  pub result_status : String
  pub message : String

pub data Handled : Type 0 where
  handled : InterventionResult → Handled
  not_handled : InterventionError → Handled

unfoldable pub handle :
    String → ℕ → InterventionRequest → InterventionRegistry → InterventionRegistry × Handled
unfolding intervene
handle new_id now req r =
    let (r', error) =
      intervene new_id now req.request_issue req.request_action req.request_reason "operator" r in
    (
      r',
      elim error [
        | some e ↦ not_handled e
        | none ↦ handled (record {
          result_issue = req.request_issue;
          result_action = req.request_action;
          result_status = "applied";
          message =
              "intervention "
              ++ (req.request_action ++ (" applied to issue " ++ req.request_issue));
        })
      ],
    )

unfoldable pub set_approval_gate :
    String → InterventionRegistry → InterventionRegistry × Option InterventionError
set_approval_gate task r =
    if str_eq task ""
    then (r, some empty_task)
    else (record r { approval_gates = insert task true r.approval_gates }, none)

-- What `ApproveTask` and `RejectTask` share: the decision, with its action.
unfoldable pub decide :
    String
    → ℕ
    → String
    → String
    → String
    → String
    → InterventionRegistry
    → InterventionRegistry × Option InterventionError
decide new_id now action task approver reason r =
    if str_eq task ""
    then (r, some empty_task)
    else if not (lookup_or task r.approval_gates false)
    then (r, some no_gate)
    else (
      record r {
        task_approvals =
            insert task
              (record {
                intervention_id = new_id;
                issue_id = task;
                action = action;
                reason = reason;
                actor_id = approver;
                timestamp = now;
              })
              r.task_approvals;
        approval_gates = delete task r.approval_gates;
      },
      none,
    )

unfoldable pub approve_task :
    String
    → ℕ
    → String
    → String
    → InterventionRegistry
    → InterventionRegistry × Option InterventionError
unfolding decide
approve_task new_id now task approver r = decide new_id now "approve" task approver "" r

unfoldable pub reject_task :
    String
    → ℕ
    → String
    → String
    → String
    → InterventionRegistry
    → InterventionRegistry × Option InterventionError
unfolding decide
reject_task new_id now task approver reason r = decide new_id now "reject" task approver reason r
