-- ===== src/Federation/Interventions/Gates.antt =====
-- Approval gates, and the decisions on the tasks behind them.
use opc_platform.Prelude.{
  ℕ, ◌+◌, ◌≤◌, String, Bool, true, false, ◌≡◌, refl, Option, none, some, List, [], ◌∷◌,
  if◌then◌else◌, arith, str_eq, eq_iff, eq_refl, lookup, lookup_or, insert, lookup-insert,
  lookup-delete,
}
use opc_platform.Federation.Interventions.{
  Intervention, no_gate, InterventionRegistry, InterventionError, InterventionRequest, new_registry,
  handle, intervene, set_approval_gate, approve_task, reject_task, decide,
}

-- The calls, each with the identifier and the time that it is given.
pub data Call : Type 0 where
  asks : InterventionRequest → Call
  sets_gate : String → Call
  approves : String → String → Call
  rejects : String → String → String → Call

abbrev pub succeeded : Option InterventionError → Bool
succeeded none = true
succeeded (some e) = false

unfoldable pub call : String → ℕ → Call → InterventionRegistry → InterventionRegistry × Bool
unfolding handle set_approval_gate approve_task reject_task
call new_id now (asks req) r = ((handle new_id now req r).0, true)
call new_id now (sets_gate task) r =
    let done = set_approval_gate task r in (done.0, succeeded done.1)
call new_id now (approves task approver) r =
    let done = approve_task new_id now task approver r in (done.0, succeeded done.1)
call new_id now (rejects task approver reason) r =
    let done = reject_task new_id now task approver reason r in (done.0, succeeded done.1)

-- How often a call of the task's gate, or a decision on the task, has succeeded.
abbrev pub gates_of : String → Call → Bool → ℕ
gates_of task (asks req) ok = 0
gates_of task (sets_gate t) ok = if str_eq t task then (if ok then 1 else 0) else 0
gates_of task (approves t a) ok = 0
gates_of task (rejects t a why) ok = 0

abbrev pub decisions_of : String → Call → Bool → ℕ
decisions_of task (asks req) ok = 0
decisions_of task (sets_gate t) ok = 0
decisions_of task (approves t a) ok = if str_eq t task then (if ok then 1 else 0) else 0
decisions_of task (rejects t a why) ok = if str_eq t task then (if ok then 1 else 0) else 0

-- A sequence of calls: the registry, the gates set for the task and the decisions on it.
unfoldable pub run_calls :
    String → List (String × ℕ × Call) → InterventionRegistry → InterventionRegistry × ℕ × ℕ
unfolding call
run_calls task [] r = (r, 0, 0)
run_calls task ((new_id, now, c) ∷ calls) r =
    let (r', ok) = call new_id now c r in
    let (last, gates, decisions) = run_calls task calls r' in
    (last, gates_of task c ok + gates, decisions_of task c ok + decisions)

abbrev open_gate : String → InterventionRegistry → ℕ
open_gate task r = if lookup_or task r.approval_gates false then 1 else 0

call-open_gate :
    (task new_id : String) (now : ℕ) (c : Call) (r : InterventionRegistry)
    → let done = call new_id now c r in
      decisions_of task c done.1 + open_gate task done.0 ≤ open_gate task r + gates_of task c done.1
unfolding call handle intervene set_approval_gate approve_task reject_task decide
call-open_gate task new_id now (asks req) r = ground arith
call-open_gate task new_id now (sets_gate t) r =
    ground (arith, lookup-insert t task true r.approval_gates)
call-open_gate task new_id now (approves t a) r =
    ground (arith, lookup-delete t task r.approval_gates, eq_iff t task)
call-open_gate task new_id now (rejects t a why) r =
    ground (arith, lookup-delete t task r.approval_gates, eq_iff t task)

run_calls-open_gate :
    (task : String) (calls : List (String × ℕ × Call)) (r : InterventionRegistry)
    → let ran = run_calls task calls r in ran.2 + open_gate task ran.0 ≤ open_gate task r + ran.1
unfolding run_calls
run_calls-open_gate task [] r = omega arith
run_calls-open_gate task ((new_id, now, c) ∷ calls) r = omega (
  arith,
  call-open_gate task new_id now c r,
  run_calls-open_gate task calls (call new_id now c r).0,
)

-- In any sequence of calls on a new registry, a task is decided at most as often as its gate is set,
-- and less often while its gate is open: a gate admits one decision, and none comes without a gate.
pub run_calls-decisions :
    (task : String) (calls : List (String × ℕ × Call))
    → let ran = run_calls task calls new_registry in
      ran.2 + (if lookup_or task ran.0.approval_gates false then 1 else 0) ≤ ran.1
unfolding new_registry lookup
run_calls-decisions task calls = omega (arith, run_calls-open_gate task calls new_registry)

-- A task whose gate is set can be approved; the approval is then on record, with its approver, and a
-- rejection that comes later fails and changes nothing.
pub approve_task-reject_task :
    (task new_id approver later_id rejecter reason : String) (now later : ℕ)
    (r : InterventionRegistry)
    → str_eq task "" ≡ false
    → let gated = set_approval_gate task r in
      let approved = approve_task new_id now task approver gated.0 in
      (gated.1 ≡ none)
      × (approved.1 ≡ none)
      × ((i : Intervention) × (lookup task approved.0.task_approvals ≡ some i)
          × (i.action ≡ "approve")
          × (i.actor_id ≡ approver))
      × (reject_task later_id later task rejecter reason approved.0 ≡ (approved.0, some no_gate))
unfolding set_approval_gate approve_task reject_task decide
approve_task-reject_task task new_id approver later_id rejecter reason now later r h =
    let gates = insert task true r.approval_gates in
    let approval : Intervention = record {
      intervention_id = new_id;
      issue_id = task;
      action = "approve";
      reason = "";
      actor_id = approver;
      timestamp = now;
    } in
    let gate_read = lookup-insert task task true r.approval_gates in
    (
      ground (arith, h),
      ground (arith, h, gate_read, eq_refl task),
      (
        approval,
        ground
            (arith, h, gate_read, eq_refl task, lookup-insert task task approval r.task_approvals),
        refl,
        refl,
      ),
      ground (arith, h, gate_read, eq_refl task, lookup-delete task task gates),
    )
