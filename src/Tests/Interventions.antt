-- ===== src/Tests/Interventions.antt =====
-- A task behind an approval gate.
use opc_platform.Prelude.{
  ℕ, ◌+◌, ◌≤◌, ◌≡◌, refl, String, false, none, some, List, [], ◌∷◌, if◌then◌else◌, lookup,
  lookup_or, insert, delete,
}
use opc_platform.Federation.Interventions.{
  Intervention, new_registry, intervene, handle, set_approval_gate, decide, approve_task,
  reject_task, no_gate,
}
use opc_platform.Federation.Interventions.Gates.{
  Call, sets_gate, approves, rejects, call, run_calls, run_calls-decisions,
  approve_task-reject_task,
}

interventions : Unit {0}
unfolding lookup insert delete new_registry intervene handle set_approval_gate decide approve_task
    reject_task call run_calls
interventions = tt

-- The approval counts, the rejection after it does not.
abbrev four_calls : List (String × ℕ × Call)
four_calls =
    ("1", 1, sets_gate "t")
    ∷ ("2", 2, approves "t" "ann")
    ∷ ("3", 3, rejects "t" "bob" "late")
    ∷ ("4", 4, sets_gate "t")
    ∷ []

one_decision : (run_calls "t" four_calls new_registry).2 ≡ 1
unfolding interventions
one_decision = refl

run_calls-decisions_example :
    let ran = run_calls "t" four_calls new_registry in
    ran.2 + (if lookup_or "t" ran.0.approval_gates false then 1 else 0) ≤ ran.1
run_calls-decisions_example = run_calls-decisions "t" four_calls

approve_task-reject_task_example :
    let gated = set_approval_gate "t" new_registry in
    let approved = approve_task "1" 5 "t" "ann" gated.0 in
    (gated.1 ≡ none)
    × (approved.1 ≡ none)
    × ((i : Intervention) × (lookup "t" approved.0.task_approvals ≡ some i)
        × (i.action ≡ "approve")
        × (i.actor_id ≡ "ann"))
    × (reject_task "2" 6 "t" "bob" "late" approved.0 ≡ (approved.0, some no_gate))
approve_task-reject_task_example =
    approve_task-reject_task "t" "1" "ann" "2" "bob" "late" 5 6 new_registry refl
