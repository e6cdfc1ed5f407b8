-- ===== src/Workflow/Execution/Results.antt =====
-- What `Execute` returns, for every play of the layers.
use opc_platform.Prelude.{
  ◌≤◌, String, Bool, true, false, ◌≡◌, refl, Option, none, some, List, [], ◌∷◌, arith, Map, lookup,
  count, has, has-count, Option-cases, inl, inr, MapOrder,
}
use opc_platform.Dag.{done}
use opc_platform.Dag.Degrees.{names}
use opc_platform.Dag.Layers.Order.{build_layers-IsLayered}
use opc_platform.Dag.Validate.{DagError}
use opc_platform.Dag.Validate.Verdict.{validate-build_layers}
use opc_platform.Workflow.{
  WorkflowStep, WorkflowSpec, WorkflowStatus, step_node, step_problem, validate_dag, build_dag,
}
use opc_platform.Workflow.Steps.{ReplaceAll, StepRun, StepStatus}
use opc_platform.Workflow.Layers.{LayerError, Play}
use opc_platform.Workflow.Layers.Settled.{tells, is_completed, is_failed, is_busy}
use opc_platform.Workflow.Execution.{
  WorkflowRun, ExecuteError, invalid_dag, layer_failed, Executed, rejected, ran, pending_steps,
  skip_pending, execute_layers, close_run, run_layers, execute,
}
use opc_platform.Workflow.Execution.Rounds.{
  all_names, count-placed_all, pending_steps_idle, LayersEnd, execute_layers-LayersEnd,
}

-- A step that has not come to an end.
abbrev pub is_open : StepStatus → Bool
is_open StepStatus.pending = true
is_open StepStatus.running = true
is_open _ = false

tells-skip_pending :
    (n : String) (steps : Map StepRun)
    → (tells is_failed n (skip_pending steps) ≡ tells is_failed n steps)
      × (tells is_busy n steps ≡ false → tells is_open n (skip_pending steps) ≡ false)
unfolding skip_pending lookup
tells-skip_pending n [] = (refl, λ h. refl)
tells-skip_pending n ((k, sr) ∷ steps) =
    let rest = tells-skip_pending n steps in (ground (arith, rest.0), ground (arith, rest.1))

module _ (id : String) (spec : WorkflowSpec) {layers : List (List WorkflowStep)} where
  close_failed :
      (run : WorkflowRun) (failure : ExecuteError) (result : Map StepRun × Option LayerError)
      → LayersEnd (pending_steps [] spec.steps) layers result
      → ran run (some failure) ≡ close_run id spec.metadata_name result
      → (run.status ≡ WorkflowStatus.failed)
        × ((e : LayerError) × (failure ≡ layer_failed e)
            × (tells is_failed e.step run.steps ≡ true))
        × ((n : String) → tells is_open n run.steps ≡ false)
  unfolding close_run
  close_failed run failure (steps, none) end closed = absurd (ground arith)
  close_failed run failure (steps, some e) end closed = (
    ground arith,
    (e, ground arith, ground (arith, (tells-skip_pending e.step steps).0, end.blamed e refl)),
    λ n. ground (arith, (tells-skip_pending n steps).1, end.idle n),
  )

module _ (replace_all : ReplaceAll) (order : MapOrder) (id : String) (spec : WorkflowSpec)
    (plays : List Play) where
  -- How a run comes about.
  record Ran (r : Executed) : Type 0 where
    layers : List (List WorkflowStep)
    built : build_dag order spec.steps ≡ done layers
    result : Map StepRun × Option LayerError
    end : LayersEnd (pending_steps [] spec.steps) layers result
    closed : r ≡ close_run id spec.metadata_name result

  distinct_layers :
      (layers : List (List WorkflowStep))
      → build_dag order spec.steps ≡ done layers
      → (n : String)
      → (count n (all_names layers) ≤ 1) × (has n (all_names layers) ≡ has n (names spec.steps))
  unfolding count
  distinct_layers layers built n =
      let once = (build_layers-IsLayered spec.steps order layers built).1 n in
      (
        ground (arith, once, count-placed_all spec.steps layers [] n),
        ground
            (arith, once, count-placed_all spec.steps layers [] n, has-count n (all_names layers)),
      )

  run_layers-Ran :
      (layers : List (List WorkflowStep)) (r : Executed)
      → build_dag order spec.steps ≡ done layers
      → run_layers replace_all id spec layers plays ≡ some r
      → Ran r
  unfolding run_layers lookup
  run_layers-Ran layers r built e =
      elim (Option-cases
        (execute_layers replace_all (pending_steps [] spec.steps) [] layers plays)) [
          | inl missing ↦ absurd (ground (arith, missing))
          | inr (result, played) ↦ record {
            layers = layers;
            built = built;
            result = result;
            end =
                execute_layers-LayersEnd replace_all layers plays _ [] result played
                  (λ n. (distinct_layers layers built n).0)
                  (λ n. pending_steps_idle spec.steps [] n refl);
            closed = ground (arith, played);
          }
        ]

  execute-Ran :
      (run : WorkflowRun) (failure : Option ExecuteError)
      → execute replace_all order id spec plays ≡ some (ran run failure)
      → Ran (ran run failure)
  unfolding execute
  execute-Ran run failure e = elim (Option-cases (validate_dag order spec.steps)) [
    | inr (bad, invalid) ↦ absurd (ground (arith, invalid))
    | inl valid ↦
        let (layers, built) = validate-build_layers step_problem spec.steps order valid in
        run_layers-Ran layers (ran run failure) built (ground (arith, valid, built))
  ]

  -- A run that comes back without an error has the status Completed, and every step of the workflow
  -- is Completed in it.
  pub execute_completes :
      (run : WorkflowRun)
      → execute replace_all order id spec plays ≡ some (ran run none)
      → (run.status ≡ WorkflowStatus.completed)
        × ((n : String) → has n (names spec.steps) ≡ true → tells is_completed n run.steps ≡ true)
  unfolding close_run
  execute_completes run e =
      let r = execute-Ran run none e in
      (
        ground (arith, r.closed),
        λ n here. ground (
          arith,
          r.closed,
          r.end.completes (ground (arith, r.closed)) n,
          (distinct_layers r.layers r.built n).1,
        ),
      )

  -- A run that comes back with an error has the status Failed; the error names a step that has
  -- failed in it, and no step is left Pending or Running.
  pub execute_fails :
      (run : WorkflowRun) (failure : ExecuteError)
      → execute replace_all order id spec plays ≡ some (ran run (some failure))
      → (run.status ≡ WorkflowStatus.failed)
        × ((e : LayerError) × (failure ≡ layer_failed e)
            × (tells is_failed e.step run.steps ≡ true))
        × ((n : String) → tells is_open n run.steps ≡ false)
  unfolding close_run
  execute_fails run failure e =
      let r = execute-Ran run (some failure) e in
      close_failed id spec run failure r.result r.end r.closed

  -- Nothing but the tests of `validateDAG` rejects a workflow: its layers can then be built.
  pub execute_rejects :
      (failure : ExecuteError)
      → execute replace_all order id spec plays ≡ some (rejected failure)
      → (bad : DagError) × (validate_dag order spec.steps ≡ some bad) × (failure ≡ invalid_dag bad)
  unfolding execute run_layers close_run
  execute_rejects failure e = elim (Option-cases (validate_dag order spec.steps)) [
    | inr (bad, invalid) ↦ (bad, invalid, ground (arith, invalid))
    | inl valid ↦
        let (layers, built) = validate-build_layers step_problem spec.steps order valid in
        absurd
          (elim (Option-cases
            (execute_layers replace_all (pending_steps [] spec.steps) [] layers plays)) [
              | inl missing ↦ ground (arith, valid, built, missing)
              | inr ((steps, none), played) ↦ ground (arith, valid, built, played)
              | inr ((steps, some x), played) ↦ ground (arith, valid, built, played)
            ])
  ]
