-- ===== src/Workflow/Execution/Rounds.antt =====
-- The loop of `Execute` over the layers.
use mathlib.Core.Path.{subst}
use opc_platform.Prelude.{
  ◌+◌, ◌≤◌, String, true, false, ◌≡◌, refl, Option, none, some, List, [], ◌∷◌, ◌++◌, arith, Map,
  lookup, insert, lookup-insert, count, count-append, has, has-append, has-count, Option-cases, inl,
  inr,
}
use opc_platform.Dag.Degrees.{names}
use opc_platform.Dag.Layers.{placed_after}
use opc_platform.Dag.Layers.Rounds.{placed_all}
use opc_platform.Workflow.{WorkflowStep, step_node}
use opc_platform.Workflow.Steps.{ReplaceAll, StepRun, StepStatus, step_run}
use opc_platform.Workflow.Layers.{LayerState, LayerError, Play, execute_layer}
use opc_platform.Workflow.Layers.Settled.{tells, is_completed, is_failed, is_busy}
use opc_platform.Workflow.Layers.Interleavings.{LayerEnd, execute_layer-LayerEnd}
use opc_platform.Workflow.Execution.{pending_steps, execute_layers}

pub all_names : List (List WorkflowStep) → List String
all_names [] = []
all_names (layer ∷ layers) = names layer ++ all_names layers

count-placed_after :
    (steps layer : List WorkflowStep) (placed : List String) (n : String)
    → count n (placed_after steps placed layer) ≡ count n placed + count n (names layer)
unfolding names count
count-placed_after steps [] placed n = omega arith
count-placed_after steps (s ∷ ss) placed n =
    omega (arith, count-placed_after steps ss (s.name ∷ placed) n)

pub count-placed_all :
    (steps : List WorkflowStep) (layers : List (List WorkflowStep)) (placed : List String)
    (n : String)
    → count n (placed_all steps placed layers) ≡ count n placed + count n (all_names layers)
unfolding all_names count
count-placed_all steps [] placed n = omega arith
count-placed_all steps (layer ∷ layers) placed n = omega (
  arith,
  count-placed_all steps layers (placed_after steps placed layer) n,
  count-placed_after steps layer placed n,
  count-append n (names layer) (all_names layers),
)

pub pending_steps_idle :
    (ss : List WorkflowStep) (steps : Map StepRun) (n : String)
    → tells is_busy n steps ≡ false
    → tells is_busy n (pending_steps steps ss) ≡ false
unfolding pending_steps
pending_steps_idle [] steps n h = h
pending_steps_idle (s ∷ ss) steps n h =
    let fresh = step_run s.name StepStatus.pending "" "" "" in
    pending_steps_idle ss (insert s.name fresh steps) n
      (ground (arith, h, lookup-insert s.name n fresh steps))

-- The end of the loop over the layers, from some step runs.
pub record LayersEnd (steps : Map StepRun) (layers : List (List WorkflowStep))
    (result : Map StepRun × Option LayerError) : Type 0 where
  pub completes :
      result.1 ≡ none
      → (n : String) → has n (all_names layers) ≡ true
      → tells is_completed n result.0 ≡ true
  pub others : (n : String) → has n (all_names layers) ≡ false → lookup n result.0 ≡ lookup n steps
  pub blamed : (e : LayerError) → result.1 ≡ some e → tells is_failed e.step result.0 ≡ true
  pub idle : (n : String) → tells is_busy n result.0 ≡ false

no_layers-LayersEnd :
    (steps : Map StepRun)
    → ((n : String) → tells is_busy n steps ≡ false)
    → LayersEnd steps [] (steps, none)
unfolding all_names has
no_layers-LayersEnd steps quiet = record {
  completes = λ h n here. absurd (ground arith);
  others = λ n out. refl;
  blamed = λ e h. absurd (ground arith);
  idle = quiet;
}

module _ (replace_all : ReplaceAll) where
  stop-LayersEnd :
      (steps : Map StepRun) (outputs : Map String) (layer : List WorkflowStep)
      (layers : List (List WorkflowStep)) (st : LayerState) (e : LayerError)
      → LayerEnd replace_all steps outputs layer st
      → st.first_err ≡ some e
      → LayersEnd steps (layer ∷ layers) (st.steps, some e)
  unfolding all_names
  stop-LayersEnd steps outputs layer layers st e end fails = record {
    completes = λ h. absurd (ground arith);
    others = λ n out.
        (end.inv.others n (ground (arith, has-append n (names layer) (all_names layers)))).1;
    blamed = λ e' h. (end.inv.blamed e' (ground arith)).1;
    idle = end.inv.idle;
  }

  on-LayersEnd :
      (steps : Map StepRun) (outputs : Map String) (layer : List WorkflowStep)
      (layers : List (List WorkflowStep)) (st : LayerState)
      (result : Map StepRun × Option LayerError)
      → ((n : String) → count n (all_names (layer ∷ layers)) ≤ 1)
      → LayerEnd replace_all steps outputs layer st
      → st.first_err ≡ none
      → LayersEnd st.steps layers result
      → LayersEnd steps (layer ∷ layers) result
  unfolding all_names
  on-LayersEnd steps outputs layer layers st result distinct end passes rest = record {
    completes = λ h n here. ground (
      arith,
      rest.completes h n,
      rest.others n,
      end.inv.ended n,
      end.over n,
      distinct n,
      has-append n (names layer) (all_names layers),
      count-append n (names layer) (all_names layers),
      has-count n (names layer),
      has-count n (all_names layers),
    );
    others = λ n out.
        ground
          (arith, rest.others n, end.inv.others n, has-append n (names layer) (all_names layers));
    blamed = rest.blamed;
    idle = rest.idle;
  }

  pub execute_layers-LayersEnd :
      (layers : List (List WorkflowStep)) (plays : List Play) (steps : Map StepRun)
      (outputs : Map String) (result : Map StepRun × Option LayerError)
      → execute_layers replace_all steps outputs layers plays ≡ some result
      → ((n : String) → count n (all_names layers) ≤ 1)
      → ((n : String) → tells is_busy n steps ≡ false)
      → LayersEnd steps layers result
  unfolding execute_layers all_names has
  execute_layers-LayersEnd [] plays steps outputs result e distinct quiet =
      subst (LayersEnd steps []) (ground arith) (no_layers-LayersEnd steps quiet)
  execute_layers-LayersEnd (layer ∷ layers) [] steps outputs result e distinct quiet =
      absurd (ground arith)
  execute_layers-LayersEnd (layer ∷ layers) (play ∷ plays) steps outputs result e distinct quiet =
      elim (Option-cases (execute_layer replace_all steps outputs layer play)) [
        | inl missing ↦ absurd (ground (arith, missing))
        | inr (st, played) ↦
            let end =
              execute_layer-LayerEnd replace_all steps outputs layer play st played
                (record { distinct = distinct_here; not_busy = quiet }) in
            elim (Option-cases st.first_err) [
              | inr (err, fails) ↦
                  subst (LayersEnd steps (layer ∷ layers)) (ground (arith, played, fails))
                    (stop-LayersEnd steps outputs layer layers st err end fails)
              | inl passes ↦ on-LayersEnd steps outputs layer layers st result distinct end passes (
                  execute_layers-LayersEnd layers plays st.steps st.outputs result
                    (ground (arith, played, passes)) distinct_later end.inv.idle)
            ]
      ]
    where
      distinct_here : (n : String) → count n (names layer) ≤ 1
      distinct_here n = omega (arith, distinct n, count-append n (names layer) (all_names layers))

      distinct_later : (n : String) → count n (all_names layers) ≤ 1
      distinct_later n = omega (arith, distinct n, count-append n (names layer) (all_names layers))
