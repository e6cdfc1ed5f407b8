-- ===== src/Workflow/Layers.antt =====
-- `executeLayer`: one step is run directly, several are goroutines. A goroutine takes a snapshot of
-- the outputs, runs its step, and records the result; the runtime chooses how these turns interleave.
pub mod Settled
pub mod Interleavings
use opc_platform.Prelude.{
  String, Bool, Option, none, some, List, [], ◌∷◌, if◌then◌else◌, str_eq, Map, insert, length, ◌==◌,
}
use opc_platform.Workflow.{WorkflowStep}
use opc_platform.Workflow.Steps.{ReplaceAll, Answer, StepRun, StepError, execute_step}

-- `fmt.Errorf("step %q failed: %w", …)`
pub record LayerError : Type 0 where
  pub step : String
  pub cause : StepError

-- `run.Steps`, `outputs`, `firstErr`, the goroutines that have not started, and those that have,
-- with their snapshots.
pub record LayerState : Type 0 where
  pub steps : Map StepRun
  pub outputs : Map String
  pub first_err : Option LayerError
  pub waiting : List WorkflowStep
  pub flying : List (WorkflowStep × Map String)

pub data Turn : Type 0 where
  begin : (step : String) → Turn
  finish : (step : String) → Answer → Turn

-- The first step of a name, and the others.
unfoldable pub pick : String → List WorkflowStep → Option (WorkflowStep × List WorkflowStep)
pick n [] = none
pick n (s ∷ ss) =
    let rest : Option (WorkflowStep × List WorkflowStep) = elim (pick n ss) [
      | none ↦ none
      | some (t, ts) ↦ some (t, s ∷ ts)
    ] in
    if str_eq s.name n then some (s, ss) else rest

abbrev pub Flying : Type 0
Flying = List (WorkflowStep × Map String)

unfoldable pub pick_flying : String → Flying → Option ((WorkflowStep × Map String) × Flying)
pick_flying n [] = none
pick_flying n ((s, snapshot) ∷ ss) =
    let rest : Option ((WorkflowStep × Map String) × Flying) = elim (pick_flying n ss) [
      | none ↦ none
      | some (t, ts) ↦ some (t, (s, snapshot) ∷ ts)
    ] in
    if str_eq s.name n then some ((s, snapshot), ss) else rest

-- The critical section after `executeStep`.
unfoldable pub commit : WorkflowStep → StepRun × Option StepError → LayerState → LayerState
commit s (sr, failure) st =
    let st' = record st { steps = insert s.name sr st.steps } in
    elim failure [
      | some e ↦ elim st.first_err [
        | none ↦ record st' { first_err = some (record { step = s.name; cause = e }) }
        | some old ↦ st'
      ]
      | none ↦ record st' { outputs = insert s.name sr.output st.outputs }
    ]

-- `wg.Wait()`: every goroutine has started and ended.
unfoldable pub wait : LayerState → Option LayerState
wait st = elim st.waiting [ s ∷ ss ↦ none | [] ↦ elim st.flying [ f ∷ fs ↦ none | [] ↦ some st ] ]

-- How a layer is played: by the one answer to its one step, or by turns.
pub data Play : Type 0 where
  single : Answer → Play
  concurrent : List Turn → Play

abbrev pub fresh_layer : Map StepRun → Map String → List WorkflowStep → LayerState
fresh_layer steps outputs layer = record {
  steps = steps;
  outputs = outputs;
  first_err = none;
  waiting = layer;
  flying = [];
}

module _ (replace_all : ReplaceAll) where
  -- `none` where no such goroutine can take the turn.
  unfoldable pub turn : LayerState → Turn → Option LayerState
  turn st (begin n) = elim (pick n st.waiting) [
    | none ↦ none
    | some (s, rest) ↦ some (record st { waiting = rest; flying = (s, st.outputs) ∷ st.flying })
  ]
  turn st (finish n answer) = elim (pick_flying n st.flying) [
    | none ↦ none
    | some ((s, snapshot), rest) ↦
        some (commit s (execute_step replace_all s snapshot answer) (record st { flying = rest }))
  ]

  unfoldable pub turns : LayerState → List Turn → Option LayerState
  turns st [] = some st
  turns st (t ∷ ts) = elim (turn st t) [ none ↦ none | some st' ↦ turns st' ts ]

  -- The branch of one step: the run is recorded, an error is returned before the output is.
  unfoldable pub execute_single : Map StepRun → Map String → WorkflowStep → Answer → LayerState
  execute_single steps outputs s answer =
      let (sr, failure) = execute_step replace_all s outputs answer in
      let recorded : LayerState = record {
        steps = insert s.name sr steps;
        outputs = outputs;
        first_err = none;
        waiting = [];
        flying = [];
      } in
      elim failure [
        | some e ↦ record recorded { first_err = some (record { step = s.name; cause = e }) }
        | none ↦ record recorded { outputs = insert s.name sr.output outputs }
      ]

  unfoldable pub execute_concurrent :
      Map StepRun → Map String → List WorkflowStep → List Turn → Option LayerState
  execute_concurrent steps outputs layer ts = elim (turns (fresh_layer steps outputs layer) ts) [
    | none ↦ none
    | some st ↦ wait st
  ]

  -- `none` where the play is not one of this layer.
  unfoldable pub execute_layer :
      Map StepRun → Map String → List WorkflowStep → Play → Option LayerState
  execute_layer steps outputs (s ∷ []) (single answer) =
      some (execute_single steps outputs s answer)
  execute_layer steps outputs (s ∷ []) (concurrent ts) = none
  execute_layer steps outputs layer (single answer) = none
  execute_layer steps outputs layer (concurrent ts) = execute_concurrent steps outputs layer ts
