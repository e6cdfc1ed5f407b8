-- ===== src/Workflow/Layers/Interleavings.antt =====
-- The plays of a layer of `executeLayer`, and the invariant of Settled.
use mathlib.Core.Path.{subst, sym}
use opc_platform.Prelude.{
  ◌+◌, ◌≤◌, String, false, ◌≡◌, refl, some, List, [], ◌∷◌, arith, eq_refl, hit, Map, count,
  has-count, Option-cases, inl, inr,
}
use opc_platform.Dag.Degrees.{names}
use opc_platform.Workflow.{WorkflowStep, step_node}
use opc_platform.Workflow.Steps.{ReplaceAll, Answer, StepRun, execute_step}
use opc_platform.Workflow.Layers.{
  LayerState, Turn, begin, finish, pick, pick_flying, commit, turn, turns, wait, Play, single,
  concurrent, fresh_layer, execute_single, execute_concurrent, execute_layer,
}
use opc_platform.Workflow.Layers.Settled.{
  unended, tells, is_busy, pick-count, pick_flying-count, execute_step-Ended, LayerInv,
  commit-LayerInv,
}

module _ (replace_all : ReplaceAll) (steps : Map StepRun) (outputs : Map String) where
  begin-LayerInv :
      (layer : List String) (st : LayerState) (s : WorkflowStep) (rest : List WorkflowStep)
      → ((x : String) → count x (names st.waiting) ≡ hit s.name x + count x (names rest))
      → LayerInv layer steps outputs st
      → LayerInv layer steps outputs
          (record st { waiting = rest; flying = (s, st.outputs) ∷ st.flying })
  unfolding count
  begin-LayerInv layer st s rest taken inv = record {
    ended = λ n in_layer gone. ground (arith, taken n, inv.ended n in_layer);
    others = λ n out. ground (arith, taken n, inv.others n out);
    kept = inv.kept;
    blamed = λ e h. ground (arith, taken e.step, inv.blamed e h);
    once = λ n. ground (arith, taken n, inv.once n);
    idle = inv.idle;
  }

  turn-LayerInv :
      (layer : List String) (st st' : LayerState) (t : Turn)
      → turn replace_all st t ≡ some st'
      → LayerInv layer steps outputs st
      → LayerInv layer steps outputs st'
  unfolding turn
  turn-LayerInv layer st st' (begin n) e inv = elim (Option-cases (pick n st.waiting)) [
    | inl missing ↦ absurd (ground (arith, missing))
    | inr ((s, rest), found) ↦
        subst (LayerInv layer steps outputs) (ground (arith, found))
          (begin-LayerInv layer st s rest (λ x. pick-count n x st.waiting s rest found) inv)
  ]
  turn-LayerInv layer st st' (finish n answer) e inv =
      elim (Option-cases (pick_flying n st.flying)) [
        | inl missing ↦ absurd (ground (arith, missing))
        | inr (((s, snapshot), rest), found) ↦
            subst (LayerInv layer steps outputs) (ground (arith, found)) (
              commit-LayerInv layer steps outputs st rest s
                (execute_step replace_all s snapshot answer)
                (execute_step-Ended replace_all s snapshot answer)
                (λ x. pick_flying-count n x st.flying s snapshot rest found) inv)
      ]

  turns-LayerInv :
      (layer : List String) (ts : List Turn) (st st' : LayerState)
      → turns replace_all st ts ≡ some st'
      → LayerInv layer steps outputs st
      → LayerInv layer steps outputs st'
  unfolding turns
  turns-LayerInv layer [] st st' e inv = subst (LayerInv layer steps outputs) (ground arith) inv
  turns-LayerInv layer (t ∷ ts) st st' e inv = elim (Option-cases (turn replace_all st t)) [
    | inl missing ↦ absurd (ground (arith, missing))
    | inr (mid, found) ↦
        turns-LayerInv layer ts mid st' (ground (arith, found))
          (turn-LayerInv layer st mid t found inv)
  ]

  -- The layer's names are distinct, and no step run is Running or Skipped before it.
  pub record Ready (layer : List WorkflowStep) : Type 0 where
    pub distinct : (n : String) → count n (names layer) ≤ 1
    pub not_busy : (n : String) → tells is_busy n steps ≡ false

  start-LayerInv :
      (layer : List WorkflowStep)
      → Ready layer
      → LayerInv (names layer) steps outputs (fresh_layer steps outputs layer)
  unfolding count
  start-LayerInv layer ready = record {
    ended = λ n in_layer gone. ground (arith, has-count n (names layer));
    others = λ n out. (ground (arith, has-count n (names layer)), refl);
    kept = λ n h. h;
    blamed = λ e h. absurd (ground arith);
    once = λ n. ground (arith, ready.distinct n);
    idle = ready.not_busy;
  }

  wait-ended :
      (st st' : LayerState) → wait st ≡ some st' → (st ≡ st') × ((n : String) → unended n st' ≡ 0)
  unfolding wait count names
  wait-ended st st' e = (ground arith, λ n. ground arith)

  -- A layer that has been played to its end.
  pub record LayerEnd (layer : List WorkflowStep) (st : LayerState) : Type 0 where
    pub inv : LayerInv (names layer) steps outputs st
    pub over : (n : String) → unended n st ≡ 0

  concurrent-LayerEnd :
      (layer : List WorkflowStep) (ts : List Turn) (st : LayerState)
      → execute_concurrent replace_all steps outputs layer ts ≡ some st
      → Ready layer
      → LayerEnd layer st
  unfolding execute_concurrent
  concurrent-LayerEnd layer ts st e ready =
      elim (Option-cases (turns replace_all (fresh_layer steps outputs layer) ts)) [
        | inl missing ↦ absurd (ground (arith, missing))
        | inr (last, found) ↦
            let (same, over) = wait-ended last st (ground (arith, found)) in
            record {
              inv =
                  subst (LayerInv (names layer) steps outputs) same
                    (turns-LayerInv (names layer) ts _ last found (start-LayerInv layer ready));
              over = over;
            }
      ]

  -- The branch of one step does what the critical section of a goroutine does.
  single-commit :
      (s : WorkflowStep) (answer : Answer)
      → execute_single replace_all steps outputs s answer
        ≡ commit s (execute_step replace_all s outputs answer) (fresh_layer steps outputs [])
  unfolding execute_single commit
  single-commit s answer = elim (Option-cases (execute_step replace_all s outputs answer).1) [
    | inl done ↦ ground (arith, done)
    | inr (e, failed) ↦ ground (arith, failed)
  ]

  single-LayerEnd :
      (s : WorkflowStep) (answer : Answer)
      → Ready (s ∷ [])
      → LayerEnd (s ∷ []) (execute_single replace_all steps outputs s answer)
  unfolding commit count names
  single-LayerEnd s answer ready =
      subst (LayerEnd (s ∷ [])) (sym (single-commit s answer)) (record {
        inv =
            commit-LayerInv (names (s ∷ [])) steps outputs
              (record (fresh_layer steps outputs []) { flying = (s, outputs) ∷ [] }) [] s
              (execute_step replace_all s outputs answer)
              (execute_step-Ended replace_all s outputs answer) (λ x. refl)
              (begin-LayerInv (names (s ∷ [])) (fresh_layer steps outputs (s ∷ [])) s [] (λ x. refl)
                (start-LayerInv (s ∷ []) ready));
        over = λ n. ground arith;
      })

  pub execute_layer-LayerEnd :
      (layer : List WorkflowStep) (play : Play) (st : LayerState)
      → execute_layer replace_all steps outputs layer play ≡ some st
      → Ready layer
      → LayerEnd layer st
  unfolding execute_layer
  execute_layer-LayerEnd [] (single answer) st e ready = absurd (ground arith)
  execute_layer-LayerEnd [] (concurrent ts) st e ready = concurrent-LayerEnd [] ts st e ready
  execute_layer-LayerEnd (s ∷ []) (single answer) st e ready =
      subst (LayerEnd (s ∷ [])) (ground arith) (single-LayerEnd s answer ready)
  execute_layer-LayerEnd (s ∷ []) (concurrent ts) st e ready = absurd (ground arith)
  execute_layer-LayerEnd (s ∷ s' ∷ ss) (single answer) st e ready = absurd (ground arith)
  execute_layer-LayerEnd (s ∷ s' ∷ ss) (concurrent ts) st e ready =
      concurrent-LayerEnd (s ∷ s' ∷ ss) ts st e ready

  -- A layer of one step that is run directly ends as it does when its step is run as a goroutine, in
  -- the one order that is possible: with the same step runs, outputs and error.
  pub execute_single-turns :
      (s : WorkflowStep) (answer : Answer)
      → execute_concurrent replace_all steps outputs
          (s ∷ [])
          (begin s.name ∷ finish s.name answer ∷ [])
        ≡ some (execute_single replace_all steps outputs s answer)
  unfolding execute_concurrent turns turn pick pick_flying wait commit
  execute_single-turns s answer = ground (arith, eq_refl s.name, single-commit s answer)
