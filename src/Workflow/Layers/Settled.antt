-- ===== src/Workflow/Layers/Settled.antt =====
-- What a layer leaves behind, for every interleaving of its turns.
use opc_platform.Prelude.{
  ℕ, ◌+◌, ◌≤◌, String, Bool, true, false, ◌&&◌, ◌||◌, ◌≡◌, Option, none, some, List, [], ◌∷◌, map,
  arith, eq_iff, eq_refl, Map, lookup, has_key, lookup-insert, hit, count, has, Option-cases, inl,
  inr,
}
use opc_platform.Dag.Degrees.{names}
use opc_platform.Workflow.{WorkflowStep, step_node}
use opc_platform.Workflow.Steps.{ReplaceAll, Answer, StepRun, StepStatus, StepError, execute_step}
use opc_platform.Workflow.Layers.{LayerError, LayerState, pick, Flying, pick_flying, commit}

abbrev pub is_completed : StepStatus → Bool
is_completed StepStatus.completed = true
is_completed _ = false

abbrev pub is_failed : StepStatus → Bool
is_failed StepStatus.failed = true
is_failed _ = false

-- What a map of step runs says of a name.
abbrev pub tells : (StepStatus → Bool) → String → Map StepRun → Bool
tells p n steps = elim (lookup n steps) [ none ↦ false | some sr ↦ p sr.status ]

-- How often a name stands among the goroutines that have not ended.
abbrev pub flying_names : Flying → List String
flying_names = map (λ f. f.0.name)

abbrev pub unended : String → LayerState → ℕ
unended n st = count n (names st.waiting) + count n (flying_names st.flying)

pub pick-count :
    (n x : String) (ss : List WorkflowStep) (s : WorkflowStep) (rest : List WorkflowStep)
    → pick n ss ≡ some (s, rest)
    → count x (names ss) ≡ hit s.name x + count x (names rest)
unfolding pick names count
pick-count n x [] s rest e = cc
pick-count n x (t ∷ ts) s rest e = elim (Option-cases (pick n ts)) [
  | inl missing ↦ ground (arith, missing)
  | inr ((t', ts'), found) ↦ ground (arith, found, pick-count n x ts t' ts' found)
]

pub pick_flying-count :
    (n x : String) (fs : Flying) (s : WorkflowStep) (snapshot : Map String) (rest : Flying)
    → pick_flying n fs ≡ some ((s, snapshot), rest)
    → count x (flying_names fs) ≡ hit s.name x + count x (flying_names rest)
unfolding pick_flying count
pick_flying-count n x [] s snapshot rest e = cc
pick_flying-count n x ((t, shot) ∷ ts) s snapshot rest e = elim (Option-cases (pick_flying n ts)) [
  | inl missing ↦ ground (arith, missing)
  | inr (((t', shot'), ts'), found) ↦
      ground (arith, found, pick_flying-count n x ts t' shot' ts' found)
]

abbrev pub is_busy : StepStatus → Bool
is_busy StepStatus.running = true
is_busy StepStatus.skipped = true
is_busy _ = false

abbrev pub is_some {ℓ} : {A : Type ℓ} → Option A → Bool
is_some none = false
is_some (some a) = true

-- A step ends as Completed with no error, or as Failed with one.
abbrev pub Ended : StepRun × Option StepError → Type 0
Ended (sr, none) = sr.status ≡ StepStatus.completed
Ended (sr, some e) = sr.status ≡ StepStatus.failed

pub execute_step-Ended :
    (replace_all : ReplaceAll) (s : WorkflowStep) (outputs : Map String) (answer : Answer)
    → Ended (execute_step replace_all s outputs answer)
unfolding execute_step
execute_step-Ended replace_all s outputs answer = ground arith

module _ (layer : List String) (steps : Map StepRun) (outputs : Map String) where
  -- What holds between two turns of a layer, with the step runs and the outputs before it.
  pub record LayerInv (st : LayerState) : Type 0 where
    -- A step that has ended is completed and its output is there, unless some step has failed.
    pub ended :
        (n : String)
        → has n layer ≡ true
        → unended n st ≡ 0
        → (is_some st.first_err || (tells is_completed n st.steps && has_key n st.outputs)) ≡ true
    -- The other steps are as they were.
    pub others :
        (n : String)
        → has n layer ≡ false
        → (unended n st ≡ 0) × (lookup n st.steps ≡ lookup n steps)
    pub kept : (n : String) → has_key n outputs ≡ true → has_key n st.outputs ≡ true
    pub blamed :
        (e : LayerError)
        → st.first_err ≡ some e
        → (unended e.step st ≡ 0) × (tells is_failed e.step st.steps ≡ true)
    pub once : (n : String) → unended n st ≤ 1
    pub idle : (n : String) → tells is_busy n st.steps ≡ false

  -- Recording what a step ended with keeps the invariant, once its goroutine is taken out.
  pub commit-LayerInv :
      (st : LayerState) (flying : Flying) (s : WorkflowStep) (r : StepRun × Option StepError)
      → Ended r
      → ((x : String)
          → count x (flying_names st.flying) ≡ hit s.name x + count x (flying_names flying))
      → LayerInv st
      → LayerInv (commit s r (record st { flying = flying }))
  unfolding commit
  commit-LayerInv st flying s (sr, none) end taken inv = record {
    ended = λ n in_layer gone. ground (
      arith,
      taken n,
      inv.ended n in_layer,
      eq_iff s.name n,
      end,
      lookup-insert s.name n sr st.steps,
      lookup-insert s.name n sr.output st.outputs,
    );
    others = λ n out.
        let old = inv.others n out in
        (
          ground (arith, taken n, old.0),
          ground (
            arith,
            taken n,
            old.0,
            old.1,
            eq_refl s.name,
            eq_iff s.name n,
            lookup-insert s.name n sr st.steps,
          ),
        );
    kept = λ n h. ground (arith, inv.kept n h, lookup-insert s.name n sr.output st.outputs);
    blamed = λ e h.
        let old = inv.blamed e h in
        (
          ground (arith, taken e.step, old.0),
          ground (
            arith,
            taken e.step,
            old.0,
            old.1,
            eq_iff s.name e.step,
            lookup-insert s.name e.step sr st.steps,
          ),
        );
    once = λ n. ground (arith, taken n, inv.once n);
    idle = λ n. ground (arith, inv.idle n, end, lookup-insert s.name n sr st.steps);
  }
  commit-LayerInv st flying s (sr, some e) end taken inv = record {
    ended = λ n in_layer gone. ground (
      arith,
      taken n,
      inv.ended n in_layer,
      eq_iff s.name n,
      end,
      lookup-insert s.name n sr st.steps,
    );
    others = λ n out.
        let old = inv.others n out in
        (
          ground (arith, taken n, old.0),
          ground (
            arith,
            taken n,
            old.0,
            old.1,
            eq_refl s.name,
            eq_iff s.name n,
            lookup-insert s.name n sr st.steps,
          ),
        );
    kept = λ n h. ground (arith, inv.kept n h);
    blamed = λ e' h. (
      ground (
        arith,
        taken e'.step,
        inv.blamed e',
        inv.once e'.step,
        eq_iff s.name e'.step,
        eq_refl s.name,
      ),
      ground (
        arith,
        taken e'.step,
        inv.blamed e',
        inv.once e'.step,
        eq_iff s.name e'.step,
        end,
        lookup-insert s.name e'.step sr st.steps,
      ),
    );
    once = λ n. ground (arith, taken n, inv.once n);
    idle = λ n. ground (arith, inv.idle n, end, lookup-insert s.name n sr st.steps);
  }
