-- ===== src/Cost/Reports.antt =====
-- The reports of pkg/cost/cost.go.
use mathlib.Core.Path.{subst}
use opc_platform.Prelude.{
  ℕ, suc, ◌+◌, ◌≡◌, refl, String, Bool, false, not, ◌&&◌, ◌||◌, Option, none, some, List, [], ◌∷◌,
  if◌then◌else◌, ltb, Bool-cases, inl, inr, ap, sym, ◌≢◌, ◌∙◌, arith, str_eq, eq_iff, Map, lookup,
  lookup_or, insert, lookup_or-insert,
}
use opc_platform.Cost.{CostEvent, Tracker, Rates, plus, nothing, spent}

-- `ByAgent`, `ByGoal` and `ByProject` are `none` where they are left out.
pub record CostReport (C : Type 0) : Type 0 where
  pub total_cost : C
  pub total_tokens : ℕ
  pub event_count : ℕ
  pub by_agent : Option (Map C)
  pub by_goal : Option (Map C)
  pub by_project : Option (Map C)

module _ {C : Type 0} (rates : Rates C) where
  -- `m[name] += cost`, but for an empty name.
  unfoldable pub add_to : String → C → Map C → Map C
  add_to name cost m =
      if str_eq name ""
      then m
      else insert name (plus rates (lookup_or name m (nothing rates)) cost) m

  -- The totals of a report, before some are left out.
  pub record ReportSums : Type 0 where
    pub cost_sum : C
    pub token_sum : ℕ
    pub events_seen : ℕ
    pub agents : Map C
    pub goals : Map C
    pub projects : Map C

  unfoldable pub add_event : ReportSums → CostEvent C → ReportSums
  unfolding add_to
  add_event r e = record {
    cost_sum = plus rates r.cost_sum e.total_cost;
    token_sum = r.token_sum + e.total_tokens;
    events_seen = suc r.events_seen;
    agents = add_to e.agent_name e.total_cost r.agents;
    goals = add_to e.goal_ref e.total_cost r.goals;
    projects = add_to e.project_ref e.total_cost r.projects;
  }

  -- The loop over the events since the cutoff.
  unfoldable pub add_events : ℕ → ReportSums → List (CostEvent C) → ReportSums
  unfolding add_event
  add_events cutoff r [] = r
  add_events cutoff r (e ∷ es) =
      add_events cutoff (if ltb e.timestamp cutoff then r else add_event r e) es

  abbrev pub no_sums : ReportSums
  no_sums = record {
    cost_sum = nothing rates;
    token_sum = 0;
    events_seen = 0;
    agents = [];
    goals = [];
    projects = [];
  }

  -- What `groupBy` leaves of a breakdown.
  abbrev pub when : Bool → Map C → Option (Map C)
  when left_out m = if left_out then none else some m

  unfoldable pub generate_report : String → ℕ → Tracker C → CostReport C
  unfolding add_events
  generate_report group_by cutoff t =
      let sums = add_events cutoff no_sums t.events in
      let agent = str_eq group_by "agent" in
      let goal = str_eq group_by "goal" in
      let project = str_eq group_by "project" in
      record {
        total_cost = sums.cost_sum;
        total_tokens = sums.token_sum;
        event_count = sums.events_seen;
        by_agent = when (goal || project) sums.agents;
        by_goal = when (agent || project) sums.goals;
        by_project = when (agent || goal) sums.projects;
      }

  -- An event that is not before the cutoff, and one that names a given agent, goal or project.
  abbrev pub since : ℕ → CostEvent C → Bool
  since cutoff e = not (ltb e.timestamp cutoff)

  abbrev pub since_for : (CostEvent C → String) → ℕ → String → CostEvent C → Bool
  since_for of cutoff name e = since cutoff e && str_eq (of e) name

  lookup_or-add_to :
      (name read : String) (cost : C) (m : Map C)
      → str_eq read "" ≡ false
      → lookup_or read (add_to name cost m) (nothing rates) ≡ (
          if str_eq name read
          then plus rates (lookup_or read m (nothing rates)) cost
          else lookup_or read m (nothing rates))
  unfolding add_to
  lookup_or-add_to name read cost m h = ground (
    arith,
    h,
    eq_iff name read,
    lookup_or-insert name read (plus rates (lookup_or name m (nothing rates)) cost) m
        (nothing rates),
  )

  one_cost :
      (cutoff : ℕ) (r : ReportSums) (e : CostEvent C)
      → (if ltb e.timestamp cutoff then r else add_event r e).cost_sum
        ≡ (if since cutoff e then plus rates r.cost_sum e.total_cost else r.cost_sum)
  unfolding add_event
  one_cost cutoff r e = elim (Bool-cases (ltb e.timestamp cutoff)) [
    | inl before ↦ rw before refl
    | inr after ↦ rw after refl
  ]

  one_entry :
      (of : CostEvent C → String) (at : ReportSums → Map C)
      → ((r : ReportSums) (e : CostEvent C)
          → at (add_event r e) ≡ add_to (of e) e.total_cost (at r))
      → (cutoff : ℕ) (name : String) → str_eq name "" ≡ false
      → (e : CostEvent C) (r : ReportSums)
      → lookup_or name (at (if ltb e.timestamp cutoff then r else add_event r e)) (nothing rates)
        ≡ (if since_for of cutoff name e
            then plus rates (lookup_or name (at r) (nothing rates)) e.total_cost
            else lookup_or name (at r) (nothing rates))
  one_entry of at adds cutoff name h e r = elim (Bool-cases (ltb e.timestamp cutoff)) [
    | inl before ↦ rw before refl
    | inr after ↦ rw after (
        ap (λ m. lookup_or name m (nothing rates)) (adds r e)
        ∙ lookup_or-add_to (of e) name e.total_cost (at r) h)
  ]

  add_events-cost_sum :
      (cutoff : ℕ) (r : ReportSums) (es : List (CostEvent C))
      → (add_events cutoff r es).cost_sum ≡ spent rates (since cutoff) r.cost_sum es
  unfolding add_events spent
  add_events-cost_sum cutoff r [] = refl
  add_events-cost_sum cutoff r (e ∷ es) =
      add_events-cost_sum cutoff (if ltb e.timestamp cutoff then r else add_event r e) es
      ∙ ap (λ c. spent rates (since cutoff) c es) (one_cost cutoff r e)

  -- One breakdown, given which map it is and which name of an event it takes.
  add_events-breakdown :
      (of : CostEvent C → String) (at : ReportSums → Map C)
      → ((r : ReportSums) (e : CostEvent C)
          → at (add_event r e) ≡ add_to (of e) e.total_cost (at r))
      → (cutoff : ℕ) (name : String) → str_eq name "" ≡ false
      → (es : List (CostEvent C)) (r : ReportSums)
      → lookup_or name (at (add_events cutoff r es)) (nothing rates)
        ≡ spent rates (since_for of cutoff name) (lookup_or name (at r) (nothing rates)) es
  unfolding add_events spent
  add_events-breakdown of at adds cutoff name h [] r = refl
  add_events-breakdown of at adds cutoff name h (e ∷ es) r =
      add_events-breakdown of at adds cutoff name h es
        (if ltb e.timestamp cutoff then r else add_event r e)
      ∙ ap (λ c. spent rates (since_for of cutoff name) c es)
          (one_entry of at adds cutoff name h e r)

  -- A map that is reported is the one that the loop made.
  when-eq : (left_out : Bool) (made m : Map C) → when left_out made ≡ some m → made ≡ m
  when-eq left_out made m e = ground (arith, e)

  when-ne : (left_out : Bool) (made : Map C) → left_out ≡ false → when left_out made ≢ none
  when-ne left_out made h e = ground (arith, h, e)

  -- A report's total is the sum of the costs of the events since the cutoff; a breakdown that is
  -- reported gives each agent, goal or project that has a name the sum of its own, and the breakdown
  -- that is asked for is always reported.
  pub generate_report_sums :
      (group_by : String) (cutoff : ℕ) (t : Tracker C)
      → let report = generate_report group_by cutoff t in
        let sum_of = λ (of : CostEvent C → String) (name : String).
          spent rates (since_for of cutoff name) (nothing rates) t.events in
        (report.total_cost ≡ spent rates (since cutoff) (nothing rates) t.events)
        × ((name : String)
            → str_eq name "" ≡ false
            → ((m : Map C)
                → report.by_agent ≡ some m
                → lookup_or name m (nothing rates) ≡ sum_of (λ e. e.agent_name) name)
              × ((m : Map C)
                  → report.by_goal ≡ some m
                  → lookup_or name m (nothing rates) ≡ sum_of (λ e. e.goal_ref) name)
              × ((m : Map C)
                  → report.by_project ≡ some m
                  → lookup_or name m (nothing rates) ≡ sum_of (λ e. e.project_ref) name))
        × ((group_by ≡ "agent" → report.by_agent ≢ none)
            × (group_by ≡ "goal" → report.by_goal ≢ none)
            × (group_by ≡ "project" → report.by_project ≢ none))
  unfolding generate_report lookup add_event
  generate_report_sums group_by cutoff t =
      let sums = add_events cutoff no_sums t.events in
      let agent = str_eq group_by "agent" in
      let goal = str_eq group_by "goal" in
      let project = str_eq group_by "project" in
      (
        add_events-cost_sum cutoff no_sums t.events,
        λ name h. (
          λ m e.
              sym (
                ap (λ a. lookup_or name a (nothing rates))
                  (when-eq (goal || project) sums.agents m e))
              ∙ add_events-breakdown (λ e. e.agent_name) (λ r. r.agents) (λ r e. refl) cutoff name h
                  t.events no_sums,
          λ m e.
              sym (
                ap (λ a. lookup_or name a (nothing rates))
                  (when-eq (agent || project) sums.goals m e))
              ∙ add_events-breakdown (λ e. e.goal_ref) (λ r. r.goals) (λ r e. refl) cutoff name h
                  t.events no_sums,
          λ m e.
              sym (
                ap (λ a. lookup_or name a (nothing rates))
                  (when-eq (agent || goal) sums.projects m e))
              ∙ add_events-breakdown (λ e. e.project_ref) (λ r. r.projects) (λ r e. refl) cutoff
                  name h t.events no_sums,
        ),
        (
          λ e.
              when-ne (goal || project) sums.agents
                (subst (λ g. (str_eq g "goal" || str_eq g "project") ≡ false) (sym e) refl),
          λ e.
              when-ne (agent || project) sums.goals
                (subst (λ g. (str_eq g "agent" || str_eq g "project") ≡ false) (sym e) refl),
          λ e.
              when-ne (agent || goal) sums.projects
                (subst (λ g. (str_eq g "agent" || str_eq g "goal") ≡ false) (sym e) refl),
        ),
      )
