-- ===== src/Dispatcher/Routing.antt =====
-- Where `Dispatch` sends a task.
use opc_platform.Prelude.{
  ℕ, zero, suc, ◌%◌, String, Bool, true, false, ◌≡◌, refl, ◌⊎◌, inl, inr, Option, none, some, List,
  [], ◌∷◌, if◌then◌else◌, arith, str_eq, eq_refl, Map, lookup, lookup_or, length, get_elem?,
  get_elem?-length, has, Option-cases,
}
use native.Mathlib.Nat.{mod-lt}
use opc_platform.Dispatcher.{
  int_order, CostOrder, pick_loop, pick_least, round_robin, group_key, RoutingRule,
  find_matching_rule, Fleet, running_names, Pick, picked, panicked, or_panicked, or_no_metrics,
  no_agents, list_failed, no_metrics, round_robin_strategy, least_busy_strategy,
  cost_optimized_strategy, auto_strategy, auto, least_busy, cost_optimized, select_agent,
  or_default, dispatch, DispatcherBody,
}

get_elem?-has : (xs : List String) (i : ℕ) (a : String) → get_elem? xs i ≡ some a → has a xs ≡ true
unfolding get_elem? has
get_elem?-has [] i a e = absurd (ground (arith, e))
get_elem?-has (x ∷ xs) zero a e = ground (arith, e, eq_refl x)
get_elem?-has (x ∷ xs) (suc i) a e = ground (arith, get_elem?-has xs i a e)

pick_loop-has :
    {C : Type 0} (order : CostOrder C) (metrics : Map C) (names : List String) (best_agent : String)
    (best : C) (a : String)
    → pick_loop order metrics names best_agent best ≡ some a
    → (has a names ≡ true) ⊎ ((a ≡ best_agent) × (str_eq best_agent "" ≡ false))
unfolding pick_loop has
pick_loop-has order metrics [] best_agent best a e = ground (arith, e)
pick_loop-has order metrics (n ∷ names) best_agent best a e =
    elim (Option-cases (lookup n metrics)) [
      | inl nothing ↦ ground (arith, nothing, e, eq_refl n)
      | inr (cost, found) ↦ ground (
        arith,
        found,
        e,
        eq_refl n,
        pick_loop-has order metrics names n cost a,
        pick_loop-has order metrics names best_agent best a,
      )
    ]

pick_least-has :
    {C : Type 0} (order : CostOrder C) (metrics : Map C) (names : List String) (a : String)
    → pick_least order metrics names ≡ some a
    → has a names ≡ true
unfolding pick_least
pick_least-has order metrics names a e =
    ground (arith, pick_loop-has order metrics names "" order.unset a e, eq_refl "")

-- Round robin picks a candidate, where there is one.
round_robin-has :
    (n : String) (names : List String) (group : String) (counters : Map ℕ)
    → (a : String) × ((round_robin (n ∷ names) group counters).0 ≡ some a)
      × (has a (n ∷ names) ≡ true)
unfolding round_robin
round_robin-has n names group counters =
    let index = lookup_or group counters 0 % suc (length names) in
    let found =
      get_elem?-length (n ∷ names) index (mod-lt (lookup_or group counters 0) (omega arith)) in
    (found.0, found.1, get_elem?-has (n ∷ names) index found.0 found.1)

-- What a choice among the names may give.
abbrev pub FromNames : List String → Pick → Type 0
FromNames names (picked a) = has a names ≡ true
FromNames names panicked = ⊥
FromNames names no_agents = names ≡ []
FromNames names list_failed = ⊥
FromNames names no_metrics = Unit

has-single : (c : String) → has c (c ∷ []) ≡ true
unfolding has
has-single c = ground (arith, eq_refl c)

or_panicked-FromNames :
    (names : List String) (p : Option String × Map ℕ) (a : String)
    → p.0 ≡ some a
    → has a names ≡ true
    → FromNames names (or_panicked p).0
or_panicked-FromNames names (none, counters) a e h = ground (arith, e)
or_panicked-FromNames names (some b, counters) a e h = ground (arith, e, h)

or_no_metrics-FromNames :
    (names : List String) (o : Option String)
    → ((a : String) → o ≡ some a → has a names ≡ true)
    → FromNames names (or_no_metrics o)
or_no_metrics-FromNames names none h = tt
or_no_metrics-FromNames names (some a) h = h a refl

if-FromNames :
    (names : List String) (b : Bool) (x y : Pick × Map ℕ)
    → FromNames names x.0
    → FromNames names y.0
    → FromNames names (if b then x else y).0
if-FromNames names true x y p q = p
if-FromNames names false x y p q = q

module _ {C : Type 0} (costs : CostOrder C) (fleet : Fleet C) where
  auto-FromNames :
      (names : List String) (o : Option String) (fallback : Pick × Map ℕ) (counters : Map ℕ)
      → ((a : String) → o ≡ some a → has a names ≡ true)
      → FromNames names fallback.0
      → FromNames names (auto costs fleet o fallback counters).0
  auto-FromNames names none fallback counters h f = f
  auto-FromNames names (some a) fallback counters h f = h a refl

  -- `selectAgent` gives one of the candidates, or an error: it never indexes an empty group.
  select_agent-FromNames :
      (names : List String) (strategy : String) (counters : Map ℕ)
      → FromNames names (select_agent costs fleet names strategy counters).0
  unfolding select_agent
  select_agent-FromNames [] strategy counters = refl
  select_agent-FromNames (c ∷ []) strategy counters = has-single c
  select_agent-FromNames (c ∷ d ∷ more) strategy counters =
      let names = c ∷ d ∷ more in
      let turn = round_robin-has c (d ∷ more) (group_key names) counters in
      let in_turn = round_robin names (group_key names) counters in
      let in_turn_ok : FromNames names (or_panicked in_turn).0 =
        or_panicked-FromNames names in_turn turn.0 turn.1 turn.2 in
      let busy : (a : String) → least_busy costs fleet names ≡ some a → has a names ≡ true =
        pick_least-has int_order fleet.tasks_running names in
      let cheap : (a : String) → cost_optimized costs fleet names ≡ some a → has a names ≡ true =
        pick_least-has costs fleet.total_cost names in
      if-FromNames names (str_eq strategy round_robin_strategy) _ _ in_turn_ok (
        if-FromNames names (str_eq strategy least_busy_strategy) _ _
          (or_no_metrics-FromNames names (least_busy costs fleet names) busy)
          (if-FromNames names (str_eq strategy cost_optimized_strategy) _ _
            (or_no_metrics-FromNames names (cost_optimized costs fleet names) cheap)
            (if-FromNames names (str_eq strategy auto_strategy) _ _
              (auto-FromNames names (least_busy costs fleet names) (or_panicked in_turn) counters
                busy in_turn_ok)
              in_turn_ok)))

  -- Where a rule matches, the task goes to one of its agents, or the choice among them fails. Where
  -- none does, it goes to the fallback if there is one, and else to a running agent, or the choice
  -- fails, or the listing does. No branch indexes an empty group.
  pub dispatch-FromNames :
      (config : DispatcherBody) (task_type : String) (labels : Map String) (counters : Map ℕ)
      → let o = (dispatch costs fleet config task_type labels counters).0 in
        let found = find_matching_rule task_type labels config.routing in
        ((rule : RoutingRule) → found ≡ some rule → FromNames rule.agents o)
        × (found ≡ none
            → str_eq config.fallback_agent "" ≡ false
            → o ≡ picked config.fallback_agent)
        × (found ≡ none
            → str_eq config.fallback_agent "" ≡ true
            → fleet.agents ≡ none
            → o ≡ list_failed)
        × ((agents : List (String × Bool))
            → found ≡ none
            → str_eq config.fallback_agent "" ≡ true
            → fleet.agents ≡ some agents
            → FromNames (running_names agents) o)
  unfolding dispatch
  dispatch-FromNames config task_type labels counters = (
    λ rule e.
        rw (e, dispatch, FromNames)
          (select_agent-FromNames rule.agents
            (or_default costs fleet rule.preference config.strategy) counters),
    λ e f. rw (e, f, dispatch) refl,
    λ e f g. rw (e, f, g, dispatch) refl,
    λ agents e f g.
        rw (e, f, g, dispatch, FromNames)
          (select_agent-FromNames (running_names agents)
            (or_default costs fleet config.strategy auto_strategy) counters),
  )
