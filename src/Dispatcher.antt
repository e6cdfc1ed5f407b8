-- ===== src/Dispatcher.antt =====
-- pkg/dispatcher/dispatcher.go: the agent that a task is sent to. The controller's metrics and list
-- of agents are arguments.
pub mod Picks
pub mod Turns
pub mod Routing
use opc_platform.Prelude.{
  ℕ, suc, ◌+◌, ◌%◌, String, Bool, true, false, not, ◌&&◌, ◌||◌, ◌≡◌, refl, arith, Option, none,
  some, List, [], ◌∷◌, if◌then◌else◌, str_eq, ltb, Map, lookup, lookup_or, insert, length,
  get_elem?, ℤ, pos, negsuc, ltb_ℤ,
}
use Prim.Native.String.{◌++◌}

pub record MatchCriteria : Type 0 where
  pub task_type : String
  pub labels : Map String

pub record RoutingRule : Type 0 where
  pub criteria : MatchCriteria
  pub agents : List String
  pub preference : String

pub record DispatcherBody : Type 0 where
  pub strategy : String
  pub routing : List RoutingRule
  pub fallback_agent : String

-- `Strategy`, a string.
abbrev pub round_robin_strategy : String
round_robin_strategy = "round-robin"

abbrev pub least_busy_strategy : String
least_busy_strategy = "least-busy"

abbrev pub cost_optimized_strategy : String
cost_optimized_strategy = "cost-optimized"

abbrev pub auto_strategy : String
auto_strategy = "auto"

-- How costs are compared: `<`, `< 0` and the initial -1. The laws are those of numbers.
pub record CostOrder (C : Type 0) : Type 0 where
  pub less : C → C → Bool
  pub negative : C → Bool
  pub unset : C
  pub unset_negative : negative unset ≡ true
  pub less_refl : (a : C) → less a a ≡ false
  pub less_trans : (a b c : C) → less b a ≡ false → less c b ≡ false → less c a ≡ false
  pub less_asym : (a b : C) → less a b ≡ true → less b a ≡ false

abbrev pub negative_ℤ : ℤ → Bool
negative_ℤ (pos n) = false
negative_ℤ (negsuc n) = true

pub ltb_ℤ-refl : (a : ℤ) → ltb_ℤ a a ≡ false
ltb_ℤ-refl (pos n) = ground arith
ltb_ℤ-refl (negsuc n) = ground arith

pub ltb_ℤ-trans : (a b c : ℤ) → ltb_ℤ b a ≡ false → ltb_ℤ c b ≡ false → ltb_ℤ c a ≡ false
ltb_ℤ-trans a b c h k = ground (arith, h, k)

pub ltb_ℤ-asym : (a b : ℤ) → ltb_ℤ a b ≡ true → ltb_ℤ b a ≡ false
ltb_ℤ-asym a b h = ground (arith, h)

-- Go's `int`.
abbrev pub int_order : CostOrder ℤ
int_order = record {
  less = ltb_ℤ;
  negative = negative_ℤ;
  unset = negsuc 0;
  unset_negative = refl;
  less_refl = ltb_ℤ-refl;
  less_trans = ltb_ℤ-trans;
  less_asym = ltb_ℤ-asym;
}

-- The loop of `leastBusy` and of `costOptimized`: an agent without metrics is taken at once.
-- `none` is the error that there are no metrics.
unfoldable pub pick_loop :
    {C : Type 0} → CostOrder C → Map C → List String → String → C → Option String
pick_loop order metrics [] best_agent best = if str_eq best_agent "" then none else some best_agent
pick_loop order metrics (name ∷ names) best_agent best = elim (lookup name metrics) [
  | none ↦ some name
  | some cost ↦
      let taken = pick_loop order metrics names name cost in
      let left = pick_loop order metrics names best_agent best in
      if order.negative best || order.less cost best then taken else left
]

unfoldable pub pick_least : {C : Type 0} → CostOrder C → Map C → List String → Option String
unfolding pick_loop
pick_least order metrics names = pick_loop order metrics names "" order.unset

-- The round-robin counters after a call, and the agent; `none` is the panic on no candidates.
unfoldable pub round_robin : List String → String → Map ℕ → Option String × Map ℕ
round_robin [] group counters = (none, counters)
round_robin (c ∷ cs) group counters =
    let index = lookup_or group counters 0 % length (c ∷ cs) in
    (get_elem? (c ∷ cs) index, insert group (suc index) counters)

unfoldable pub group_key_from : String → List String → String
group_key_from key [] = key
group_key_from key (c ∷ cs) = group_key_from (key ++ ("," ++ c)) cs

unfoldable pub group_key : List String → String
unfolding group_key_from
group_key [] = ""
group_key (c ∷ cs) = group_key_from ("" ++ c) cs

-- `labels[k] == v` for each entry of the rule.
unfoldable pub has_labels : Map String → Map String → Bool
has_labels labels [] = true
has_labels labels ((k, v) ∷ more) = str_eq (lookup_or k labels "") v && has_labels labels more

abbrev pub no_labels : Map String → Bool
no_labels [] = true
no_labels (entry ∷ more) = false

unfoldable pub matches_rule : MatchCriteria → String → Map String → Bool
unfolding has_labels
matches_rule criteria task_type labels =
    if not (str_eq criteria.task_type "") && not (str_eq criteria.task_type task_type)
    then false
    else if not (has_labels labels criteria.labels)
    then false
    else if str_eq criteria.task_type "" && no_labels criteria.labels
    then false
    else true

unfoldable pub find_matching_rule : String → Map String → List RoutingRule → Option RoutingRule
unfolding matches_rule
find_matching_rule task_type labels [] = none
find_matching_rule task_type labels (rule ∷ rules) =
    let later = find_matching_rule task_type labels rules in
    if matches_rule rule.criteria task_type labels then some rule else later

-- What the controller tells: its metrics, and the agents with whether each is running, or an error.
pub record Fleet (C : Type 0) : Type 0 where
  pub tasks_running : Map ℤ
  pub total_cost : Map C
  pub agents : Option (List (String × Bool))

abbrev pub running_names : List (String × Bool) → List String
running_names [] = []
running_names ((name, running) ∷ agents) =
    let rest = running_names agents in if running then name ∷ rest else rest

-- An outcome of a choice: the agent, an error, or the panic of an empty group.
pub data Pick : Type 0 where
  picked : String → Pick
  no_agents list_failed no_metrics panicked : Pick

abbrev pub or_no_metrics : Option String → Pick
or_no_metrics none = no_metrics
or_no_metrics (some name) = picked name

abbrev pub or_panicked : Option String × Map ℕ → Pick × Map ℕ
or_panicked (none, counters) = (panicked, counters)
or_panicked (some name, counters) = (picked name, counters)

module _ {C : Type 0} (costs : CostOrder C) (fleet : Fleet C) where
  unfoldable pub least_busy : List String → Option String
  unfolding pick_least
  least_busy names = pick_least int_order fleet.tasks_running names

  unfoldable pub cost_optimized : List String → Option String
  unfolding pick_least
  cost_optimized names = pick_least costs fleet.total_cost names

  -- `StrategyAuto`.
  abbrev pub auto : Option String → Pick × Map ℕ → Map ℕ → Pick × Map ℕ
  auto none fallback counters = fallback
  auto (some name) fallback counters = (picked name, counters)

  unfoldable pub select_agent : List String → String → Map ℕ → Pick × Map ℕ
  unfolding least_busy cost_optimized round_robin group_key
  select_agent [] strategy counters = (no_agents, counters)
  select_agent (c ∷ []) strategy counters = (picked c, counters)
  select_agent (c ∷ d ∷ more) strategy counters =
      let names = c ∷ d ∷ more in
      let in_turn = or_panicked (round_robin names (group_key names) counters) in
      if str_eq strategy round_robin_strategy
      then in_turn
      else if str_eq strategy least_busy_strategy
      then (or_no_metrics (least_busy names), counters)
      else if str_eq strategy cost_optimized_strategy
      then (or_no_metrics (cost_optimized names), counters)
      else if str_eq strategy auto_strategy
      then auto (least_busy names) in_turn counters
      else in_turn

  abbrev pub or_default : String → String → String
  or_default s fallback = if str_eq s "" then fallback else s

  unfoldable pub dispatch : DispatcherBody → String → Map String → Map ℕ → Pick × Map ℕ
  unfolding select_agent find_matching_rule
  dispatch config task_type labels counters =
      elim (find_matching_rule task_type labels config.routing) [
        | some rule ↦ select_agent rule.agents (or_default rule.preference config.strategy) counters
        | none ↦
            if not (str_eq config.fallback_agent "")
            then (picked config.fallback_agent, counters)
            else (elim fleet.agents [
              | none ↦ (list_failed, counters)
              | some agents ↦
                  select_agent (running_names agents) (or_default config.strategy auto_strategy)
                    counters
            ])
      ]
