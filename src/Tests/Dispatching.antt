-- ===== src/Tests/Dispatching.antt =====
-- Tasks sent to three agents.
use opc_platform.Prelude.{
  ◌+◌, ◌%◌, ◌<◌, ◌≡◌, refl, ◌⊎◌, Bool, true, false, String, none, some, List, [], ◌∷◌, All, arith,
  str_eq, lookup, lookup_or, insert, get_elem?, has, ℤ, pos,
}
use opc_platform.Dispatcher.{
  RoutingRule, DispatcherBody, Fleet, picked, list_failed, int_order, pick_loop, pick_least,
  round_robin, group_key, group_key_from, has_labels, matches_rule, find_matching_rule, least_busy,
  cost_optimized, select_agent, dispatch, running_names,
}
use opc_platform.Dispatcher.Picks.{NotBelow, pick_least-least}
use opc_platform.Dispatcher.Turns.{after_calls, calls_of, round_robin-cycles}
use opc_platform.Dispatcher.Routing.{FromNames, dispatch-FromNames}

dispatches : Unit {0}
unfolding lookup insert get_elem? has pick_loop pick_least round_robin group_key group_key_from
    has_labels matches_rule find_matching_rule least_busy cost_optimized select_agent dispatch
    after_calls calls_of
dispatches = tt

abbrev three : List String
three = "a" ∷ "b" ∷ "c" ∷ []

abbrev fleet : Fleet ℤ
fleet = record {
  tasks_running = ("a", pos 2) ∷ ("b", pos 1) ∷ ("c", pos 1) ∷ [];
  total_cost = ("a", pos 9) ∷ ("b", pos 7) ∷ ("c", pos 3) ∷ [];
  agents = some (("a", false) ∷ ("b", true) ∷ []);
}

abbrev config : DispatcherBody
config = record {
  strategy = "auto";
  routing =
      record {
        criteria = record { task_type = "code"; labels = ("tier", "1") ∷ [] };
        agents = three;
        preference = "cost-optimized";
      }
      ∷ [];
  fallback_agent = "";
}

dispatch_code : (dispatch int_order fleet config "code" (("tier", "1") ∷ []) []).0 ≡ picked "c"
unfolding dispatches
dispatch_code = refl

dispatch_other : (dispatch int_order fleet config "code" [] []).0 ≡ picked "b"
unfolding dispatches
dispatch_other = refl

dispatch-FromNames_example :
    let o = (dispatch int_order fleet config "code" (("tier", "1") ∷ []) []).0 in
    let found = find_matching_rule "code" (("tier", "1") ∷ []) config.routing in
    ((rule : RoutingRule) → found ≡ some rule → FromNames rule.agents o)
    × (found ≡ none → str_eq config.fallback_agent "" ≡ false → o ≡ picked config.fallback_agent)
    × (found ≡ none
        → str_eq config.fallback_agent "" ≡ true
        → fleet.agents ≡ none
        → o ≡ list_failed)
    × ((agents : List (String × Bool))
        → found ≡ none
        → str_eq config.fallback_agent "" ≡ true
        → fleet.agents ≡ some agents
        → FromNames (running_names agents) o)
dispatch-FromNames_example =
    dispatch-FromNames int_order fleet config "code" (("tier", "1") ∷ []) []

pick_least-least_example :
    (name : String) × (pick_least int_order fleet.tasks_running ("a" ∷ "b" ∷ []) ≡ some name)
    × (has name ("a" ∷ "b" ∷ []) ≡ true)
    × ((lookup name fleet.tasks_running ≡ none)
        ⊎ ((cost : ℤ) × (lookup name fleet.tasks_running ≡ some cost)
            × All (NotBelow int_order fleet.tasks_running cost) ("a" ∷ "b" ∷ [])))
unfolding dispatches
pick_least-least_example =
    pick_least-least int_order fleet.tasks_running "a" ("b" ∷ [])
      ((refl, λ cost e. ground (arith, e)), ((refl, λ cost e. ground (arith, e)), tt))

-- Two calls, one of another group, and the next one of the group takes the second agent.
round_robin-cycles_example :
    let turn = (lookup_or "abc" [] 0 + calls_of "abc" ((three, "abc") ∷ (three, "x") ∷ [])) % 3 in
    (turn < 3)
    × ((round_robin three "abc" (after_calls ((three, "abc") ∷ (three, "x") ∷ []) [])).0
        ≡ get_elem? three turn)
unfolding dispatches
round_robin-cycles_example =
    round_robin-cycles ((three, "abc") ∷ (three, "x") ∷ []) three "abc" [] (omega arith)
      (λ e. refl, (λ e. refl, tt))
