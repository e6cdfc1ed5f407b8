-- ===== src/Dag/Layers/Order.antt =====
-- The layers that `buildDAG` and `BuildProjectLayers` return, and their error for a cycle.
use mathlib.Core.Path.{subst}
use opc_platform.Prelude.{
  ℕ, suc, String, true, false, ◌≡◌, refl, sym, ap, ◌≢◌, some, List, [], ◌∷◌, arith, if◌then◌else◌,
  ℤ, Map, lookup, count, has, has-count, length, missing-nil, length-map, MapOrder, eq_refl,
}
use opc_platform.Dag.{Node, Outcome, done, cyclic, out_of_fuel, tables_of, finish, build_layers}
use opc_platform.Dag.Degrees.{names, tables_of-Holds}
use opc_platform.Dag.Placing.{
  Free, IsSorted, IsSorted-count, Ranks, IsKnown, place_of, place_of-Ranks, all_placed,
}
use opc_platform.Dag.Layers.{Left, Left-start}
use opc_platform.Dag.Layers.Rounds.{IsLayered, placed_all}
use opc_platform.Dag.Layers.Loop.{run}

module _ {A : Type 0} ⦃node : Node A⦄ (nodes : List A) where
  -- Every node is placed.
  abbrev pub AllPlaced : List String → Type 0
  AllPlaced placed = (n : String) → has n (names nodes) ≡ true → has n placed ≡ true

  nothing-Left : (placed : List String) → Left nodes placed [] → AllPlaced placed
  unfolding lookup
  nothing-Left placed left n h = ground (arith, left.at n)

  something-Left :
      (placed : List String) (k : String) (v : ℤ) (m : Map ℤ)
      → Left nodes placed ((k, v) ∷ m)
      → (has k (names nodes) ≡ true) × (has k placed ≡ false)
  unfolding lookup
  something-Left placed k v m left = ground (arith, left.at k, eq_refl k)

  -- What the whole loop comes to, by the map that is left at its end.
  pub data Ends : Outcome (List (List A)) → Type 0 where
    all_done :
        (layers : List (List A))
        → IsLayered nodes [] layers
        → IsSorted nodes (placed_all nodes [] layers)
        → AllPlaced (placed_all nodes [] layers)
        → Ends (done layers)
    some_stuck :
        (placed : List String) (k : String)
        → ((n : String) → ¬ Free nodes placed n)
        → has k (names nodes) ≡ true
        → has k placed ≡ false
        → Ends cyclic

  finish-Ends :
      (layers : List (List A)) (m : Map ℤ)
      → IsLayered nodes [] layers
      → IsSorted nodes (placed_all nodes [] layers)
      → Left nodes (placed_all nodes [] layers) m
      → ((n : String) → ¬ Free nodes (placed_all nodes [] layers) n)
      → Ends (finish (some (m, layers)))
  unfolding finish
  finish-Ends layers [] layered sorted left stuck =
      all_done layers layered sorted (nothing-Left _ left)
  finish-Ends layers ((k, v) ∷ m) layered sorted left stuck =
      let (is_node, unplaced) = something-Left _ k v m left in
      some_stuck (placed_all nodes [] layers) k stuck is_node unplaced

  pub build_layers-Ends : (order : MapOrder) → Ends (build_layers order nodes)
  unfolding build_layers names
  build_layers-Ends order =
      let t = tables_of nodes in
      let r =
        run nodes order t.adjacency (tables_of-Holds nodes).under (suc (length nodes)) [] 0
          t.degrees [] (omega (arith, missing-nil (names nodes), length-map node.name nodes)) tt
          (Left-start nodes) in
      subst Ends (ap finish (sym r.result))
        (finish-Ends r.more r.degrees r.layered r.sorted r.left r.stuck)

  Ends-done :
      {o : Outcome (List (List A))} (layers : List (List A))
      → Ends o
      → o ≡ done layers
      → IsLayered nodes [] layers
        × IsSorted nodes (placed_all nodes [] layers)
        × AllPlaced (placed_all nodes [] layers)
  Ends-done layers (all_done found layered sorted all) e =
      let same : found ≡ layers = cc in
      (
        subst (IsLayered nodes []) same layered,
        subst (λ l. IsSorted nodes (placed_all nodes [] l)) same sorted,
        subst (λ l. AllPlaced (placed_all nodes [] l)) same all,
      )
  Ends-done layers (some_stuck placed k stuck is_node unplaced) e = cc

  Ends-ne-out_of_fuel : {o : Outcome (List (List A))} → Ends o → o ≢ out_of_fuel
  Ends-ne-out_of_fuel (all_done found layered sorted all) e = cc
  Ends-ne-out_of_fuel (some_stuck placed k stuck is_node unplaced) e = cc

  Ends-ranked :
      {o : Outcome (List (List A))} (rank : String → ℕ)
      → Ends o
      → Ranks nodes rank
      → IsKnown nodes
      → (layers : List (List A)) × (o ≡ done layers)
  Ends-ranked rank (all_done found layered sorted all) ranks known = (found, refl)
  Ends-ranked rank (some_stuck placed k stuck is_node unplaced) ranks known =
      let placed_k =
        all_placed nodes placed rank ranks known stuck (suc (rank k)) k (omega arith) is_node in
      cc

  once_placed :
      (placed : List String) (n : String)
      → IsSorted nodes placed
      → AllPlaced placed
      → count n placed ≡ (if has n (names nodes) then 1 else 0)
  once_placed placed n sorted all =
      let facts = IsSorted-count nodes placed n sorted in
      ground (arith, facts.0, facts.1, all n, has-count n placed)

  module _ (order : MapOrder) where
    -- Whatever the order of the iterations over the maps, in the layers that come back every step
    -- is one of the given nodes, depends on names of earlier layers only, and each node's name
    -- stands exactly once.
    pub build_layers-IsLayered :
        (layers : List (List A))
        → build_layers order nodes ≡ done layers
        → IsLayered nodes [] layers
          × ((n : String)
              → count n (placed_all nodes [] layers) ≡ (if has n (names nodes) then 1 else 0))
    build_layers-IsLayered layers e =
        let (layered, sorted, all) = Ends-done layers (build_layers-Ends order) e in
        (layered, λ n. once_placed _ n sorted all)

    -- The loop ends: the fuel of one round more than there are nodes never runs out.
    pub build_layers-ne-out_of_fuel : build_layers order nodes ≢ out_of_fuel
    build_layers-ne-out_of_fuel = Ends-ne-out_of_fuel (build_layers-Ends order)

    -- Layers come back if the dependencies are nodes and can be ranked, so have no cycle.
    pub build_layers_of_Ranks :
        (rank : String → ℕ)
        → Ranks nodes rank
        → IsKnown nodes
        → (layers : List (List A)) × (build_layers order nodes ≡ done layers)
    build_layers_of_Ranks rank = Ends-ranked rank (build_layers-Ends order)

    -- If layers come back, the dependencies can be ranked, so have no cycle.
    pub Ranks-of_build_layers :
        (layers : List (List A))
        → build_layers order nodes ≡ done layers
        → (rank : String → ℕ) × Ranks nodes rank
    Ranks-of_build_layers layers e =
        let (layered, sorted, all) = Ends-done layers (build_layers-Ends order) e in
        (place_of (placed_all nodes [] layers), place_of-Ranks nodes _ sorted all)
