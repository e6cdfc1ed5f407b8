-- ===== src/Dag/Layers/Rounds.antt =====
-- The rounds of the layering loop.
use mathlib.Core.List.{Mem}
use opc_platform.Prelude.{
  ℕ, ◌≤◌, ◌<◌, String, true, ◌≡◌, refl, ap, List, [], ◌∷◌, map, arith, ℤ, Map, lookup_or, keys,
  count, has, missing, missing_zero, missing_all, missing-cons_le, eq_refl, All, MapOrder,
}
use opc_platform.Dag.{Node, zero_names, layer_of, by_name}
use opc_platform.Dag.Degrees.{names, deps_of}
use opc_platform.Dag.Placing.{Free}
use opc_platform.Dag.Index.{by_name-Found}
use opc_platform.Dag.Layers.{Left, placed_after, collected-Free, collected_once, Free-collected}

module _ {A : Type 0} ⦃node : Node A⦄ (nodes : List A) where
  -- Each layer holds nodes of the graph that depend on earlier layers only.
  abbrev pub IsLayered : List String → List (List A) → Type 0
  IsLayered placed [] = Unit
  IsLayered placed (layer ∷ layers) =
      All (λ s. Mem s nodes × (missing placed (node.deps s) ≡ 0)) layer
      × IsLayered (placed_after nodes placed layer) layers

  abbrev pub placed_all : List String → List (List A) → List String
  placed_all placed [] = placed
  placed_all placed (layer ∷ layers) = placed_all (placed_after nodes placed layer) layers

  -- The nodes looked up for some names.
  abbrev nodes_for : List String → List A
  nodes_for ks = map (λ k. lookup_or k (by_name nodes) node.zero_value) ks

  names-nodes_for :
      (ks : List String)
      → ((n : String) → 0 < count n ks → has n (names nodes) ≡ true)
      → names (nodes_for ks) ≡ ks
  unfolding names count
  names-nodes_for [] h = refl
  names-nodes_for (k ∷ ks) h =
      let found = by_name-Found nodes k (h k (ground (arith, eq_refl k))) in
      ground (arith, found.found, found.named, names-nodes_for ks (λ n e. h n (omega arith)))

  nodes_for-All :
      (placed ks : List String)
      → ((n : String) → 0 < count n ks → Free nodes placed n)
      → All (λ s. Mem s nodes × (missing placed (node.deps s) ≡ 0)) (nodes_for ks)
  unfolding count
  nodes_for-All placed [] h = tt
  nodes_for-All placed (k ∷ ks) h =
      let free = h k (ground (arith, eq_refl k)) in
      let found = by_name-Found nodes k free.0 in
      let ready : missing placed (node.deps found.node_of) ≡ 0 =
        missing_all placed _
          (λ d e. missing_zero d placed (deps_of k nodes) free.2 (found.fewer d e)) in
      (
        rw (found.found, lookup_or) (found.member, ready),
        nodes_for-All placed ks (λ n e. h n (omega arith)),
      )

  pub missing-placed_after :
      (layer : List A) (placed : List String)
      → missing (placed_after nodes placed layer) (names nodes) ≤ missing placed (names nodes)
  missing-placed_after [] placed = omega arith
  missing-placed_after (s ∷ ss) placed = omega (
    arith,
    missing-placed_after ss (node.name s ∷ placed),
    missing-cons_le (node.name s) placed (names nodes),
  )

  -- The layer that a round collects.
  module _ (order : MapOrder) (placed : List String) (round : ℕ) (m : Map ℤ)
      (left : Left nodes placed m) where
    layer_names :
        names (layer_of order (by_name nodes) round m) ≡ zero_names (order.range round (keys m)) m
    unfolding layer_of
    layer_names = names-nodes_for _ (λ n h. (collected-Free nodes order round placed m left n h).0)

    pub layer-Free :
        (n : String)
        → 0 < count n (names (layer_of order (by_name nodes) round m))
        → Free nodes placed n
    layer-Free n h = collected-Free nodes order round placed m left n (rw layer_names at h)

    pub layer_once : (n : String) → count n (names (layer_of order (by_name nodes) round m)) ≤ 1
    layer_once n = rw layer_names (collected_once nodes order round placed m left n)

    pub layer-All :
        All
          (λ s. Mem s nodes × (missing placed (node.deps s) ≡ 0))
          (layer_of order (by_name nodes) round m)
    unfolding layer_of
    layer-All = nodes_for-All placed _ (collected-Free nodes order round placed m left)

    pub empty_layer-stuck :
        layer_of order (by_name nodes) round m ≡ [] → (n : String) → ¬ Free nodes placed n
    unfolding names count
    empty_layer-stuck e n free =
        let some_left = Free-collected nodes order round placed m left n free in
        let none_left = ap (λ l. count n (names l)) e in omega (arith, ap (count n) layer_names)
