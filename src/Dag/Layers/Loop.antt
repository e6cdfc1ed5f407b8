-- ===== src/Dag/Layers/Loop.antt =====
-- The layering loop: its fuel, and what it comes to.
use mathlib.Core.Path.{subst}
use mathlib.Core.List.{Mem, append_assoc, append-nil}
use opc_platform.Prelude.{
  ℕ, zero, suc, ◌≤◌, ◌<◌, String, ◌≡◌, refl, ap, ◌∙◌, Option, some, List, [], ◌∷◌, ◌++◌, arith, ℤ,
  Map, count, missing, missing-cons, All, MapOrder, eq_refl, has-count,
}
use opc_platform.Dag.{Node, layer_of, remove_layer, layers_loop, by_name}
use opc_platform.Dag.Degrees.{names}
use opc_platform.Dag.Placing.{Free, IsSorted, Adjacent}
use opc_platform.Dag.Layers.{Left, placed_after, remove_layer-Left}
use opc_platform.Dag.Layers.Rounds.{
  IsLayered, placed_all, missing-placed_after, layer-Free, layer_once, layer-All, empty_layer-stuck,
}

module _ {A : Type 0} ⦃node : Node A⦄ (nodes : List A) where
  -- What the loop comes to from a state of it: it ends, adds layers that follow the dependencies,
  -- and leaves no free node.
  pub record Run (placed : List String) (layers : List (List A))
      (r : Option (Map ℤ × List (List A))) : Type 0 where
    pub degrees : Map ℤ
    pub more : List (List A)
    pub result : r ≡ some (degrees, layers ++ more)
    pub layered : IsLayered nodes placed more
    pub left : Left nodes (placed_all nodes placed more) degrees
    pub sorted : IsSorted nodes (placed_all nodes placed more)
    pub stuck : (n : String) → ¬ Free nodes (placed_all nodes placed more) n

  module _ (order : MapOrder) (adj : Map (List String)) (adjacent : Adjacent nodes adj) where
    step_end :
        (f round : ℕ) (m : Map ℤ) (layers : List (List A))
        → layer_of order (by_name nodes) round m ≡ []
        → layers_loop order (by_name nodes) adj (suc f) round m layers ≡ some (m, layers)
    unfolding layers_loop
    step_end f round m layers e = rw (e, layers_loop)

    step_on :
        (f round : ℕ) (m : Map ℤ) (layers : List (List A)) (s : A) (ss : List A)
        → layer_of order (by_name nodes) round m ≡ s ∷ ss
        → layers_loop order (by_name nodes) adj (suc f) round m layers
          ≡ layers_loop order
              (by_name nodes)
              adj
              f
              (suc round)
              (remove_layer adj m (s ∷ ss))
              (layers ++ (s ∷ ss) ∷ [])
    unfolding layers_loop
    step_on f round m layers s ss e = rw (e, layers_loop)

    -- A round that collects a layer leaves fewer nodes.
    round_ready :
        (placed : List String) (round : ℕ) (m : Map ℤ) (s : A) (ss : List A)
        → IsSorted nodes placed
        → Left nodes placed m
        → layer_of order (by_name nodes) round m ≡ s ∷ ss
        → (missing (placed_after nodes placed (s ∷ ss)) (names nodes)
            < missing placed (names nodes))
          × Left nodes (placed_after nodes placed (s ∷ ss)) (remove_layer adj m (s ∷ ss))
          × IsSorted nodes (placed_after nodes placed (s ∷ ss))
    unfolding names count
    round_ready placed round m s ss sorted left e =
        let x = node.name s in
        let free = λ (n : String) (h : 0 < count n (names (s ∷ ss))).
          layer-Free nodes order placed round m left n (rw e h) in
        let once = λ (n : String).
          subst (λ l. count n (names l) ≤ 1) e (layer_once nodes order placed round m left n) in
        let free_x = free x (ground (arith, eq_refl x)) in
        let removed =
          remove_layer-Left nodes adj (s ∷ ss) placed m adjacent free once sorted left in
        (
          ground (
            arith,
            missing-placed_after nodes ss (x ∷ placed),
            missing-cons x placed (names nodes) free_x.1,
            has-count x (names nodes),
          ),
          removed.0,
          removed.1,
        )

    Run-end :
        (f : ℕ) (placed : List String) (round : ℕ) (m : Map ℤ) (layers : List (List A))
        → IsSorted nodes placed
        → Left nodes placed m
        → layer_of order (by_name nodes) round m ≡ []
        → Run placed layers (layers_loop order (by_name nodes) adj (suc f) round m layers)
    Run-end f placed round m layers sorted left e = record {
      degrees = m;
      more = [];
      result = rw append-nil (step_end f round m layers e);
      layered = tt;
      left = left;
      sorted = sorted;
      stuck = empty_layer-stuck nodes order placed round m left e;
    }

    Run-on :
        (f : ℕ) (placed : List String) (round : ℕ) (m : Map ℤ) (layers : List (List A)) (s : A)
        (ss : List A)
        → Left nodes placed m
        → layer_of order (by_name nodes) round m ≡ s ∷ ss
        → Run (placed_after nodes placed (s ∷ ss)) (layers ++ (s ∷ ss) ∷ []) (
            layers_loop order
              (by_name nodes)
              adj
              f
              (suc round)
              (remove_layer adj m (s ∷ ss))
              (layers ++ (s ∷ ss) ∷ []))
        → Run placed layers (layers_loop order (by_name nodes) adj (suc f) round m layers)
    Run-on f placed round m layers s ss left e rest = record {
      degrees = rest.degrees;
      more = (s ∷ ss) ∷ rest.more;
      result =
          step_on f round m layers s ss e
          ∙ rest.result
          ∙ ap (λ l. some (rest.degrees, l)) (append_assoc layers ((s ∷ ss) ∷ []) rest.more);
      layered = (
        subst (All (λ x. Mem x nodes × (missing placed (node.deps x) ≡ 0))) e
            (layer-All nodes order placed round m left),
        rest.layered,
      );
      left = rest.left;
      sorted = rest.sorted;
      stuck = rest.stuck;
    }

    -- The loop from any state of it, with fuel for the nodes that are left.
    pub run :
        (f : ℕ) (placed : List String) (round : ℕ) (m : Map ℤ) (layers : List (List A))
        → missing placed (names nodes) < f
        → IsSorted nodes placed
        → Left nodes placed m
        → Run placed layers (layers_loop order (by_name nodes) adj f round m layers)
    run zero placed round m layers room sorted left = absurd (omega arith)
    run (suc f) placed round m layers room sorted left =
        go (layer_of order (by_name nodes) round m) refl (λ (s : A) (ss : List A) e.
          let (fewer, left', sorted') = round_ready placed round m s ss sorted left e in
          run f (placed_after nodes placed (s ∷ ss)) (suc round) (remove_layer adj m (s ∷ ss))
            (layers ++ (s ∷ ss) ∷ []) (omega arith) sorted' left')
      where
        go :
            (layer : List A)
            → layer_of order (by_name nodes) round m ≡ layer
            → ((s : A) (ss : List A)
                → layer_of order (by_name nodes) round m ≡ s ∷ ss
                → Run (placed_after nodes placed (s ∷ ss)) (layers ++ (s ∷ ss) ∷ []) (
                    layers_loop order
                      (by_name nodes)
                      adj
                      f
                      (suc round)
                      (remove_layer adj m (s ∷ ss))
                      (layers ++ (s ∷ ss) ∷ [])))
            → Run placed layers (layers_loop order (by_name nodes) adj (suc f) round m layers)
        go [] e rec = Run-end f placed round m layers sorted left e
        go (s ∷ ss) e rec = Run-on f placed round m layers s ss left e (rec s ss e)
