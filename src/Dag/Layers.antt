-- ===== src/Dag/Layers.antt =====
-- The layers of `buildDAG` and `BuildProjectLayers`.
pub mod Rounds
mod Loop
pub mod Order
use opc_platform.Prelude.{
  ℕ, zero, suc, ◌+◌, ◌-◌, ◌≤◌, ◌<◌, String, Bool, true, false, not, ◌&&◌, ◌||◌, ◌≡◌, refl, List, [],
  ◌∷◌, map, arith, str_eq, eq_iff, if◌then◌else◌, ◌==◌, ℤ, Map, lookup, lookup_or, keys, delete,
  is_zero_ℤ, count, count-keep, has, has-count, missing, missing-cons, missing-nil, MapOrder,
}
use opc_platform.Dag.{
  Node, Tables, degree, next_of, tables_of, zero_names, by_name, layer_of, remove_layer,
  decrement_all,
}
use opc_platform.Dag.Degrees.{
  Reads, Reads-congr, decrement_all-Reads, delete-Reads, tables_of-Holds, names, deps_of,
}
use opc_platform.Dag.Placing.{Free, IsSorted, IsSorted-IsClosed, Adjacent, dependent_waits}
use opc_platform.Dag.Index.{Found, by_name-Found}

module _ {A : Type 0} ⦃node : Node A⦄ (nodes : List A) where
  -- `inDegree` while some nodes are placed: the names left, with what each still waits for.
  abbrev pub Left : List String → Map ℤ → Type 0
  Left placed m =
      Reads m (λ n. has n (names nodes) && not (has n placed))
        (λ n. missing placed (deps_of n nodes))

  pub Left-start : Left [] (tables_of nodes).degrees
  unfolding has
  Left-start =
      Reads-congr (λ n. ground arith) (λ n. ground (arith, missing-nil (deps_of n nodes)))
        (tables_of-Holds nodes).reads

  place-Left :
      (adj : Map (List String)) (placed : List String) (m : Map ℤ) (x : String)
      → Adjacent nodes adj
      → IsSorted nodes placed
      → Free nodes placed x
      → Left placed m
      → Left (x ∷ placed) (decrement_all (delete x m) (next_of x adj))
  unfolding has
  place-Left adj placed m x adjacent sorted free left =
      let closed = IsSorted-IsClosed nodes placed sorted in
      Reads-congr (λ n. ground (arith, eq_iff x n))
        (λ n. ground (arith, adjacent x n, missing-cons x placed (deps_of n nodes) free.1))
        (decrement_all-Reads (next_of x adj)
          (λ n h. ground (arith, adjacent x n, dependent_waits nodes placed x n closed free))
          (λ n. ground (arith, adjacent x n, missing-cons x placed (deps_of n nodes) free.1))
          (delete-Reads x left))

  -- The names placed once a layer is.
  abbrev pub placed_after : List String → List A → List String
  placed_after placed [] = placed
  placed_after placed (s ∷ ss) = placed_after (node.name s ∷ placed) ss

  pub remove_layer-Left :
      (adj : Map (List String)) (layer : List A) (placed : List String) (m : Map ℤ)
      → Adjacent nodes adj
      → ((n : String) → 0 < count n (names layer) → Free nodes placed n)
      → ((n : String) → count n (names layer) ≤ 1)
      → IsSorted nodes placed
      → Left placed m
      → Left (placed_after placed layer) (remove_layer adj m layer)
        × IsSorted nodes (placed_after placed layer)
  unfolding remove_layer names count has
  remove_layer-Left adj [] placed m adjacent free once sorted left = (left, sorted)
  remove_layer-Left adj (s ∷ ss) placed m adjacent free once sorted left =
      let x = node.name s in
      let free_x = free x (ground (arith, eq_iff x x)) in
      remove_layer-Left adj ss (x ∷ placed) _ adjacent
        (λ n h.
          ground
            (arith, free n, once n, eq_iff x n, missing-cons x placed (deps_of n nodes) free_x.1))
        (λ n. ground (arith, once n)) (free_x, sorted)
        (place-Left adj placed m x adjacent sorted free_x left)

module _ {A : Type 0} ⦃node : Node A⦄ (nodes : List A) (order : MapOrder) (round : ℕ)
    (placed : List String) (m : Map ℤ) (left : Left nodes placed m) where
  -- The free names are collected, each once.
  collected :
      (n : String)
      → count n (zero_names (order.range round (keys m)) m) ≡ (
          if (has n (names nodes) && not (has n placed)) && (missing placed (deps_of n nodes) == 0)
          then 1
          else 0)
  unfolding zero_names
  collected n = ground (
    arith,
    left.at n,
    left.once n,
    order.range_keeps round n (keys m),
    count-keep (λ k. is_zero_ℤ (degree k m)) n (order.range round (keys m)),
  )

  -- What is collected is free, and nothing stands there twice.
  pub collected-Free :
      (n : String) → 0 < count n (zero_names (order.range round (keys m)) m) → Free nodes placed n
  collected-Free n h = ground (arith, collected n)

  pub collected_once : (n : String) → count n (zero_names (order.range round (keys m)) m) ≤ 1
  collected_once n = ground (arith, collected n)

  pub Free-collected :
      (n : String) → Free nodes placed n → 0 < count n (zero_names (order.range round (keys m)) m)
  Free-collected n h = ground (arith, collected n)
