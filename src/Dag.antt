-- ===== src/Dag.antt =====
-- The dependency graphs of pkg/workflow/engine.go and pkg/goal/dag.go, which run the same two
-- algorithms over steps and over projects: Kahn's cycle test, and the grouping into layers.
pub mod Degrees
pub mod Placing
pub mod Index
pub mod Layers
pub mod Kahn
pub mod Validate
use opc_platform.Prelude.{
  ℕ, zero, suc, String, Option, none, some, List, [], ◌∷◌, ◌++◌, map, if◌then◌else◌, ℤ, pos, suc_ℤ,
  pred_ℤ, is_zero_ℤ, Map, lookup_or, has_key, insert, delete, keys, keep, length, MapOrder,
}

-- What the two algorithms read of a step or a project, and Go's zero value of its type.
pub record Node (A : Type 0) : Type 0 where
  pub name : A → String
  pub deps : A → List String
  pub zero_value : A

-- `inDegree` and `adjacency`.
pub record Tables : Type 0 where
  pub degrees : Map ℤ
  pub adjacency : Map (List String)

abbrev pub degree : String → Map ℤ → ℤ
degree k m = lookup_or k m (pos 0)

abbrev pub next_of : String → Map (List String) → List String
next_of k m = lookup_or k m []

-- `if _, ok := inDegree[name]; !ok { inDegree[name] = 0 }`
unfoldable pub ensure : String → Map ℤ → Map ℤ
ensure k m = if has_key k m then m else insert k (pos 0) m

unfoldable pub add_edge : String → Tables → String → Tables
add_edge n t dep = record {
  degrees = insert n (suc_ℤ (degree n t.degrees)) t.degrees;
  adjacency = insert dep (next_of dep t.adjacency ++ n ∷ []) t.adjacency;
}

unfoldable pub add_edges : String → Tables → List String → Tables
add_edges n t [] = t
add_edges n t (dep ∷ ds) = add_edges n (add_edge n t dep) ds

unfoldable pub decrement : String → Map ℤ → Map ℤ
decrement k m = insert k (pred_ℤ (degree k m)) m

unfoldable pub decrement_all : Map ℤ → List String → Map ℤ
decrement_all m [] = m
decrement_all m (k ∷ ks) = decrement_all (decrement k m) ks

-- The keys of degree 0, in the order of the iteration over the map.
unfoldable pub zero_names : (ks : List String) → Map ℤ → List String
zero_names ks m = keep (λ k. is_zero_ℤ (degree k m)) ks

-- The inner loop of Kahn's algorithm: the new degrees and the new queue.
unfoldable pub relax : Map ℤ → List String → List String → Map ℤ × List String
relax m q [] = (m, q)
relax m q (k ∷ ks) =
    let m' = decrement k m in relax m' (if is_zero_ℤ (degree k m') then q ++ k ∷ [] else q) ks

-- The loop `for len(queue) > 0`, with fuel; `none` means that the fuel ran out.
unfoldable pub kahn_loop : Map (List String) → ℕ → Map ℤ → List String → ℕ → Option ℕ
kahn_loop adj zero m q visited = none
kahn_loop adj (suc f) m [] visited = some visited
kahn_loop adj (suc f) m (node ∷ q) visited =
    let (m', q') = relax m q (next_of node adj) in kahn_loop adj f m' q' (suc visited)

-- What a search for an order comes to.
pub data Outcome (B : Type 0) : Type 0 where
  done : B → Outcome B
  cyclic out_of_fuel : Outcome B

module _ {A : Type 0} ⦃node : Node A⦄ where
  unfoldable pub add_node : Tables → A → Tables
  unfolding ensure add_edge add_edges
  add_node t s =
      add_edges (node.name s) (record t { degrees = ensure (node.name s) t.degrees }) (node.deps s)

  unfoldable pub add_nodes : Tables → List A → Tables
  add_nodes t [] = t
  add_nodes t (s ∷ ss) = add_nodes (add_node t s) ss

  unfoldable pub tables_of : List A → Tables
  tables_of nodes = add_nodes (record { degrees = []; adjacency = [] }) nodes

  -- How many nodes Kahn's algorithm visits.
  unfoldable pub visited_count : MapOrder → List A → Option ℕ
  visited_count order nodes =
      let t = tables_of nodes in
      kahn_loop t.adjacency (suc (length nodes)) t.degrees
        (zero_names (order.range 0 (keys t.degrees)) t.degrees) 0

  -- `stepMap` and `projectMap`: a later node of the same name replaces an earlier one.
  unfoldable pub add_names : Map A → List A → Map A
  add_names m [] = m
  add_names m (s ∷ ss) = add_names (insert (node.name s) s m) ss

  unfoldable pub by_name : List A → Map A
  by_name nodes = add_names [] nodes

  -- The nodes of degree 0.
  unfoldable pub layer_of : MapOrder → Map A → ℕ → Map ℤ → List A
  layer_of order index round m =
      map (λ k. lookup_or k index node.zero_value) (zero_names (order.range round (keys m)) m)

  unfoldable pub remove_layer : Map (List String) → Map ℤ → List A → Map ℤ
  remove_layer adj m [] = m
  remove_layer adj m (s ∷ ss) =
      remove_layer adj (decrement_all (delete (node.name s) m) (next_of (node.name s) adj)) ss

  -- The loop `for { … }`, with fuel: what is left of `inDegree`, and the layers.
  unfoldable pub layers_loop :
      MapOrder
      → Map A
      → Map (List String)
      → ℕ
      → ℕ
      → Map ℤ
      → List (List A)
      → Option (Map ℤ × List (List A))
  layers_loop order index adj zero round m layers = none
  layers_loop order index adj (suc f) round m layers = elim (layer_of order index round m) [
    | [] ↦ some (m, layers)
    | s ∷ ss ↦
        layers_loop order index adj f (suc round) (remove_layer adj m (s ∷ ss))
          (layers ++ (s ∷ ss) ∷ [])
  ]

  -- `if len(inDegree) > 0`
  unfoldable pub finish : Option (Map ℤ × List (List A)) → Outcome (List (List A))
  finish none = out_of_fuel
  finish (some ([], layers)) = done layers
  finish (some (x ∷ m, layers)) = cyclic

  unfoldable pub build_layers : MapOrder → List A → Outcome (List (List A))
  unfolding finish
  build_layers order nodes =
      let t = tables_of nodes in
      finish (layers_loop order (by_name nodes) t.adjacency (suc (length nodes)) 0 t.degrees [])
