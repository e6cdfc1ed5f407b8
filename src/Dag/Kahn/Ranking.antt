-- ===== src/Dag/Kahn/Ranking.antt =====
-- The test `visited != len(nodes)`, and rankings of the nodes.
use opc_platform.Prelude.{
  ℕ, suc, ◌+◌, ◌≤◌, String, ◌≡◌, ap, ◌∙◌, some, List, [], ◌∷◌, arith, count, has-count, length,
  length-map, missing, missing-nil, missing-cons, missing_zero, missing_all, MapOrder,
}
use opc_platform.Dag.{Node, visited_count}
use opc_platform.Dag.Degrees.{names}
use opc_platform.Dag.Placing.{IsSorted, Ranks, IsKnown, all_placed, place_of, place_of-Ranks}
use opc_platform.Dag.Kahn.{visited_count-Visits}

module _ {A : Type 0} ⦃node : Node A⦄ (nodes : List A) where
  -- The names are distinct.
  abbrev pub IsDistinct : Type 0
  IsDistinct = (n : String) → count n (names nodes) ≤ 1

  placed_and_missing :
      (placed : List String)
      → IsDistinct
      → IsSorted nodes placed
      → length placed + missing placed (names nodes) ≡ length nodes
  unfolding names
  placed_and_missing [] distinct sorted =
      omega (arith, missing-nil (names nodes), length-map node.name nodes)
  placed_and_missing (x ∷ placed) distinct (free, sorted) = ground (
    arith,
    placed_and_missing placed distinct sorted,
    missing-cons x placed (names nodes) free.1,
    has-count x (names nodes),
    distinct x,
  )

  module _ (order : MapOrder) where
    -- The loop ends within its fuel, and visits no more nodes than there are.
    pub visited_count_total :
        IsDistinct → (v : ℕ) × (visited_count order nodes ≡ some v) × (v ≤ length nodes)
    visited_count_total distinct =
        let r = visited_count-Visits nodes order in
        (length r.placed, r.result, omega (arith, placed_and_missing r.placed distinct r.sorted))

    -- If every node is visited the dependencies can be ranked, so there is no cycle.
    pub Ranks-of_visited :
        IsDistinct
        → visited_count order nodes ≡ some (length nodes)
        → (rank : String → ℕ) × Ranks nodes rank
    Ranks-of_visited distinct e =
        let r = visited_count-Visits nodes order in
        let same : length r.placed ≡ length nodes = ground (arith, r.result) in
        (
          place_of r.placed,
          place_of-Ranks nodes r.placed r.sorted λ n h.
              missing_zero n r.placed (names nodes)
                (omega (arith, placed_and_missing r.placed distinct r.sorted))
                (ground (arith, has-count n (names nodes))),
        )

    -- If the dependencies are nodes and can be ranked, every node is visited.
    pub visited_of_Ranks :
        (rank : String → ℕ)
        → IsDistinct
        → Ranks nodes rank
        → IsKnown nodes
        → visited_count order nodes ≡ some (length nodes)
    visited_of_Ranks rank distinct ranks known =
        let r = visited_count-Visits nodes order in
        let none_missing : missing r.placed (names nodes) ≡ 0 =
          missing_all r.placed (names nodes) λ n m.
            all_placed nodes r.placed rank ranks known r.stuck (suc (rank n)) n (omega arith)
              (ground (arith, has-count n (names nodes))) in
        r.result ∙ ap some (omega (arith, placed_and_missing r.placed distinct r.sorted))
