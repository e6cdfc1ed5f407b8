-- ===== src/Dag/Validate/Verdict.antt =====
-- The verdict of `validateDAG` and `ValidateProjectDAG`.
use opc_platform.Prelude.{
  ℕ, String, ◌≡◌, ◌↔◌, Option, none, some, List, [], arith, eq_iff, lookup, All, MapOrder, length,
}
use opc_platform.Dag.{Node, visited_count, done, build_layers}
use opc_platform.Dag.Placing.{IsKnown, Ranks}
use opc_platform.Dag.Kahn.Ranking.{IsDistinct, Ranks-of_visited, visited_of_Ranks}
use opc_platform.Dag.Layers.Order.{build_layers_of_Ranks}
use opc_platform.Dag.Validate.{DagError, check_names, check_all_deps, check_count, validate}
use opc_platform.Dag.Validate.Checks.{
  check_names-ok, check_names_passes, check_all_deps-known, check_all_deps_passes,
}

module _ {A : Type 0} ⦃node : Node A⦄ (problem : A → Option DagError) (nodes : List A) where
  -- No node has a problem, the names are distinct, the dependencies are nodes, and they can be
  -- ranked.
  pub record IsValidDag : Type 0 where
    pub fine : All (λ s. problem s ≡ none) nodes
    pub distinct : IsDistinct nodes
    pub known : IsKnown nodes
    pub rank : String → ℕ
    pub ranks : Ranks nodes rank

  check_count-none :
      (seen : Option ℕ) (total : ℕ) → check_count seen total ≡ none → seen ≡ some total
  unfolding check_count
  check_count-none none total e = cc
  check_count-none (some v) total e = ground arith

  module _ (order : MapOrder) where
    validate_parts :
        validate problem order nodes ≡ none
        → ((check_names problem [] nodes).1 ≡ none)
          × (check_all_deps (check_names problem [] nodes).0 nodes ≡ none)
          × (visited_count order nodes ≡ some (length nodes))
    unfolding validate
    validate_parts e = (
      ground arith,
      ground arith,
      check_count-none (visited_count order nodes) (length nodes) (ground arith),
    )

    -- A graph that passes is well formed and has no cycle.
    pub validate-IsValidDag : validate problem order nodes ≡ none → IsValidDag
    unfolding lookup
    validate-IsValidDag e =
        let (named, known, counted) = validate_parts e in
        let (fine, set) = check_names-ok problem [] nodes named in
        let distinct : IsDistinct nodes = λ n. ground (arith, set n) in
        let ranked = Ranks-of_visited nodes order distinct counted in
        record {
          fine = fine;
          distinct = distinct;
          known = λ n d m. ground (
            arith,
            (set d).1,
            (check_all_deps-known (check_names problem [] nodes).0 nodes n d known m).0,
          );
          rank = ranked.0;
          ranks = ranked.1;
        }

    -- A well-formed graph with no cycle passes.
    pub validate_of_IsValidDag : IsValidDag → validate problem order nodes ≡ none
    unfolding validate lookup check_count
    validate_of_IsValidDag valid =
        let named =
          check_names_passes problem [] nodes valid.fine (λ n. omega (arith, valid.distinct n)) in
        let set = (check_names-ok problem [] nodes named).1 in
        let known = check_all_deps_passes (check_names problem [] nodes).0 nodes (λ n d m. (
          ground (arith, (set d).1, valid.known n d m),
          ground (arith, eq_iff d n, valid.ranks n d m),
        )) in
        let counted =
          visited_of_Ranks nodes order valid.rank valid.distinct valid.ranks valid.known in
        ground (arith, named, known, counted)

    -- The tests pass just the graphs whose nodes have no problem and distinct names, and whose
    -- dependencies are nodes and can be ranked, so have no cycle.
    pub validate_iff : (validate problem order nodes ≡ none) ↔ IsValidDag
    validate_iff = (validate-IsValidDag, validate_of_IsValidDag)

    -- A graph that passes is grouped into layers: the error of `buildDAG` cannot occur after it.
    pub validate-build_layers :
        validate problem order nodes ≡ none
        → (layers : List (List A)) × (build_layers order nodes ≡ done layers)
    validate-build_layers e =
        let valid = validate-IsValidDag e in
        build_layers_of_Ranks nodes order valid.rank valid.ranks valid.known
