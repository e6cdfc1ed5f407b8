-- ===== src/Cluster/Scheduler/Selection.antt =====
-- The node that `SelectNode` picks.
use mathlib.Core.Path.{subst}
use opc_platform.Prelude.{
  String, Bool, false, ◌≡◌, refl, ◌⊎◌, Option, none, some, List, [], ◌∷◌, keep, lookup, has_key,
  has, MapOrder, Bool-cases, sym, ap, ◌∙◌, inl, inr,
}
use opc_platform.Cluster.{ClusterNode, Manager, list_nodes}
use opc_platform.Cluster.Scheduler.{
  Scheduler, id_set, is_ready, filter_ready, filter_by_ids, least_of, least_loaded, candidates,
  or_all, select_node,
}
use opc_platform.Cluster.Scheduler.Pools.{
  Among, Among-keep, prefers, IsBest, IsPool, filter_by_ids-prefers, pool-IsBest, all_ready-IsPool,
  filter_by_ids-IsPool,
}

module _ {F : Type 0} where
  -- What `SelectNode` chooses among the listed nodes.
  abbrev choice : Option (List String) → List (ClusterNode F) → Option (Option (ClusterNode F))
  choice preferred nodes = elim (candidates preferred (filter_ready nodes)) [
    | none ↦ none
    | some pool ↦ some (least_loaded pool)
  ]

  -- No listed node is ready.
  abbrev pub NoneReady : List (ClusterNode F) → Type 0
  NoneReady nodes = (x : ClusterNode F) → Among x nodes → is_ready x.status ≡ false

  abbrev Chosen :
      Option (List String) → List (ClusterNode F) → Option (Option (ClusterNode F)) → Type 0
  Chosen preferred nodes o =
      ((o ≡ none) × NoneReady nodes)
      ⊎ ((best : ClusterNode F) × (o ≡ some (some best)) × IsBest preferred nodes best)

  nothing-Among :
      (p : ClusterNode F → Bool) (xs : List (ClusterNode F))
      → keep p xs ≡ []
      → (y : ClusterNode F) → Among y xs
      → p y ≡ false
  nothing-Among p xs e y a = elim (Bool-cases (p y)) [
    | inl holds ↦ absurd (subst (Among y) e (Among-keep p y xs a holds))
    | inr fails ↦ fails
  ]

  none_up : (nodes : List (ClusterNode F)) → filter_ready nodes ≡ [] → NoneReady nodes
  unfolding filter_ready
  none_up nodes e = nothing-Among (λ n. is_ready n.status) nodes e

  unnamed :
      (ids : List String) (ups : List (ClusterNode F))
      → filter_by_ids ups ids ≡ []
      → (y : ClusterNode F) → Among y ups
      → has y.node_id ids ≡ false
  unfolding filter_by_ids
  unnamed ids ups e y a =
      sym (filter_by_ids-prefers ids y)
      ∙ nothing-Among (λ n. has_key n.node_id (id_set [] ids)) ups e y a

  pool-Chosen :
      (preferred : Option (List String)) (nodes : List (ClusterNode F)) (n : ClusterNode F)
      (rest : List (ClusterNode F))
      → IsPool preferred nodes (n ∷ rest)
      → Chosen preferred nodes (some (least_loaded (n ∷ rest)))
  unfolding least_loaded
  pool-Chosen preferred nodes n rest pool =
      inr (least_of n rest, refl, pool-IsBest preferred nodes n rest pool)

  choice-Chosen :
      (preferred : Option (List String)) (nodes : List (ClusterNode F))
      → Chosen preferred nodes (choice preferred nodes)
  unfolding candidates
  choice-Chosen preferred nodes = go preferred (filter_ready nodes) refl
    where
      first :
          (p : Option (List String)) (ups : List (ClusterNode F)) (n : ClusterNode F)
          (rest : List (ClusterNode F))
          → ((y : ClusterNode F) → Among y ups → prefers p y ≡ false)
          → filter_ready nodes ≡ ups
          → ups ≡ n ∷ rest
          → Chosen p nodes (some (least_loaded (n ∷ rest)))
      first p ups n rest none_preferred e same = pool-Chosen p nodes n rest (
          subst (IsPool p nodes) (e ∙ same)
            (all_ready-IsPool p nodes (λ y a. none_preferred y (subst (Among y) e a))))

      by_ids :
          (ids : List String) (n : ClusterNode F) (rest named : List (ClusterNode F))
          → filter_ready nodes ≡ n ∷ rest
          → filter_by_ids (n ∷ rest) ids ≡ named
          → Chosen (some ids) nodes (some (least_loaded (or_all named (n ∷ rest))))
      by_ids ids n rest [] e f =
          first (some ids) (n ∷ rest) n rest (unnamed ids (n ∷ rest) f) e refl
      by_ids ids n rest (a ∷ others) e f = pool-Chosen (some ids) nodes a others (
          subst (IsPool (some ids) nodes) (ap (λ ups. filter_by_ids ups ids) e ∙ f)
            (filter_by_ids-IsPool ids nodes))

      go :
          (p : Option (List String)) (ups : List (ClusterNode F))
          → filter_ready nodes ≡ ups
          → Chosen p nodes
              (elim (candidates p ups) [ none ↦ none | some pool ↦ some (least_loaded pool) ])
      go p [] e = inl (refl, none_up nodes e)
      go none (n ∷ rest) e = first none (n ∷ rest) n rest (λ y a. refl) e refl
      go (some ids) (n ∷ rest) e = by_ids ids n rest (filter_by_ids (n ∷ rest) ids) e refl

  -- `SelectNode` reports that no node is ready just where none of the listed ones is; else it picks
  -- one that is ready, that the affinity names if it names any ready one, and that runs no more
  -- agents than any ready node the affinity treats alike. It never indexes an empty list.
  pub select_node-IsBest :
      (order : MapOrder) (s : Scheduler) (agent_type : String) (m : Manager F)
      → let nodes = list_nodes order m in
        let preferred = lookup agent_type s.affinity in
        let picked = select_node order s agent_type m in
        ((picked ≡ none) × NoneReady nodes)
        ⊎ ((best : ClusterNode F) × (picked ≡ some (some best)) × IsBest preferred nodes best)
  unfolding select_node
  select_node-IsBest order s agent_type m =
      choice-Chosen (lookup agent_type s.affinity) (list_nodes order m)
