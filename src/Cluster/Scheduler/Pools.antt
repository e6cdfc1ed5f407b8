-- ===== src/Cluster/Scheduler/Pools.antt =====
-- The pools of nodes that `SelectNode` chooses from, and the least loaded node of a pool.
use mathlib.Core.Path.{subst}
use opc_platform.Prelude.{
  ◌≤◌, String, Bool, true, false, ◌||◌, ◌≡◌, refl, ◌⊎◌, Option, none, some, List, [], ◌∷◌,
  if◌then◌else◌, arith, keep, Map, lookup, has_key, insert, lookup-insert, has, Bool-cases, sym, ap,
  ◌∙◌, inl, inr,
}
use opc_platform.Cluster.{ClusterNode}
use opc_platform.Cluster.Scheduler.{id_set, is_ready, filter_ready, filter_by_ids, least_of}

has_key-id_set :
    (ids : List String) (set : Map (Unit {0})) (id : String)
    → has_key id (id_set set ids) ≡ (has_key id set || has id ids)
unfolding id_set has
has_key-id_set [] set id = ground arith
has_key-id_set (x ∷ ids) set id =
    ground (arith, has_key-id_set ids (insert x tt set) id, lookup-insert x id tt set)

module _ {F : Type 0} where
  -- A node of the list.
  abbrev pub Among : ClusterNode F → List (ClusterNode F) → Type 0
  Among n [] = ⊥
  Among n (x ∷ xs) = (n ≡ x) ⊎ Among n xs

  keep-Among :
      (p : ClusterNode F → Bool) (n : ClusterNode F) (xs : List (ClusterNode F))
      → Among n (keep p xs)
      → Among n xs × (p n ≡ true)
  keep-Among p n [] h = absurd h
  keep-Among p n (x ∷ xs) h = elim (Bool-cases (p x)) [
    | inl holds ↦ elim (subst (λ b. Among n (if b then x ∷ keep p xs else keep p xs)) holds h) [
      | inl here ↦ (inl here, ap p here ∙ holds)
      | inr there ↦ let rest = keep-Among p n xs there in (inr rest.0, rest.1)
    ]
    | inr fails ↦
        let rest =
          keep-Among p n xs
            (subst (λ b. Among n (if b then x ∷ keep p xs else keep p xs)) fails h) in
        (inr rest.0, rest.1)
  ]

  pub Among-keep :
      (p : ClusterNode F → Bool) (n : ClusterNode F) (xs : List (ClusterNode F))
      → Among n xs
      → p n ≡ true
      → Among n (keep p xs)
  Among-keep p n [] h e = h
  Among-keep p n (x ∷ xs) (inl here) e =
      subst (λ b. Among n (if b then x ∷ keep p xs else keep p xs)) (sym (ap p (sym here) ∙ e))
        (inl here)
  Among-keep p n (x ∷ xs) (inr there) e = elim (Bool-cases (p x)) [
    | inl holds ↦
        subst (λ b. Among n (if b then x ∷ keep p xs else keep p xs)) (sym holds)
          (inr (Among-keep p n xs there e))
    | inr fails ↦
        subst (λ b. Among n (if b then x ∷ keep p xs else keep p xs)) (sym fails)
          (Among-keep p n xs there e)
  ]

  least_of-Among :
      (best : ClusterNode F) (nodes : List (ClusterNode F))
      → Among (least_of best nodes) (best ∷ nodes)
  unfolding least_of
  least_of-Among best [] = inl refl
  least_of-Among best (n ∷ nodes) =
      ground (arith, least_of-Among best nodes, least_of-Among n nodes)

  least_of-le :
      (best : ClusterNode F) (nodes : List (ClusterNode F))
      → ((least_of best nodes).agent_count ≤ best.agent_count)
        × ((x : ClusterNode F) → Among x nodes → (least_of best nodes).agent_count ≤ x.agent_count)
  unfolding least_of
  least_of-le best [] = (omega arith, λ x h. absurd h)
  least_of-le best (n ∷ nodes) = ground (arith, least_of-le best nodes, least_of-le n nodes)

  -- Whether the affinity of the agent's type names the node.
  abbrev pub prefers : Option (List String) → ClusterNode F → Bool
  prefers none n = false
  prefers (some ids) n = has n.node_id ids

  -- A ready node of the list that the rule prefers if it prefers any ready one, and that carries
  -- no more agents than any ready node which is preferred alike.
  pub record IsBest (preferred : Option (List String)) (nodes : List (ClusterNode F))
      (n : ClusterNode F) : Type 0 where
    pub listed : Among n nodes
    pub is_up : is_ready n.status ≡ true
    pub favoured :
        (x : ClusterNode F)
        → Among x nodes
        → is_ready x.status ≡ true
        → prefers preferred x ≡ true
        → prefers preferred n ≡ true
    pub lightest :
        (x : ClusterNode F)
        → Among x nodes
        → is_ready x.status ≡ true
        → prefers preferred x ≡ prefers preferred n
        → n.agent_count ≤ x.agent_count

  pub filter_by_ids-prefers :
      (ids : List String) (n : ClusterNode F)
      → has_key n.node_id (id_set [] ids) ≡ has n.node_id ids
  unfolding lookup
  filter_by_ids-prefers ids n = has_key-id_set ids [] n.node_id

  -- A pool that holds, of the ready nodes, all those that are preferred alike.
  pub record IsPool (preferred : Option (List String)) (nodes pool : List (ClusterNode F))
      : Type 0 where
    pub inside : (x : ClusterNode F) → Among x pool → Among x nodes × (is_ready x.status ≡ true)
    pub ahead :
        (x y : ClusterNode F)
        → Among x pool
        → Among y nodes
        → is_ready y.status ≡ true
        → prefers preferred y ≡ true
        → prefers preferred x ≡ true
    pub whole :
        (x y : ClusterNode F)
        → Among x pool
        → Among y nodes
        → is_ready y.status ≡ true
        → prefers preferred y ≡ prefers preferred x
        → Among y pool

  pub pool-IsBest :
      (preferred : Option (List String)) (nodes : List (ClusterNode F)) (n : ClusterNode F)
      (rest : List (ClusterNode F))
      → IsPool preferred nodes (n ∷ rest)
      → IsBest preferred nodes (least_of n rest)
  pool-IsBest preferred nodes n rest pool =
      let best = least_of n rest in
      let chosen = least_of-Among n rest in
      record {
        listed = (pool.inside best chosen).0;
        is_up = (pool.inside best chosen).1;
        favoured = λ x. pool.ahead best x chosen;
        lightest = λ x l r e. elim (pool.whole best x chosen l r e) [
          | inl here ↦
              subst (λ y. best.agent_count ≤ y.agent_count) (sym here) (least_of-le n rest).0
          | inr there ↦ (least_of-le n rest).1 x there
        ];
      }

  pub all_ready-IsPool :
      (preferred : Option (List String)) (nodes : List (ClusterNode F))
      → ((y : ClusterNode F) → Among y (filter_ready nodes) → prefers preferred y ≡ false)
      → IsPool preferred nodes (filter_ready nodes)
  unfolding filter_ready
  all_ready-IsPool preferred nodes unpreferred = record {
    inside = λ x. keep-Among (λ n. is_ready n.status) x nodes;
    ahead = λ x y a l r e.
        ground (arith, unpreferred y (Among-keep (λ n. is_ready n.status) y nodes l r));
    whole = λ x y a l r e. Among-keep (λ n. is_ready n.status) y nodes l r;
  }

  pub filter_by_ids-IsPool :
      (ids : List String) (nodes : List (ClusterNode F))
      → IsPool (some ids) nodes (filter_by_ids (filter_ready nodes) ids)
  unfolding filter_ready filter_by_ids
  filter_by_ids-IsPool ids nodes =
      let named : ClusterNode F → Bool = λ n. has_key n.node_id (id_set [] ids) in
      let up : ClusterNode F → Bool = λ n. is_ready n.status in
      record {
        inside = λ x a. keep-Among up x nodes (keep-Among named x (keep up nodes) a).0;
        ahead = λ x y a l r e.
            sym (filter_by_ids-prefers ids x) ∙ (keep-Among named x (keep up nodes) a).1;
        whole = λ x y a l r e. Among-keep named y (keep up nodes) (Among-keep up y nodes l r) (
            filter_by_ids-prefers ids y
            ∙ e
            ∙ sym (filter_by_ids-prefers ids x)
            ∙ (keep-Among named x (keep up nodes) a).1);
      }
