-- ===== src/Dag/Index.antt =====
-- What `stepMap` of `buildDAG` and `projectMap` of `BuildProjectLayers` hold.
use mathlib.Core.List.{Mem, mem-cons_self, mem-cons_of_mem}
use opc_platform.Prelude.{
  ◌<◌, String, true, false, ◌≡◌, refl, ◌∙◌, some, List, [], ◌∷◌, arith, eq_iff, Bool-cases, inl,
  inr, Map, lookup, insert, lookup-insert, count, count-append, has,
}
use opc_platform.Dag.{Node, add_names, by_name}
use opc_platform.Dag.Degrees.{names, deps_of}

module _ {A : Type 0} ⦃node : Node A⦄ where
  -- A node of that name.
  pub record Found (n : String) (index : Map A) (ss : List A) : Type 0 where
    pub node_of : A
    pub found : lookup n index ≡ some node_of
    pub named : node.name node_of ≡ n
    pub member : Mem node_of ss
    pub fewer : (d : String) → 0 < count d (node.deps node_of) → 0 < count d (deps_of n ss)

  lookup-add_names :
      (ss : List A) (n : String) (m : Map A)
      → has n (names ss) ≡ false
      → lookup n (add_names m ss) ≡ lookup n m
  unfolding add_names names has
  lookup-add_names [] n m h = refl
  lookup-add_names (s ∷ ss) n m h =
      lookup-add_names ss n _ (ground arith) ∙ ground (arith, lookup-insert (node.name s) n s m)

  add_names-Found :
      (ss : List A) (n : String) (m : Map A) → has n (names ss) ≡ true → Found n (add_names m ss) ss
  unfolding add_names names has deps_of
  add_names-Found [] n m h = cc
  add_names-Found (s ∷ ss) n m h = elim (Bool-cases (has n (names ss))) [
    | inl later ↦
        let rest = add_names-Found ss n (insert (node.name s) s m) later in
        record {
          node_of = rest.node_of;
          found = rest.found;
          named = rest.named;
          member = mem-cons_of_mem s rest.member;
          fewer = λ d e. ground (
            arith,
            rest.fewer d e,
            count-append d (node.deps s) (deps_of n ss),
            eq_iff (node.name s) n,
          );
        }
    | inr here ↦ record {
      node_of = s;
      found = lookup-add_names ss n _ here ∙ ground (arith, lookup-insert (node.name s) n s m);
      named = ground (arith, eq_iff (node.name s) n);
      member = mem-cons_self;
      fewer = λ d e.
          ground (arith, count-append d (node.deps s) (deps_of n ss), eq_iff (node.name s) n);
    }
  ]

  pub by_name-Found :
      (nodes : List A) (n : String) → has n (names nodes) ≡ true → Found n (by_name nodes) nodes
  unfolding by_name
  by_name-Found nodes n h = add_names-Found nodes n [] h
