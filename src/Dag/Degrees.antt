-- ===== src/Dag/Degrees.antt =====
-- What the tables `inDegree` and `adjacency` of the two algorithms hold.
use opc_platform.Prelude.{
  ℕ, ◌+◌, ◌-◌, ◌≤◌, ◌<◌, String, Bool, true, false, ◌||◌, ◌≡◌, refl, none, some, List, [], ◌∷◌,
  ◌++◌, map, arith, str_eq, eq_iff, eq_refl, if◌then◌else◌, ℤ, pos, Map, lookup, keys, hit, count,
  has, length, lookup-insert, lookup-delete, count-keys-insert, count-keys-delete, delete,
  count-append, length-append, Bool-cases, inl, inr, ap, ◌∙◌, lookup_or-insert,
}
use opc_platform.Dag.{
  Node, Tables, next_of, ensure, add_edge, add_edges, add_node, add_nodes, tables_of, decrement,
  decrement_all,
}

-- The map has the live names for keys, each once, and the number of each.
pub record Reads (m : Map ℤ) (live : String → Bool) (f : String → ℕ) : Type 0 where
  pub at : (n : String) → lookup n m ≡ (if live n then some (pos (f n)) else none)
  pub once : (n : String) → count n (keys m) ≡ (if live n then 1 else 0)

pub Reads-congr :
    {m : Map ℤ} {live live' : String → Bool} {f g : String → ℕ}
    → ((n : String) → live n ≡ live' n)
    → ((n : String) → f n ≡ g n)
    → Reads m live f
    → Reads m live' g
Reads-congr same_live same r = record {
  at = λ n. rw (← same_live n, ← same n) (r.at n);
  once = λ n. rw (← same_live n) (r.once n);
}

module _ {m : Map ℤ} {live : String → Bool} {f : String → ℕ} (r : Reads m live f) where
  pub decrement-Reads :
      (k : String) → live k ≡ true → 0 < f k → Reads (decrement k m) live (λ n. f n - hit k n)
  unfolding decrement
  decrement-Reads k alive some_left = record {
    at = λ n. ground (arith, r.at n, r.at k, eq_iff k n, lookup-insert k n (pos (f k - 1)) m);
    once = λ n. ground (arith, r.at k, r.once n, count-keys-insert k n (pos (f k - 1)) m);
  }

pub decrement_all-Reads :
    {live : String → Bool} (ks : List String) {m : Map ℤ} {f : String → ℕ}
    → ((n : String) → 0 < count n ks → live n ≡ true)
    → ((n : String) → count n ks ≤ f n)
    → Reads m live f
    → Reads (decrement_all m ks) live (λ n. f n - count n ks)
unfolding decrement_all count
decrement_all-Reads [] alive room r = Reads-congr (λ n. refl) (λ n. omega arith) r
decrement_all-Reads (k ∷ ks) {f = f} alive room r =
    Reads-congr (λ n. refl) (λ n. omega arith)
      (decrement_all-Reads ks (λ n h. alive n (omega arith)) (λ n. ground (arith, room n))
        (decrement-Reads r k (alive k (ground (arith, eq_refl k)))
          (ground (arith, room k, eq_refl k))))

pub delete-Reads :
    {m : Map ℤ} {live : String → Bool} {f : String → ℕ} (k : String)
    → Reads m live f
    → Reads (delete k m) (λ n. if str_eq k n then false else live n) f
delete-Reads {m} {live} k r = record {
  at = λ n. ground (arith, r.at n, lookup-delete k n m);
  once = λ n. ground (arith, r.once n, count-keys-delete k n m);
}

-- The tables after some nodes: `g x n` is how often `n` stands under `x` in the adjacency lists.
pub record Holds (t : Tables) (live : String → Bool) (f : String → ℕ) (g : String → String → ℕ)
    : Type 0 where
  pub reads : Reads t.degrees live f
  pub under : (x n : String) → count n (next_of x t.adjacency) ≡ g x n

pub Holds-congr :
    {t : Tables} {live live' : String → Bool} {f f' : String → ℕ} {g g' : String → String → ℕ}
    → ((n : String) → live n ≡ live' n)
    → ((n : String) → f n ≡ f' n)
    → ((x n : String) → g x n ≡ g' x n)
    → Holds t live f g
    → Holds t live' f' g'
Holds-congr same_live same_f same_g h = record {
  reads = Reads-congr same_live same_f h.reads;
  under = λ x n. rw (← same_g x n) (h.under x n);
}

module _ {t : Tables} {live : String → Bool} {f : String → ℕ} {g : String → String → ℕ}
    (h : Holds t live f g) where
  ensure-Reads :
      (k : String)
      → ((n : String) → live n ≡ false → f n ≡ 0)
      → Reads (ensure k t.degrees) (λ n. if str_eq k n then true else live n) f
  unfolding ensure
  ensure-Reads k blank = record {
    at = λ n. ground (
      arith,
      h.reads.at n,
      h.reads.at k,
      blank k,
      eq_iff k n,
      lookup-insert k n (pos 0) t.degrees,
    );
    once = λ n. ground (
      arith,
      h.reads.at k,
      h.reads.once n,
      h.reads.once k,
      eq_iff k n,
      count-keys-insert k n (pos 0) t.degrees,
    );
  }

  add_edge-Holds :
      (k dep : String)
      → live k ≡ true
      → Holds
          (add_edge k t dep)
          live
          (λ n. f n + hit k n)
          (λ x n. g x n + (if str_eq dep x then hit k n else 0))
  unfolding add_edge count
  add_edge-Holds k dep alive = record {
    reads = record {
      at = λ n. ground (
        arith,
        h.reads.at n,
        h.reads.at k,
        eq_iff k n,
        lookup-insert k n (pos (f k + 1)) t.degrees,
      );
      once = λ n.
          ground
            (arith, h.reads.at k, h.reads.once n, count-keys-insert k n (pos (f k + 1)) t.degrees);
    };
    under = λ x n.
        ap (count n) (lookup_or-insert dep x (next_of dep t.adjacency ++ k ∷ []) t.adjacency [])
        ∙ elim (Bool-cases (str_eq dep x)) [
          | inl same ↦
              rw (same, count-append n (next_of dep t.adjacency) (k ∷ []))
                (ground (arith, h.under dep n, ap (λ y. g y n) ((eq_iff dep x).0 same)))
          | inr other ↦ rw other (ground (arith, h.under x n))
        ];
  }

add_edges-Holds :
    {live : String → Bool} (k : String) (ds : List String) {t : Tables} {f : String → ℕ}
    {g : String → String → ℕ}
    → live k ≡ true
    → Holds t live f g
    → Holds
        (add_edges k t ds)
        live
        (λ n. f n + (if str_eq k n then length ds else 0))
        (λ x n. g x n + (if str_eq k n then count x ds else 0))
unfolding add_edges count
add_edges-Holds k [] alive h = Holds-congr (λ n. refl) (λ n. ground arith) (λ x n. ground arith) h
add_edges-Holds k (d ∷ ds) alive h =
    Holds-congr (λ n. refl) (λ n. ground arith) (λ x n. ground arith)
      (add_edges-Holds k ds alive (add_edge-Holds h k d alive))

module _ {A : Type 0} ⦃node : Node A⦄ where
  unfoldable pub names : List A → List String
  names ss = map node.name ss

  -- The dependencies that the nodes of one name list, together.
  unfoldable pub deps_of : String → List A → List String
  deps_of n [] = []
  deps_of n (s ∷ ss) =
      let rest = deps_of n ss in if str_eq (node.name s) n then node.deps s ++ rest else rest

  pub deps_of-absent : (n : String) (ss : List A) → has n (names ss) ≡ false → deps_of n ss ≡ []
  unfolding deps_of names has
  deps_of-absent n [] h = refl
  deps_of-absent n (s ∷ ss) h = ground (arith, deps_of-absent n ss)

  add_node-Holds :
      {t : Tables} {live : String → Bool} {f : String → ℕ} {g : String → String → ℕ} (s : A)
      → ((n : String) → live n ≡ false → f n ≡ 0)
      → Holds t live f g
      → Holds
          (add_node t s)
          (λ n. if str_eq (node.name s) n then true else live n)
          (λ n. f n + (if str_eq (node.name s) n then length (node.deps s) else 0))
          (λ x n. g x n + (if str_eq (node.name s) n then count x (node.deps s) else 0))
  unfolding add_node
  add_node-Holds s blank h =
      add_edges-Holds (node.name s) (node.deps s) (ground (arith, eq_refl (node.name s)))
        (record { reads = ensure-Reads h (node.name s) blank; under = h.under })

  add_nodes-Holds :
      (ss : List A) {t : Tables} {live : String → Bool} {f : String → ℕ} {g : String → String → ℕ}
      → ((n : String) → live n ≡ false → f n ≡ 0)
      → Holds t live f g
      → Holds
          (add_nodes t ss)
          (λ n. live n || has n (names ss))
          (λ n. f n + length (deps_of n ss))
          (λ x n. g x n + count x (deps_of n ss))
  unfolding add_nodes deps_of names has count
  add_nodes-Holds [] blank h =
      Holds-congr (λ n. ground arith) (λ n. omega arith) (λ x n. omega arith) h
  add_nodes-Holds (s ∷ ss) {live = live} {f = f} {g = g} blank h =
      Holds-congr (λ n. ground arith)
        (λ n. ground (arith, length-append (node.deps s) (deps_of n ss)))
        (λ x n. ground (arith, count-append x (node.deps s) (deps_of n ss)))
        (add_nodes-Holds ss (λ n. ground (arith, blank n)) (add_node-Holds s blank h))

  -- The tables that both algorithms start from.
  pub tables_of-Holds :
      (nodes : List A)
      → Holds
          (tables_of nodes)
          (λ n. has n (names nodes))
          (λ n. length (deps_of n nodes))
          (λ x n. count x (deps_of n nodes))
  unfolding tables_of lookup keys count
  tables_of-Holds nodes =
      Holds-congr (λ n. refl) (λ n. omega arith) (λ x n. omega arith)
        (add_nodes-Holds nodes {live = λ n. false} {f = λ n. 0} {g = λ x n. 0} (λ n h. refl)
          (record { reads = record { at = λ n. refl; once = λ n. refl }; under = λ x n. refl }))
