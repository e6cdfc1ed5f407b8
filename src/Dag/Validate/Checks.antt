-- ===== src/Dag/Validate/Checks.antt =====
-- What the checks before Kahn's algorithm find.
use opc_platform.Prelude.{
  ◌+◌, ◌≤◌, ◌<◌, String, true, false, ◌||◌, ◌≡◌, refl, Option, none, List, [], ◌∷◌, arith,
  if◌then◌else◌, str_eq, eq_iff, eq_refl, has_key, insert, lookup-insert, count, count-append, has,
  All,
}
use opc_platform.Dag.{Node}
use opc_platform.Dag.Degrees.{names, deps_of}
use opc_platform.Dag.Validate.{DagError, NameSet, check_deps, check_names, check_all_deps}

check_deps-known :
    (set : NameSet) (name d : String) (ds : List String)
    → check_deps set name ds ≡ none
    → 0 < count d ds
    → (has_key d set ≡ true) × (str_eq d name ≡ false)
unfolding check_deps count
check_deps-known set name d [] e m = absurd (omega arith)
check_deps-known set name d (x ∷ ds) e m = (
  ground (arith, check_deps-known set name d ds, eq_iff x d),
  ground (arith, check_deps-known set name d ds, eq_iff x d, eq_iff d name, eq_iff x name),
)

check_deps_passes :
    (set : NameSet) (name : String) (ds : List String)
    → ((d : String) → 0 < count d ds → (has_key d set ≡ true) × (str_eq d name ≡ false))
    → check_deps set name ds ≡ none
unfolding check_deps count
check_deps_passes set name [] h = refl
check_deps_passes set name (x ∷ ds) h =
    let (known, other) = h x (ground (arith, eq_refl x)) in
    rw (known, other) (check_deps_passes set name ds (λ d m. h d (omega arith)))

module _ {A : Type 0} ⦃node : Node A⦄ (problem : A → Option DagError) where
  -- Where the names pass, no node has a problem, the names are new and distinct, and the set
  -- gains just them.
  pub check_names-ok :
      (set : NameSet) (ss : List A)
      → (check_names problem set ss).1 ≡ none
      → All (λ s. problem s ≡ none) ss
        × ((n : String)
            → (count n (names ss) + (if has_key n set then 1 else 0) ≤ 1)
              × (has_key n (check_names problem set ss).0 ≡ (has_key n set || has n (names ss))))
  unfolding check_names names count has
  check_names-ok set [] e = (tt, λ n. (ground arith, ground arith))
  check_names-ok set (s ∷ ss) e =
      let x = node.name s in
      let fine : problem s ≡ none = ground arith in
      let fresh : has_key x set ≡ false = ground arith in
      let rest = check_names-ok (insert x tt set) ss (ground arith) in
      (
        (fine, rest.0),
        λ n. (
          ground (arith, rest.1 n, eq_iff x n, lookup-insert x n tt set),
          ground (arith, rest.1 n, eq_iff x n, lookup-insert x n tt set),
        ),
      )

  pub check_names_passes :
      (set : NameSet) (ss : List A)
      → All (λ s. problem s ≡ none) ss
      → ((n : String) → count n (names ss) + (if has_key n set then 1 else 0) ≤ 1)
      → (check_names problem set ss).1 ≡ none
  unfolding check_names names count
  check_names_passes set [] fine once = refl
  check_names_passes set (s ∷ ss) fine once =
      let x = node.name s in
      let fresh : has_key x set ≡ false = ground (arith, once x, eq_refl x) in
      let rest =
        check_names_passes (insert x tt set) ss fine.1
          (λ n. ground (arith, once n, eq_iff x n, lookup-insert x n tt set)) in
      ground (arith, fine.0)

module _ {A : Type 0} ⦃node : Node A⦄ where
  pub check_all_deps-known :
      (set : NameSet) (ss : List A) (n d : String)
      → check_all_deps set ss ≡ none
      → 0 < count d (deps_of n ss)
      → (has_key d set ≡ true) × (str_eq d n ≡ false)
  unfolding check_all_deps deps_of count
  check_all_deps-known set [] n d e m = absurd (omega arith)
  check_all_deps-known set (s ∷ ss) n d e m =
      let later = check_all_deps-known set ss n d in
      let here = check_deps-known set (node.name s) d (node.deps s) in
      (
        ground (
          arith,
          later,
          here,
          eq_iff (node.name s) n,
          count-append d (node.deps s) (deps_of n ss),
        ),
        ground (
          arith,
          later,
          here,
          eq_iff (node.name s) n,
          count-append d (node.deps s) (deps_of n ss),
        ),
      )

  pub check_all_deps_passes :
      (set : NameSet) (ss : List A)
      → ((n d : String)
          → 0 < count d (deps_of n ss)
          → (has_key d set ≡ true) × (str_eq d n ≡ false))
      → check_all_deps set ss ≡ none
  unfolding check_all_deps deps_of
  check_all_deps_passes set [] h = refl
  check_all_deps_passes set (s ∷ ss) h =
      let x = node.name s in
      let here =
        check_deps_passes set x (node.deps s)
          (λ d m. h x d (ground (arith, eq_refl x, count-append d (node.deps s) (deps_of x ss)))) in
      let rest =
        check_all_deps_passes set ss
          (λ n d m. h n d (ground (arith, count-append d (node.deps s) (deps_of n ss)))) in
      ground arith
