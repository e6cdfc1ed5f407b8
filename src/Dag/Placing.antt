-- ===== src/Dag/Placing.antt =====
-- Nodes are placed one after another. A node may be placed once all that it depends on is.
use opc_platform.Prelude.{
  ℕ, zero, suc, ◌≤◌, ◌<◌, String, true, false, ◌≡◌, List, [], ◌∷◌, arith, str_eq, eq_iff,
  Bool-cases, if◌then◌else◌, inl, inr, Map, count, has, length, has-count, missing, missing-cons,
  missing_zero, missing_all,
}
use opc_platform.Dag.{Node, next_of}
use opc_platform.Dag.Degrees.{names, deps_of, deps_of-absent}

-- What a name's place in the order is.
pub place_of : List String → String → ℕ
place_of [] n = 0
place_of (x ∷ placed) n =
    let rest = place_of placed n in if str_eq x n then suc (length placed) else rest

place_of-le : (placed : List String) (n : String) → place_of placed n ≤ length placed
unfolding place_of
place_of-le [] n = omega arith
place_of-le (x ∷ placed) n = ground (arith, place_of-le placed n)

module _ {A : Type 0} ⦃node : Node A⦄ (nodes : List A) where
  -- All that a placed node depends on is placed.
  abbrev pub IsClosed : List String → Type 0
  IsClosed placed = (n : String) → has n placed ≡ true → missing placed (deps_of n nodes) ≡ 0

  -- A ranking: each node stands above what it depends on. There is one just where there is no cycle.
  abbrev pub Ranks : (String → ℕ) → Type 0
  Ranks rank = (n d : String) → 0 < count d (deps_of n nodes) → rank d < rank n

  -- Every dependency is a node.
  abbrev pub IsKnown : Type 0
  IsKnown = (n d : String) → 0 < count d (deps_of n nodes) → has d (names nodes) ≡ true

  -- What can be placed next.
  abbrev pub Free : List String → String → Type 0
  Free placed x =
      (has x (names nodes) ≡ true) × (has x placed ≡ false) × (missing placed (deps_of x nodes) ≡ 0)

  abbrev pub Adjacent : Map (List String) → Type 0
  Adjacent adj = (x n : String) → count n (next_of x adj) ≡ count x (deps_of n nodes)

  pub place-IsClosed :
      (placed : List String) (x : String) → IsClosed placed → Free placed x → IsClosed (x ∷ placed)
  unfolding has
  place-IsClosed placed x closed free n h = ground (
    arith,
    closed n,
    eq_iff x n,
    missing-cons x placed (deps_of n nodes) free.1,
    missing-cons x placed (deps_of x nodes) free.1,
  )

  -- The names placed, the last one first: each was free when it was placed.
  abbrev pub IsSorted : List String → Type 0
  IsSorted [] = Unit
  IsSorted (x ∷ placed) = Free placed x × IsSorted placed

  pub IsSorted-IsClosed : (placed : List String) → IsSorted placed → IsClosed placed
  unfolding has
  IsSorted-IsClosed [] h n e = cc
  IsSorted-IsClosed (x ∷ placed) h n e =
      place-IsClosed placed x (IsSorted-IsClosed placed h.1) h.0 n e

  -- Each name is placed once at most, and is a node's.
  pub IsSorted-count :
      (placed : List String) (n : String)
      → IsSorted placed
      → (count n placed ≤ 1) × (has n placed ≡ true → has n (names nodes) ≡ true)
  unfolding has count
  IsSorted-count [] n h = (omega arith, λ e. cc)
  IsSorted-count (x ∷ placed) n h =
      let rest = IsSorted-count placed n h.1 in
      (ground (arith, rest.0, has-count n placed, eq_iff x n), ground (arith, rest.1, eq_iff x n))

  place_of-lt :
      (placed : List String) (n d : String)
      → IsSorted placed
      → has n placed ≡ true
      → 0 < count d (deps_of n nodes)
      → place_of placed d < place_of placed n
  unfolding place_of has
  place_of-lt [] n d sorted h m = cc
  place_of-lt (x ∷ placed) n d sorted h m = ground (
    arith,
    eq_iff x n,
    eq_iff x d,
    place_of-le placed d,
    missing_zero d placed (deps_of x nodes) sorted.0.2,
    IsSorted-IsClosed placed sorted.1 n,
    missing_zero d placed (deps_of n nodes),
    place_of-lt placed n d sorted.1,
  )

  -- A placing of all the nodes gives a ranking.
  pub place_of-Ranks :
      (placed : List String)
      → IsSorted placed
      → ((n : String) → has n (names nodes) ≡ true → has n placed ≡ true)
      → Ranks (place_of placed)
  unfolding count
  place_of-Ranks placed sorted all n d m =
      place_of-lt placed n d sorted (all n (ground (arith, deps_of-absent n nodes))) m

  -- What depends on a free node is a node, not yet placed, and another one.
  pub dependent_waits :
      (placed : List String) (x n : String)
      → IsClosed placed
      → Free placed x
      → 0 < count x (deps_of n nodes)
      → (has n (names nodes) ≡ true) × (has n placed ≡ false) × (str_eq x n ≡ false)
  unfolding count
  dependent_waits placed x n closed free h = (
    ground (arith, deps_of-absent n nodes),
    ground (arith, closed n, missing_zero x placed (deps_of n nodes)),
    ground (arith, eq_iff x n, missing_zero x placed (deps_of x nodes)),
  )

  -- With a ranking, a placing that has no free node left has placed them all.
  pub all_placed :
      (placed : List String) (rank : String → ℕ)
      → Ranks rank
      → IsKnown
      → ((n : String) → ¬ Free placed n)
      → (k : ℕ) (n : String) → rank n < k
      → has n (names nodes) ≡ true
      → has n placed ≡ true
  all_placed placed rank ranks known stuck zero n below is_node = absurd (omega arith)
  all_placed placed rank ranks known stuck (suc k) n below is_node =
      elim (Bool-cases (has n placed)) [
        | inl h ↦ h
        | inr h ↦ absurd (
            stuck n (
              is_node,
              h,
              missing_all placed (deps_of n nodes) (λ d m.
                  all_placed placed rank ranks known stuck k d
                    (let lower = ranks n d m in omega arith) (known n d m)),
            ))
      ]
