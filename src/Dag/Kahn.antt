-- ===== src/Dag/Kahn.antt =====
-- Kahn's algorithm in `validateDAG` and `ValidateProjectDAG`: the nodes that it visits.
pub mod Ranking
use opc_platform.Prelude.{
  ℕ, zero, suc, ◌+◌, ◌-◌, ◌≤◌, ◌<◌, String, Bool, true, false, not, ◌&&◌, ◌||◌, ◌≡◌, refl, ap, ◌∙◌,
  Option, some, List, [], ◌∷◌, ◌++◌, arith, str_eq, eq_iff, eq_refl, if◌then◌else◌, ◌==◌, ℤ,
  is_zero_ℤ, Map, lookup, lookup-insert, keys, hit, count, count-append, count-keep, has, has-count,
  length, length-map, missing, missing-nil, missing-cons, missing_zero, missing_all, MapOrder, pos,
  pred_ℤ,
}
use opc_platform.Dag.{
  Node, degree, next_of, decrement, relax, kahn_loop, tables_of, visited_count, zero_names,
}
use opc_platform.Dag.Degrees.{Reads, Reads-congr, decrement-Reads, tables_of-Holds, names, deps_of}
use opc_platform.Dag.Placing.{
  Free, IsSorted, IsSorted-IsClosed, IsSorted-count, Adjacent, dependent_waits, Ranks, IsKnown,
  all_placed, place_of, place_of-Ranks,
}

-- The queue and what was counted before hold each live name of number 0 once.
abbrev Queued : (String → Bool) → (String → ℕ) → (String → ℕ) → List String → Type 0
Queued live f past q = (n : String) → count n q + past n ≡ (if live n && (f n == 0) then 1 else 0)

push-Queued :
    (live : String → Bool) (past : String → ℕ) (m : Map ℤ) (q : List String) (f : String → ℕ)
    (k : String)
    → live k ≡ true
    → 0 < f k
    → Reads m live f
    → Queued live f past q
    → Queued live
        (λ n. f n - hit k n)
        past
        (if is_zero_ℤ (degree k (decrement k m)) then q ++ k ∷ [] else q)
unfolding decrement count
push-Queued live past m q f k alive room r queued n = ground (
  arith,
  r.at k,
  queued n,
  eq_iff k n,
  eq_refl k,
  lookup-insert k k (pos (f k - 1)) m,
  count-append n q (k ∷ []),
)

relax-Reads :
    (live : String → Bool) (past : String → ℕ) (ks : List String) (m : Map ℤ) (q : List String)
    (f : String → ℕ)
    → ((n : String) → 0 < count n ks → live n ≡ true)
    → ((n : String) → count n ks ≤ f n)
    → Reads m live f
    → Queued live f past q
    → Reads (relax m q ks).0 live (λ n. f n - count n ks)
      × Queued live (λ n. f n - count n ks) past (relax m q ks).1
unfolding relax count
relax-Reads live past [] m q f alive room r queued =
    (Reads-congr (λ n. refl) (λ n. omega arith) r, λ n. ground (arith, queued n))
relax-Reads live past (k ∷ ks) m q f alive room r queued =
    let alive_k = alive k (ground (arith, eq_refl k)) in
    let room_k : 0 < f k = ground (arith, room k, eq_refl k) in
    let (r', queued') =
      relax-Reads live past ks (decrement k m)
        (if is_zero_ℤ (degree k (decrement k m)) then q ++ k ∷ [] else q) (λ n. f n - hit k n)
        (λ n h. alive n (omega arith)) (λ n. ground (arith, room n))
        (decrement-Reads r k alive_k room_k)
        (push-Queued live past m q f k alive_k room_k r queued) in
    (Reads-congr (λ n. refl) (λ n. omega arith) r', λ n. ground (arith, queued' n))

module _ {A : Type 0} ⦃node : Node A⦄ (nodes : List A) where
  -- `inDegree` and the queue once some nodes are visited.
  record State (placed : List String) (m : Map ℤ) (q : List String) : Type 0 where
    sorted : IsSorted nodes placed
    reads : Reads m (λ n. has n (names nodes)) (λ n. missing placed (deps_of n nodes))
    queued :
        Queued
          (λ n. has n (names nodes))
          (λ n. missing placed (deps_of n nodes))
          (λ n. count n placed)
          q

  head-Free :
      (placed : List String) (m : Map ℤ) (x : String) (q : List String)
      → State placed m (x ∷ q)
      → Free nodes placed x
  unfolding count
  head-Free placed m x q state =
      let here = state.queued x in ground (arith, here, eq_refl x, has-count x placed)

  -- A visit keeps the state.
  visit-State :
      (adj : Map (List String)) (placed : List String) (m : Map ℤ) (x : String) (q : List String)
      → Adjacent nodes adj
      → State placed m (x ∷ q)
      → State (x ∷ placed) (relax m q (next_of x adj)).0 (relax m q (next_of x adj)).1
  unfolding count
  visit-State adj placed m x q adjacent state =
      let free = head-Free placed m x q state in
      let closed = IsSorted-IsClosed nodes placed state.sorted in
      let fewer = λ (n : String). missing-cons x placed (deps_of n nodes) free.1 in
      let (reads, queued) =
        relax-Reads (λ n. has n (names nodes)) (λ n. count n (x ∷ placed)) (next_of x adj) m q
          (λ n. missing placed (deps_of n nodes))
          (λ n h. ground (arith, adjacent x n, dependent_waits nodes placed x n closed free))
          (λ n. ground (arith, adjacent x n, fewer n)) state.reads
          (λ n. ground (arith, state.queued n)) in
      record {
        sorted = (free, state.sorted);
        reads = Reads-congr (λ n. refl) (λ n. ground (arith, adjacent x n, fewer n)) reads;
        queued = λ n. ground (arith, queued n, adjacent x n, fewer n);
      }

  -- What the loop comes to: it counts a placing that leaves no free node.
  pub record Visits (r : Option ℕ) : Type 0 where
    pub placed : List String
    pub result : r ≡ some (length placed)
    pub sorted : IsSorted nodes placed
    pub stuck : (n : String) → ¬ Free nodes placed n

  empty_queue-stuck :
      (placed : List String) (m : Map ℤ) → State placed m [] → (n : String) → ¬ Free nodes placed n
  unfolding count
  empty_queue-stuck placed m state n free =
      let here = state.queued n in ground (arith, here, free.0, free.1, free.2, has-count n placed)

  kahn_loop-Visits :
      (adj : Map (List String)) (f : ℕ) (placed : List String) (m : Map ℤ) (q : List String)
      → Adjacent nodes adj
      → missing placed (names nodes) < f
      → State placed m q
      → Visits (kahn_loop adj f m q (length placed))
  unfolding kahn_loop
  kahn_loop-Visits adj zero placed m q adjacent room state = absurd (omega arith)
  kahn_loop-Visits adj (suc f) placed m [] adjacent room state = record {
    placed = placed;
    result = refl;
    sorted = state.sorted;
    stuck = empty_queue-stuck placed m state;
  }
  kahn_loop-Visits adj (suc f) placed m (x ∷ q) adjacent room state =
      let free = head-Free placed m x q state in
      let fewer = missing-cons x placed (names nodes) free.1 in
      kahn_loop-Visits adj f (x ∷ placed) _ _ adjacent
        (ground (arith, fewer, free.0, has-count x (names nodes)))
        (visit-State adj placed m x q adjacent state)

  start-State :
      (order : MapOrder)
      → let t = tables_of nodes in
        State [] t.degrees (zero_names (order.range 0 (keys t.degrees)) t.degrees)
  unfolding zero_names has count
  start-State order =
      let t = tables_of nodes in
      let reads = (tables_of-Holds nodes).reads in
      record {
        sorted = tt;
        reads = Reads-congr (λ n. refl) (λ n. ground (arith, missing-nil (deps_of n nodes))) reads;
        queued = λ n. ground (
          arith,
          reads.at n,
          reads.once n,
          missing-nil (deps_of n nodes),
          order.range_keeps 0 n (keys t.degrees),
          count-keep (λ k. is_zero_ℤ (degree k t.degrees)) n (order.range 0 (keys t.degrees)),
        );
      }

  pub visited_count-Visits : (order : MapOrder) → Visits (visited_count order nodes)
  unfolding visited_count names
  visited_count-Visits order =
      kahn_loop-Visits (tables_of nodes).adjacency (suc (length nodes)) [] _ _
        (tables_of-Holds nodes).under
        (omega (arith, missing-nil (names nodes), length-map node.name nodes)) (start-State order)
