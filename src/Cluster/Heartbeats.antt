-- ===== src/Cluster/Heartbeats.antt =====
-- What a round of `checkHeartbeats` does to the nodes, in whatever order it visits them.
use opc_platform.Prelude.{
  ℕ, ◌+◌, ◌≤◌, ◌<◌, String, Bool, true, false, ◌||◌, ◌≡◌, refl, ◌∙◌, ◌≢◌, Option, some, List, [],
  ◌∷◌, if◌then◌else◌, arith, eq_iff, Map, lookup, keys, has_key-count, count, MapOrder,
}
use opc_platform.Cluster.{
  ClusterNode, Manager, ready, not_ready, points_to, check_node, check_key, check_keys,
  check_heartbeats,
}

-- Whether one of the keys is of that node.
visits : ℕ → Map ℕ → List String → Bool
visits r nodes [] = false
visits r nodes (id ∷ ids) = points_to (lookup id nodes) r || visits r nodes ids

visits_of_count :
    (r : ℕ) (nodes : Map ℕ) (ids : List String) (id : String)
    → lookup id nodes ≡ some r
    → 0 < count id ids
    → visits r nodes ids ≡ true
unfolding visits count
visits_of_count r nodes [] id e h = absurd (omega arith)
visits_of_count r nodes (x ∷ ids) id e h =
    ground (arith, e, eq_iff x id, visits_of_count r nodes ids id e)

module _ {F : Type 0} where
  check_node_twice :
      (local_node : Option ℕ) (timeout now r : ℕ) (n : ClusterNode F)
      → let checked = check_node local_node timeout now r n in
        check_node local_node timeout now r checked ≡ checked
  unfolding check_node
  check_node_twice local_node timeout now r n = ground arith

  abbrev checked : ℕ → Manager F → ℕ → ClusterNode F
  checked now m r = check_node m.local_node m.heartbeat_timeout now r (m.heap r)

  -- What a round keeps, and what it does to the nodes that it visits.
  record Checked (now : ℕ) (ids : List String) (m m' : Manager F) : Type 0 where
    at : (r : ℕ) → m'.heap r ≡ (if visits r m.nodes ids then checked now m r else m.heap r)
    same_nodes : m'.nodes ≡ m.nodes
    same_local : m'.local_node ≡ m.local_node
    same_timeout : m'.heartbeat_timeout ≡ m.heartbeat_timeout

  check_key-Checked :
      (now : ℕ) (id : String) (m : Manager F) → Checked now (id ∷ []) m (check_key now id m)
  unfolding check_key visits
  check_key-Checked now id m = record {
    at = λ r. ground arith;
    same_nodes = ground arith;
    same_local = ground arith;
    same_timeout = ground arith;
  }

  check_keys-Checked :
      (now : ℕ) (ids : List String) (m : Manager F) → Checked now ids m (check_keys now ids m)
  unfolding check_keys visits
  check_keys-Checked now [] m = record {
    at = λ r. refl;
    same_nodes = refl;
    same_local = refl;
    same_timeout = refl;
  }
  check_keys-Checked now (id ∷ ids) m =
      let one = check_key-Checked now id m in
      let rest = check_keys-Checked now ids (check_key now id m) in
      record {
        at = λ r. ground (
          arith,
          one.at r,
          rest.at r,
          one.same_nodes,
          one.same_local,
          one.same_timeout,
          check_node_twice m.local_node m.heartbeat_timeout now r (m.heap r),
        );
        same_nodes = rest.same_nodes ∙ one.same_nodes;
        same_local = rest.same_local ∙ one.same_local;
        same_timeout = rest.same_timeout ∙ one.same_timeout;
      }

  -- After a round every node of the table but the local one is not ready if its last heartbeat is
  -- as old as the timeout, and else as it was; the local one, if it is in the table, is ready and
  -- has a heartbeat of this moment.
  pub check_heartbeats_marks :
      (order : MapOrder) (now : ℕ) (m : Manager F) (id : String) (r : ℕ)
      → lookup id m.nodes ≡ some r
      → let after = (check_heartbeats order now m).heap r in
        (m.local_node ≡ some r → (after.status ≡ ready) × (after.last_heartbeat ≡ now))
        × (m.local_node ≢ some r
            → (m.heap r).last_heartbeat + m.heartbeat_timeout ≤ now
            → after ≡ record (m.heap r) { status = not_ready })
        × (m.local_node ≢ some r
            → now < (m.heap r).last_heartbeat + m.heartbeat_timeout
            → after ≡ m.heap r)
  unfolding check_heartbeats check_node
  check_heartbeats_marks order now m id r e =
      let ids = order.range 0 (keys m.nodes) in
      let round = check_keys-Checked now ids m in
      let here : visits r m.nodes ids ≡ true =
        visits_of_count r m.nodes ids id e
          (ground (arith, e, has_key-count id m.nodes, order.range_keeps 0 id (keys m.nodes))) in
      (
        λ is_local. (ground (arith, round.at r, here), ground (arith, round.at r, here)),
        λ remote old. ground (arith, round.at r, here, remote),
        λ remote young. ground (arith, round.at r, here, remote),
      )
