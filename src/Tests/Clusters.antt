-- ===== src/Tests/Clusters.antt =====
-- A cluster of two nodes.
use opc_platform.Prelude.{
  ℕ, ◌≡◌, refl, ◌≢◌, ◌⊎◌, ◌≤◌, ◌+◌, ◌<◌, true, false, String, none, some, [], ◌∷◌, if◌then◌else◌,
  str_eq, lookup, insert, delete, keys,
}
use opc_platform.Cluster.{
  add_node,
  write,
  ClusterNode,
  Manager,
  Discovery,
  ready,
  not_ready,
  worker,
  already_initialized,
  register_failed,
  not_initialized,
  new_node,
  update_heartbeat,
  is_healthy,
  set_status,
  new_manager,
  adopt,
  init,
  join,
  leave,
  set_discovery,
  list_nodes,
  snapshots,
  check_key,
  check_keys,
  check_node,
  check_heartbeats,
  is_master,
  ClusterNode.{},
}
use opc_platform.Cluster.Membership.{init-leave, join_failed_sticks}
use opc_platform.Cluster.Heartbeats.{check_heartbeats_marks}
use opc_platform.Cluster.Scheduler.{
  Scheduler, add_affinity, id_set, filter_ready, filter_by_ids, least_of, least_loaded, candidates,
  select_node,
}
use opc_platform.Cluster.Scheduler.Pools.{IsBest}
use opc_platform.Cluster.Scheduler.Selection.{NoneReady, select_node-IsBest}
use opc_platform.Tests.Samples.{plain_order}

clusters : Unit {0}
unfolding lookup insert delete keys new_node update_heartbeat is_healthy set_status new_manager
    adopt init join leave add_node set_discovery list_nodes snapshots check_node check_key
    check_keys check_heartbeats is_master add_affinity id_set filter_ready filter_by_ids least_of
    least_loaded candidates select_node
clusters = tt

abbrev blank : ClusterNode ℕ
unfolding clusters
blank = new_node 0 0 "" "" worker

abbrev empty_manager : Manager ℕ
unfolding clusters
empty_manager = new_manager blank

-- The master "m", and "w" with two agents.
abbrev pair : Manager ℕ
unfolding clusters
pair =
    let m = (init 0 5 "m" "here" empty_manager).0 in
    add_node 1 (record m {
      heap = write 1 (update_heartbeat 7 0 0 2 (new_node 0 6 "w" "there" worker)) m.heap;
      next = 2;
    })

abbrev rules : Scheduler
unfolding clusters
rules = add_affinity "big" ("w" ∷ []) (record { affinity = [] })

select_big : select_node plain_order rules "big" pair ≡ some (some (pair.heap 1))
unfolding clusters
select_big = refl

select_other : select_node plain_order rules "other" pair ≡ some (some (pair.heap 0))
unfolding clusters
select_other = refl

select_node-IsBest_example :
    ((select_node plain_order rules "big" pair ≡ none) × NoneReady (list_nodes plain_order pair))
    ⊎ ((best : ClusterNode ℕ) × (select_node plain_order rules "big" pair ≡ some (some best))
        × IsBest (lookup "big" rules.affinity) (list_nodes plain_order pair) best)
select_node-IsBest_example = select_node-IsBest plain_order rules "big" pair

abbrev refusing : Discovery ℕ
refusing = record { register = λ n. false; deregister = λ id. true }

join_failed_sticks_example :
    let failed = join 0 9 "x" "far" (set_discovery refusing empty_manager) in
    (failed.1 ≡ some register_failed)
    × ((other_usage later : ℕ) (other_id other_address : String)
        → (join other_usage later other_id other_address failed.0
            ≡ (failed.0, some already_initialized))
          × (init other_usage later other_id other_address failed.0
              ≡ (failed.0, some already_initialized)))
unfolding clusters
join_failed_sticks_example =
    join_failed_sticks 0 9 "x" "far" (set_discovery refusing empty_manager) refusing refl refl refl

init-leave_example :
    let started = init 0 5 "m" "here" empty_manager in
    let left = leave started.0 in
    (started.1 ≡ none)
    × (is_master started.0 ≡ true)
    × (left.1 ≡ none)
    × ((x : String)
        → lookup x left.0.nodes ≡ (if str_eq "m" x then none else lookup x empty_manager.nodes))
    × ((leave left.0).1 ≡ some not_initialized)
unfolding clusters
init-leave_example = init-leave 0 5 "m" "here" empty_manager refl

check_heartbeats_marks_example :
    let after = (check_heartbeats plain_order 40000000000 pair).heap 1 in
    (pair.local_node ≡ some 1 → (after.status ≡ ready) × (after.last_heartbeat ≡ 40000000000))
    × (pair.local_node ≢ some 1
        → (pair.heap 1).last_heartbeat + pair.heartbeat_timeout ≤ 40000000000
        → after ≡ record (pair.heap 1) { status = not_ready })
    × (pair.local_node ≢ some 1
        → 40000000000 < (pair.heap 1).last_heartbeat + pair.heartbeat_timeout
        → after ≡ pair.heap 1)
unfolding clusters
check_heartbeats_marks_example = check_heartbeats_marks plain_order 40000000000 pair "w" 1 refl
