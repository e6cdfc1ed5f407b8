-- ===== src/Cluster/Scheduler.antt =====
-- pkg/cluster/scheduler.go: the node for an agent, by affinity and by load.
pub mod Pools
pub mod Selection
use opc_platform.Prelude.{
  String, Bool, true, false, Option, none, some, List, [], ◌∷◌, if◌then◌else◌, ltb, keep, Map,
  lookup, has_key, insert, delete, MapOrder,
}
use opc_platform.Cluster.{NodeStatus, ready, not_ready, leaving, ClusterNode, Manager, list_nodes}

-- `Scheduler`, but for its manager, which the operations take.
pub record Scheduler : Type 0 where
  pub affinity : Map (List String)

unfoldable pub add_affinity : String → List String → Scheduler → Scheduler
add_affinity agent_type ids s = record s { affinity = insert agent_type ids s.affinity }

unfoldable pub remove_affinity : String → Scheduler → Scheduler
remove_affinity agent_type s = record s { affinity = delete agent_type s.affinity }

-- `idSet`.
unfoldable pub id_set : Map (Unit {0}) → List String → Map (Unit {0})
id_set set [] = set
id_set set (id ∷ ids) = id_set (insert id tt set) ids

abbrev pub is_ready : NodeStatus → Bool
is_ready ready = true
is_ready not_ready = false
is_ready leaving = false

module _ {F : Type 0} where
  unfoldable pub filter_ready : List (ClusterNode F) → List (ClusterNode F)
  filter_ready nodes = keep (λ n. is_ready n.status) nodes

  unfoldable pub filter_by_ids : List (ClusterNode F) → List String → List (ClusterNode F)
  unfolding id_set
  filter_by_ids nodes ids = keep (λ n. has_key n.node_id (id_set [] ids)) nodes

  -- The loop over `nodes[1:]`.
  unfoldable pub least_of : ClusterNode F → List (ClusterNode F) → ClusterNode F
  least_of best [] = best
  least_of best (n ∷ nodes) =
      least_of (if ltb n.agent_count best.agent_count then n else best) nodes

  -- `leastLoaded`, which panics on no nodes.
  unfoldable pub least_loaded : List (ClusterNode F) → Option (ClusterNode F)
  unfolding least_of
  least_loaded [] = none
  least_loaded (n ∷ nodes) = some (least_of n nodes)

  -- All of them where none is preferred.
  abbrev pub or_all : List (ClusterNode F) → List (ClusterNode F) → List (ClusterNode F)
  or_all [] nodes = nodes
  or_all (n ∷ preferred) nodes = n ∷ preferred

  -- The nodes that `SelectNode` chooses from; `none` where no node is ready.
  unfoldable pub candidates :
      Option (List String) → List (ClusterNode F) → Option (List (ClusterNode F))
  candidates preferred [] = none
  candidates none (n ∷ nodes) = some (n ∷ nodes)
  candidates (some ids) (n ∷ nodes) = some (or_all (filter_by_ids (n ∷ nodes) ids) (n ∷ nodes))

  -- `none` is the error that no node is ready, and `some none` the panic.
  unfoldable pub select_node :
      MapOrder → Scheduler → String → Manager F → Option (Option (ClusterNode F))
  select_node order s agent_type m =
      elim (candidates (lookup agent_type s.affinity) (filter_ready (list_nodes order m))) [
        | none ↦ none
        | some nodes ↦ some (least_loaded nodes)
      ]
