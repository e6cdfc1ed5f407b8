-- ===== src/Cluster.antt =====
-- pkg/cluster/node.go and manager.go: the nodes, and the membership table of one process. A `*Node`
-- is a reference into the heap, since the table and `localNode` share a node. Time is in
-- nanoseconds. `F` is the type of the usage figures, which no decision reads.
pub mod Membership
pub mod Heartbeats
pub mod Scheduler
use opc_platform.Prelude.{
  ℕ, suc, ◌+◌, String, Bool, true, false, Option, none, some, List, [], ◌∷◌, if◌then◌else◌, ltb,
  ◌==◌, Map, lookup, insert, delete, keys, length, MapOrder,
}

pub data NodeStatus : Type 0 where
  ready not_ready leaving : NodeStatus

pub data NodeRole : Type 0 where
  master worker : NodeRole

pub record ClusterNode (F : Type 0) : Type 0 where
  pub node_id : String
  pub address : String
  pub role : NodeRole
  pub status : NodeStatus
  pub agent_count : ℕ
  pub cpu_usage : F
  pub memory_usage : F
  pub last_heartbeat : ℕ
  pub joined_at : ℕ

-- `Discovery`: whether the calls succeed.
pub record Discovery (F : Type 0) : Type 0 where
  pub register : ClusterNode F → Bool
  pub deregister : String → Bool

pub record Manager (F : Type 0) : Type 0 where
  pub heap : ℕ → ClusterNode F
  pub next : ℕ
  pub local_node : Option ℕ
  pub nodes : Map ℕ
  pub heartbeat_timeout : ℕ
  pub discovery : Option (Discovery F)

pub data ClusterError : Type 0 where
  already_initialized register_failed not_initialized : ClusterError

-- `defaultHeartbeatTimeout`.
abbrev pub default_heartbeat_timeout : ℕ
default_heartbeat_timeout = 30000000000

-- `n == m.localNode`
abbrev pub points_to : Option ℕ → ℕ → Bool
points_to none r = false
points_to (some l) r = l == r

module _ {F : Type 0} where
  unfoldable pub new_node : F → ℕ → String → String → NodeRole → ClusterNode F
  new_node zero_usage now id address role = record {
    node_id = id;
    address = address;
    role = role;
    status = ready;
    agent_count = 0;
    cpu_usage = zero_usage;
    memory_usage = zero_usage;
    last_heartbeat = now;
    joined_at = now;
  }

  unfoldable pub update_heartbeat : ℕ → F → F → ℕ → ClusterNode F → ClusterNode F
  update_heartbeat now cpu memory agents n = record n {
    last_heartbeat = now;
    cpu_usage = cpu;
    memory_usage = memory;
    agent_count = agents;
    status = ready;
  }

  -- `time.Since(n.LastHeartbeat) < timeout`
  unfoldable pub is_healthy : ℕ → ℕ → ClusterNode F → Bool
  is_healthy now timeout n = ltb now (n.last_heartbeat + timeout)

  unfoldable pub set_status : NodeStatus → ClusterNode F → ClusterNode F
  set_status s n = record n { status = s }

  abbrev pub write : ℕ → ClusterNode F → (ℕ → ClusterNode F) → ℕ → ClusterNode F
  write r n heap x = if x == r then n else heap x

  unfoldable pub new_manager : ClusterNode F → Manager F
  new_manager blank = record {
    heap = λ r. blank;
    next = 0;
    local_node = none;
    nodes = [];
    heartbeat_timeout = default_heartbeat_timeout;
    discovery = none;
  }

  -- A node made here becomes the local one and enters the table.
  unfoldable pub adopt : ClusterNode F → Manager F → Manager F
  adopt n m = record m {
    heap = write m.next n m.heap;
    next = suc m.next;
    local_node = some m.next;
    nodes = insert n.node_id m.next m.nodes;
  }

  -- `none` is the error `nil`.
  unfoldable pub init : F → ℕ → String → String → Manager F → Manager F × Option ClusterError
  unfolding adopt new_node
  init zero_usage now id address m = elim m.local_node [
    | some r ↦ (m, some already_initialized)
    | none ↦ (adopt (new_node zero_usage now id address master) m, none)
  ]

  unfoldable pub join : F → ℕ → String → String → Manager F → Manager F × Option ClusterError
  unfolding adopt new_node
  join zero_usage now id address m = elim m.local_node [
    | some r ↦ (m, some already_initialized)
    | none ↦
        let n = new_node zero_usage now id address worker in
        elim m.discovery [
          | none ↦ (adopt n m, none)
          | some d ↦ (adopt n m, if d.register n then none else some register_failed)
        ]
  ]

  -- A failed deregistration is only logged.
  unfoldable pub leave : Manager F → Manager F × Option ClusterError
  unfolding set_status
  leave m = elim m.local_node [
    | none ↦ (m, some not_initialized)
    | some r ↦ (
      record m {
        heap = write r (set_status leaving (m.heap r)) m.heap;
        nodes = delete (m.heap r).node_id m.nodes;
        local_node = none;
      },
      none,
    )
  ]

  -- `AddNode` of the node at a reference.
  unfoldable pub add_node : ℕ → Manager F → Manager F
  add_node r m = record m { nodes = insert (m.heap r).node_id r m.nodes }

  unfoldable pub remove_node : String → Manager F → Manager F
  remove_node id m = record m { nodes = delete id m.nodes }

  unfoldable pub set_discovery : Discovery F → Manager F → Manager F
  set_discovery d m = record m { discovery = some d }

  unfoldable pub get_node : String → Manager F → Option (ClusterNode F)
  get_node id m = elim (lookup id m.nodes) [ none ↦ none | some r ↦ some (m.heap r) ]

  unfoldable pub snapshots : Manager F → List String → List (ClusterNode F)
  snapshots m [] = []
  snapshots m (id ∷ ids) =
      let rest = snapshots m ids in
      elim (lookup id m.nodes) [ none ↦ rest | some r ↦ m.heap r ∷ rest ]

  unfoldable pub list_nodes : MapOrder → Manager F → List (ClusterNode F)
  unfolding snapshots
  list_nodes order m = snapshots m (order.range 0 (keys m.nodes))

  unfoldable pub node_count : Manager F → ℕ
  node_count m = length (keys m.nodes)

  unfoldable pub is_master : Manager F → Bool
  is_master m = elim m.local_node [
    | none ↦ false
    | some r ↦ elim (m.heap r).role [ master ↦ true | worker ↦ false ]
  ]

  -- What `checkHeartbeats` does to one node, given the local node and the timeout.
  unfoldable pub check_node : Option ℕ → ℕ → ℕ → ℕ → ClusterNode F → ClusterNode F
  unfolding update_heartbeat is_healthy set_status
  check_node local_node timeout now r n =
      if points_to local_node r
      then update_heartbeat now n.cpu_usage n.memory_usage n.agent_count n
      else if is_healthy now timeout n
      then n
      else set_status not_ready n

  unfoldable pub check_key : ℕ → String → Manager F → Manager F
  check_key now id m = elim (lookup id m.nodes) [
    | none ↦ m
    | some r ↦ record m {
      heap = write r (check_node m.local_node m.heartbeat_timeout now r (m.heap r)) m.heap;
    }
  ]

  unfoldable pub check_keys : ℕ → List String → Manager F → Manager F
  check_keys now [] m = m
  check_keys now (id ∷ ids) m = check_keys now ids (check_key now id m)

  unfoldable pub check_heartbeats : MapOrder → ℕ → Manager F → Manager F
  unfolding check_keys
  check_heartbeats order now m = check_keys now (order.range 0 (keys m.nodes)) m
