-- ===== src/Cluster/Membership.antt =====
-- Joining and leaving.
use opc_platform.Prelude.{
  ℕ, String, true, false, ◌≡◌, none, some, if◌then◌else◌, arith, str_eq, insert, lookup,
  lookup-insert, lookup-delete,
}
use opc_platform.Cluster.{
  Discovery, Manager, already_initialized, register_failed, not_initialized, worker, new_node, init,
  join, leave, is_master,
}

module _ {F : Type 0} (usage : F) (now : ℕ) (id address : String) (m : Manager F) where
  -- A node that initialises the cluster is its master; when it leaves, the table is as before but
  -- for the node's own entry, and a second leave is refused.
  pub init-leave :
      m.local_node ≡ none
      → let started = init usage now id address m in
        let left = leave started.0 in
        (started.1 ≡ none)
        × (is_master started.0 ≡ true)
        × (left.1 ≡ none)
        × ((x : String) → lookup x left.0.nodes ≡ (if str_eq id x then none else lookup x m.nodes))
        × ((leave left.0).1 ≡ some not_initialized)
  unfolding init leave is_master
  init-leave h = (
    ground arith,
    ground arith,
    ground arith,
    λ x.
        ground
          (arith, lookup-insert id x m.next m.nodes, lookup-delete id x (insert id m.next m.nodes)),
    ground arith,
  )

  -- A second initialisation is refused, and changes nothing.
  pub join_twice :
      (r : ℕ)
      → m.local_node ≡ some r
      → (init usage now id address m ≡ (m, some already_initialized))
        × (join usage now id address m ≡ (m, some already_initialized))
  unfolding init join
  join_twice r h = (ground arith, ground arith)

  -- When the registration with the master fails, `Join` returns the error, and yet the node stays
  -- the local one: every later `Join` and `Init`, at whatever time, with whatever identifier, address
  -- and usage, is refused as a second initialisation and changes nothing.
  pub join_failed_sticks :
      (d : Discovery F)
      → m.local_node ≡ none
      → m.discovery ≡ some d
      → d.register (new_node usage now id address worker) ≡ false
      → let failed = join usage now id address m in
        (failed.1 ≡ some register_failed)
        × ((other_usage : F) (later : ℕ) (other_id other_address : String)
            → (join other_usage later other_id other_address failed.0
                ≡ (failed.0, some already_initialized))
              × (init other_usage later other_id other_address failed.0
                  ≡ (failed.0, some already_initialized)))
  unfolding join init
  join_failed_sticks d h e f =
      (ground arith, λ other_usage later other_id other_address. (ground arith, ground arith))
