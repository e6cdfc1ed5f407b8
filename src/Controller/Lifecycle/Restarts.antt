-- ===== src/Controller/Lifecycle/Restarts.antt =====
-- When an agent is restarted, and how often.
use native.Mathlib.Nat.{add-mul}
use opc_platform.Prelude.{
  ℕ, suc, ◌+◌, ◌*◌, ◌≤◌, ◌<◌, Bool, true, false, ◌≡◌, ◌↔◌, List, [], ◌∷◌, if◌then◌else◌, arith,
  ltb_ℤ, pos,
}
use opc_platform.Controller.Lifecycle.{
  RecoveryConfig, Durations, LifecycleState, Effect, update_phase, restart_agent,
  new_lifecycle_state, failure_threshold, restart_limit, backoff_of, since, check_and_restart,
}

abbrev pub restarts_in : List Effect → ℕ
restarts_in [] = 0
restarts_in (update_phase p ∷ effects) = restarts_in effects
restarts_in (restart_agent ∷ effects) = suc (restarts_in effects)

abbrev pub failures_in : List (Bool × ℕ) → ℕ
failures_in [] = 0
failures_in ((healthy, now) ∷ checks) = (if healthy then 0 else 1) + failures_in checks

module _ (durations : Durations) (config : RecoveryConfig) where
  -- A check restarts the agent just where it fails, as many checks in a row have failed as the
  -- threshold says, recovery is enabled, the limit is not reached, and the backoff is over.
  pub check_and_restart_iff :
      (healthy : Bool) (now : ℕ) (ls : LifecycleState)
      → (restarts_in (check_and_restart durations config healthy now ls).1 ≡ 1) ↔ (
          (healthy ≡ false)
          × (failure_threshold config ≤ suc ls.consecutive_failures)
          × (config.enabled ≡ true)
          × (ls.restart_count < restart_limit config)
          × (ltb_ℤ (pos (since now ls.last_restart)) (backoff_of durations config ls.restart_count)
              ≡ false))
  unfolding check_and_restart
  check_and_restart_iff healthy now ls = (
    λ e. (
      ground (arith, e),
      ground (arith, e),
      ground (arith, e),
      ground (arith, e),
      ground (arith, e),
    ),
    λ c. ground (arith, c.0, c.1, c.2, c.3, c.4),
  )

  -- What a check does to the counters.
  record Counts (healthy : Bool) (ls ls' : LifecycleState) (restarts : ℕ) : Type 0 where
    counted : ls'.restart_count ≡ ls.restart_count + restarts
    within : ls.restart_count ≤ restart_limit config → ls'.restart_count ≤ restart_limit config
    paid :
        restarts * failure_threshold config + ls'.consecutive_failures
        ≤ ls.consecutive_failures + (if healthy then 0 else 1)

  check_and_restart-Counts :
      (healthy : Bool) (now : ℕ) (ls : LifecycleState)
      → let checked = check_and_restart durations config healthy now ls in
        Counts healthy ls checked.0 (restarts_in checked.1)
  unfolding check_and_restart
  check_and_restart-Counts healthy now ls = record {
    counted = ground arith;
    within = ground arith;
    paid = ground arith;
  }

  -- Checks one after another, each with its verdict and its time: the state, and the restarts.
  unfoldable pub run_checks : List (Bool × ℕ) → LifecycleState → LifecycleState × ℕ
  unfolding check_and_restart
  run_checks [] ls = (ls, 0)
  run_checks ((healthy, now) ∷ checks) ls =
      let checked = check_and_restart durations config healthy now ls in
      let (ls', restarts) = run_checks checks checked.0 in (ls', restarts_in checked.1 + restarts)

  run_checks-Counts :
      (checks : List (Bool × ℕ)) (ls : LifecycleState)
      → ls.restart_count ≤ restart_limit config
      → let ran = run_checks checks ls in
        (ran.0.restart_count ≡ ls.restart_count + ran.1)
        × (ran.0.restart_count ≤ restart_limit config)
        × (ran.1 * failure_threshold config + ran.0.consecutive_failures
            ≤ ls.consecutive_failures + failures_in checks)
  unfolding run_checks
  run_checks-Counts [] ls h = (omega arith, h, omega arith)
  run_checks-Counts ((healthy, now) ∷ checks) ls h =
      let checked = check_and_restart durations config healthy now ls in
      let one = check_and_restart-Counts healthy now ls in
      let rest = run_checks-Counts checks checked.0 (one.within h) in
      (
        omega (arith, one.counted, rest.0),
        rest.1,
        omega (
          arith,
          one.paid,
          rest.2,
          add-mul (restarts_in checked.1) (run_checks checks checked.0).1
              (failure_threshold config),
        ),
      )

  -- However the checks go, a fresh agent is restarted at most as often as the limit says, and each
  -- restart is paid for by as many failed checks as the threshold says.
  pub run_checks-bounds :
      (checks : List (Bool × ℕ))
      → let restarts = (run_checks checks new_lifecycle_state).1 in
        (restarts ≤ restart_limit config)
        × (restarts * failure_threshold config ≤ failures_in checks)
  unfolding new_lifecycle_state
  run_checks-bounds checks =
      let ran = run_checks-Counts checks new_lifecycle_state (omega arith) in
      (omega (arith, ran.0, ran.1), omega (arith, ran.2))
