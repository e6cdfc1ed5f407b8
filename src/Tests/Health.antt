-- ===== src/Tests/Health.antt =====
-- An agent that fails its health checks.
use opc_platform.Prelude.{
  ℕ, suc, ◌*◌, ◌≤◌, ◌<◌, ◌≡◌, refl, ◌↔◌, Bool, true, false, none, List, [], ◌∷◌, arith, pos, ltb_ℤ,
}
use opc_platform.Controller.Lifecycle.{
  RecoveryConfig, Durations, LifecycleState, new_lifecycle_state, failure_threshold, restart_limit,
  parse_or_default, calculate_backoff, backoff_of, since, try_restart, check_and_restart,
  max_backoff_delay, default_restart_delay,
}
use opc_platform.Controller.Lifecycle.Restarts.{
  restarts_in, check_and_restart_iff, run_checks, failures_in, run_checks-bounds,
}
use opc_platform.Controller.Lifecycle.Backoff.{calculate_backoff-bounds}

checks : Unit {0}
unfolding new_lifecycle_state failure_threshold restart_limit parse_or_default calculate_backoff
    backoff_of try_restart check_and_restart run_checks
checks = tt

-- The base delay alone, as after no restart.
abbrev plain_durations : Durations
plain_durations = record { parse_duration = λ s. none; scale = λ d n. d }

abbrev config : RecoveryConfig
config = record {
  retries = pos 2;
  enabled = true;
  max_restarts = pos 1;
  restart_delay = "";
  backoff = "";
}

-- Two failures, a restart, and two more, which the limit stops.
abbrev four_failures : List (Bool × ℕ)
four_failures = (false, 1) ∷ (false, 2) ∷ (false, 3) ∷ (false, 20000000000) ∷ []

one_restart : (run_checks plain_durations config four_failures new_lifecycle_state).1 ≡ 1
unfolding checks
one_restart = refl

run_checks-bounds_example :
    let restarts = (run_checks plain_durations config four_failures new_lifecycle_state).1 in
    (restarts ≤ restart_limit config)
    × (restarts * failure_threshold config ≤ failures_in four_failures)
run_checks-bounds_example = run_checks-bounds plain_durations config four_failures

abbrev one_failed : LifecycleState
unfolding checks
one_failed = record new_lifecycle_state { consecutive_failures = 1 }

check_and_restart_iff_example :
    (restarts_in (check_and_restart plain_durations config false 5 one_failed).1 ≡ 1) ↔ (
      (false ≡ false)
      × (failure_threshold config ≤ suc one_failed.consecutive_failures)
      × (config.enabled ≡ true)
      × (one_failed.restart_count < restart_limit config)
      × (ltb_ℤ
            (pos (since 5 one_failed.last_restart))
            (backoff_of plain_durations config one_failed.restart_count)
          ≡ false))
check_and_restart_iff_example = check_and_restart_iff plain_durations config false 5 one_failed

calculate_backoff-bounds_example :
    (ltb_ℤ max_backoff_delay
        (calculate_backoff plain_durations 1 default_restart_delay "exponential")
      ≡ false)
    × (ltb_ℤ
          (calculate_backoff plain_durations 4 (pos 5000000000) "linear")
          (calculate_backoff plain_durations 1 (pos 5000000000) "linear")
        ≡ false)
calculate_backoff-bounds_example =
    calculate_backoff-bounds plain_durations 1 4 5000000000 default_restart_delay "exponential"
      (omega arith) (omega arith)
