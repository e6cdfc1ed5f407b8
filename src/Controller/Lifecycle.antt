-- ===== src/Controller/Lifecycle.antt =====
-- pkg/controller/lifecycle.go: the health checks of one agent and its automatic restarts. Durations
-- are `int64` nanoseconds, times are nanoseconds, and `none` is the zero time.
pub mod Restarts
pub mod Backoff
use opc_platform.Prelude.{
  ℕ, zero, suc, ◌+◌, ◌-◌, ◌*◌, ◌%◌, ◌^◌, String, Bool, true, false, not, Option, none, some, List,
  [], ◌∷◌, if◌then◌else◌, ltb, leb, str_eq, ℤ, pos, negsuc, ltb_ℤ,
}

-- `AgentSpec.HealthCheck.Retries` and `AgentSpec.Recovery`.
pub record RecoveryConfig : Type 0 where
  pub retries : ℤ
  pub enabled : Bool
  pub max_restarts : ℤ
  pub restart_delay : String
  pub backoff : String

-- What is not under this repository: `time.ParseDuration`, and
-- `time.Duration(float64(d) * math.Pow(2, float64(n)))`.
pub record Durations : Type 0 where
  pub parse_duration : String → Option ℤ
  pub scale : ℤ → ℕ → ℤ

pub record LifecycleState : Type 0 where
  pub restart_count : ℕ
  pub last_restart : Option ℕ
  pub consecutive_failures : ℕ
  pub last_health_status : Bool
  pub last_health_check_at : ℕ

pub data Phase : Type 0 where
  retrying failed : Phase

-- What a check does to the world: it writes the agent's phase, and starts the restart.
pub data Effect : Type 0 where
  update_phase : Phase → Effect
  restart_agent : Effect

abbrev pub default_failure_threshold : ℕ
default_failure_threshold = 3

abbrev pub default_max_restarts : ℕ
default_max_restarts = 5

abbrev pub default_restart_delay : ℤ
default_restart_delay = pos 5000000000

abbrev pub max_backoff_delay : ℤ
max_backoff_delay = pos 300000000000

-- The longest `Duration`, which `time.Since` of the zero time gives.
abbrev pub max_duration : ℕ
max_duration = 9223372036854775807

unfoldable pub new_lifecycle_state : LifecycleState
new_lifecycle_state = record {
  restart_count = 0;
  last_restart = none;
  consecutive_failures = 0;
  last_health_status = false;
  last_health_check_at = 0;
}

-- `if n <= 0 { n = def }`
abbrev pub positive_or : ℕ → ℤ → ℕ
positive_or fallback (pos zero) = fallback
positive_or fallback (pos (suc n)) = suc n
positive_or fallback (negsuc n) = fallback

unfoldable pub failure_threshold : RecoveryConfig → ℕ
failure_threshold config = positive_or default_failure_threshold config.retries

unfoldable pub restart_limit : RecoveryConfig → ℕ
restart_limit config = positive_or default_max_restarts config.max_restarts

-- An `int64` from its 64 bits.
abbrev pub signed_64 : ℕ → ℤ
signed_64 bits = if ltb bits (2 ^ 63) then pos bits else negsuc (2 ^ 64 - 1 - bits)

abbrev pub wrap_64 : ℤ → ℤ
wrap_64 (pos n) = signed_64 (n % 2 ^ 64)
wrap_64 (negsuc n) = signed_64 (2 ^ 64 - 1 - n % 2 ^ 64)

-- `d * time.Duration(suc n)`
abbrev pub times_suc : ℤ → ℕ → ℤ
times_suc (pos d) n = wrap_64 (pos (d * suc n))
times_suc (negsuc d) n = wrap_64 (negsuc (suc d * suc n - 1))

unfoldable pub parse_or_default : Durations → String → ℤ → ℤ
parse_or_default durations s fallback =
    if str_eq s ""
    then fallback
    else (elim (durations.parse_duration s) [ none ↦ fallback | some d ↦ d ])

unfoldable pub calculate_backoff : Durations → ℕ → ℤ → String → ℤ
calculate_backoff durations restarts base_delay strategy =
    let delay =
      if str_eq strategy "linear"
      then times_suc base_delay restarts
      else if str_eq strategy "fixed"
      then base_delay
      else durations.scale base_delay restarts in
    if ltb_ℤ max_backoff_delay delay then max_backoff_delay else delay

-- The wait before the next restart.
unfoldable pub backoff_of : Durations → RecoveryConfig → ℕ → ℤ
unfolding calculate_backoff parse_or_default
backoff_of durations config restarts =
    calculate_backoff durations restarts
      (parse_or_default durations config.restart_delay default_restart_delay)
      (if str_eq config.backoff "" then "exponential" else config.backoff)

-- `time.Since(last)`, of a time that has passed.
abbrev pub since : ℕ → Option ℕ → ℕ
since now none = max_duration
since now (some last) = if ltb max_duration (now - last) then max_duration else now - last

-- What follows once enough checks have failed.
unfoldable pub try_restart :
    Durations → RecoveryConfig → ℕ → LifecycleState → LifecycleState × List Effect
unfolding backoff_of restart_limit
try_restart durations config now ls =
    if not config.enabled
    then (ls, [])
    else if leb (restart_limit config) ls.restart_count
    then (ls, update_phase failed ∷ [])
    else if ltb_ℤ (pos (since now ls.last_restart)) (backoff_of durations config ls.restart_count)
    then (ls, [])
    else (
      record ls {
        restart_count = suc ls.restart_count;
        last_restart = some now;
        consecutive_failures = 0;
      },
      update_phase retrying ∷ restart_agent ∷ [],
    )

unfoldable pub check_and_restart :
    Durations → RecoveryConfig → Bool → ℕ → LifecycleState → LifecycleState × List Effect
unfolding try_restart failure_threshold
check_and_restart durations config healthy now ls =
    let checked = record ls { last_health_check_at = now } in
    let worse = record checked {
      consecutive_failures = suc ls.consecutive_failures;
      last_health_status = false;
    } in
    if healthy
    then (
      if ltb 0 ls.consecutive_failures
          then record checked { consecutive_failures = 0; last_health_status = true }
          else checked,
      [],
    )
    else if ltb worse.consecutive_failures (failure_threshold config)
    then (worse, [])
    else try_restart durations config now worse

-- `RestartAgent` of a running agent and `ResetRestartCount`, as far as this state goes.
unfoldable pub reset_restart_count : LifecycleState → LifecycleState
reset_restart_count ls = record ls { restart_count = 0; last_restart = none }
