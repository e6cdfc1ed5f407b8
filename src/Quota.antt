-- ===== src/Quota.antt =====
-- pkg/cost/enforcer.go: the quotas of an agent. Numbers of tokens are not negative, and their sums are
-- taken to stay in 63 bits; a limit that is not positive is none. Money is an abstract type for
-- `float64` without NaN, and the calendar is a parameter. The 80% test is on the numbers themselves:
-- for numbers of tokens below 2^53 the rounded quotient is below the rounded 0.8 just where the quotient
-- is below 0.8, since a quotient below it is so by 1 / (5 * limit) at least.
pub mod Usage
pub mod Verdicts
use opc_platform.Prelude.{
  ℕ, zero, suc, ◌+◌, ◌*◌, ◌<◌, String, Bool, true, false, not, ◌&&◌, ◌||◌, Option, none, some, List,
  [], ◌∷◌, if◌then◌else◌, ltb, leb, str_eq, Map, lookup, insert, ℤ, pos, negsuc, is_zero_ℤ,
}

pub record Money (C : Type 0) : Type 0 where
  pub nothing : C
  pub plus : C → C → C
  pub less : C → C → Bool
  pub is_zero : C → Bool

-- When the hour, the day and the month of a time end.
pub record Calendar : Type 0 where
  pub hour_end : ℕ → ℕ
  pub day_end : ℕ → ℕ
  pub month_end : ℕ → ℕ
  pub hour_later : (now : ℕ) → now < hour_end now
  pub day_later : (now : ℕ) → now < day_end now
  pub month_later : (now : ℕ) → now < month_end now

pub record QuotaConfig (C : Type 0) : Type 0 where
  pub token_per_task : ℤ
  pub token_per_hour : ℤ
  pub token_per_day : ℤ
  pub cost_per_task : C
  pub cost_per_day : C
  pub cost_per_month : C
  pub on_exceed : String

pub data Budget : Type 0 where
  hourly_tokens daily_tokens daily_cost monthly_cost : Budget

-- `QuotaCheckResult`: the reason and the alert name the budget.
pub record QuotaCheckResult : Type 0 where
  pub allowed : Bool
  pub action : String
  pub reason : Option Budget
  pub alert : Option Budget

pub record AgentUsage (C : Type 0) : Type 0 where
  pub hour_tokens : ℕ
  pub day_tokens : ℕ
  pub day_cost : C
  pub month_cost : C
  pub hour_reset : ℕ
  pub day_reset : ℕ
  pub month_reset : ℕ

-- What `GetUsage` returns.
pub record Totals (C : Type 0) : Type 0 where
  pub of_hour : ℕ
  pub of_day : ℕ
  pub cost_of_day : C
  pub cost_of_month : C

-- `pct >= 0.8`
abbrev pub near_limit : ℕ → ℕ → Bool
near_limit used limit = leb (4 * limit) (5 * used)

-- `limit > 0`
abbrev pub positive : ℤ → Option ℕ
positive (pos zero) = none
positive (pos (suc n)) = some (suc n)
positive (negsuc n) = none

abbrev pub allow : QuotaCheckResult
allow = record { allowed = true; action = ""; reason = none; alert = none }

abbrev pub reject : String → Budget → QuotaCheckResult
reject action budget = record {
  allowed = false;
  action = action;
  reason = some budget;
  alert = none;
}

abbrev pub warn : Budget → QuotaCheckResult
warn budget = record { allowed = true; action = ""; reason = none; alert = some budget }

module _ {C : Type 0} (money : Money C) (calendar : Calendar) where
  unfoldable pub new_usage : ℕ → AgentUsage C
  new_usage now = record {
    hour_tokens = 0;
    day_tokens = 0;
    day_cost = money.nothing;
    month_cost = money.nothing;
    hour_reset = calendar.hour_end now;
    day_reset = calendar.day_end now;
    month_reset = calendar.month_end now;
  }

  -- `getOrCreateUsageLocked`
  unfoldable pub get_or_create_usage :
      ℕ → String → Map (AgentUsage C) → AgentUsage C × Map (AgentUsage C)
  unfolding new_usage
  get_or_create_usage now agent usage = elim (lookup agent usage) [
    | some u ↦ (u, usage)
    | none ↦ (new_usage now, insert agent (new_usage now) usage)
  ]

  unfoldable pub is_zero_config : QuotaConfig C → Bool
  is_zero_config config =
      is_zero_ℤ config.token_per_task
      && (is_zero_ℤ config.token_per_hour
          && (is_zero_ℤ config.token_per_day
              && (money.is_zero config.cost_per_task
                  && (money.is_zero config.cost_per_day && money.is_zero config.cost_per_month))))

  -- The value of a window, which is over after its reset.
  abbrev pub current : {A : Type 0} → ℕ → ℕ → A → A → A
  current now reset none_used used = if ltb reset now then none_used else used

  -- A test on tokens: the verdict, or `none` to go on.
  abbrev pub check_tokens : String → Budget → ℤ → ℕ → Option QuotaCheckResult
  check_tokens action budget limit used = elim (positive limit) [
    | none ↦ none
    | some n ↦
        if leb n used
        then some (reject action budget)
        else if near_limit used n
        then some (warn budget)
        else none
  ]

  abbrev pub check_cost : String → Budget → C → C → Option QuotaCheckResult
  check_cost action budget limit used =
      if money.less money.nothing limit && not (money.less used limit)
      then some (reject action budget)
      else none

  abbrev pub or_else : Option QuotaCheckResult → QuotaCheckResult → QuotaCheckResult
  or_else none next = next
  or_else (some result) next = result

  -- The tests of `Check` on a usage.
  unfoldable pub check_usage : ℕ → QuotaConfig C → AgentUsage C → QuotaCheckResult
  check_usage now config u =
      let action = if str_eq config.on_exceed "" then "reject" else config.on_exceed in
      or_else
        (check_tokens action hourly_tokens config.token_per_hour
          (current now u.hour_reset 0 u.hour_tokens))
        (or_else
          (check_tokens action daily_tokens config.token_per_day
            (current now u.day_reset 0 u.day_tokens))
          (or_else
            (check_cost action daily_cost config.cost_per_day
              (current now u.day_reset money.nothing u.day_cost))
            (or_else
              (check_cost action monthly_cost config.cost_per_month
                (current now u.month_reset money.nothing u.month_cost))
              allow)))

  unfoldable pub check :
      ℕ → String → QuotaConfig C → Map (AgentUsage C) → QuotaCheckResult × Map (AgentUsage C)
  unfolding is_zero_config get_or_create_usage check_usage
  check now agent config usage =
      let (u, created) = get_or_create_usage now agent usage in
      if is_zero_config config then (allow, usage) else (check_usage now config u, created)

  -- The windows that are over start anew.
  unfoldable pub reset_windows : ℕ → AgentUsage C → AgentUsage C
  reset_windows now u = record {
    hour_tokens = current now u.hour_reset 0 u.hour_tokens;
    day_tokens = current now u.day_reset 0 u.day_tokens;
    day_cost = current now u.day_reset money.nothing u.day_cost;
    month_cost = current now u.month_reset money.nothing u.month_cost;
    hour_reset = current now u.hour_reset (calendar.hour_end now) u.hour_reset;
    day_reset = current now u.day_reset (calendar.day_end now) u.day_reset;
    month_reset = current now u.month_reset (calendar.month_end now) u.month_reset;
  }

  unfoldable pub record_usage : ℕ → String → ℕ → ℕ → C → Map (AgentUsage C) → Map (AgentUsage C)
  unfolding get_or_create_usage reset_windows
  record_usage now agent tokens_in tokens_out cost usage =
      let (found, created) = get_or_create_usage now agent usage in
      let u = reset_windows now found in
      insert agent
        (record u {
          hour_tokens = u.hour_tokens + (tokens_in + tokens_out);
          day_tokens = u.day_tokens + (tokens_in + tokens_out);
          day_cost = money.plus u.day_cost cost;
          month_cost = money.plus u.month_cost cost;
        })
        created

  unfoldable pub get_usage : ℕ → String → Map (AgentUsage C) → Totals C
  get_usage now agent usage = elim (lookup agent usage) [
    | none ↦ record {
      of_hour = 0;
      of_day = 0;
      cost_of_day = money.nothing;
      cost_of_month = money.nothing;
    }
    | some u ↦ record {
      of_hour = current now u.hour_reset 0 u.hour_tokens;
      of_day = current now u.day_reset 0 u.day_tokens;
      cost_of_day = current now u.day_reset money.nothing u.day_cost;
      cost_of_month = current now u.month_reset money.nothing u.month_cost;
    }
  ]
