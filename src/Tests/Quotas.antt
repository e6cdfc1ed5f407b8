-- ===== src/Tests/Quotas.antt =====
-- An agent with an hourly and a daily budget.
use opc_platform.Prelude.{
  ℕ, ◌+◌, ◌≡◌, refl, true, false, not, ◌||◌, [], arith, ltb, leb, if◌then◌else◌, str_eq, pos,
  lookup, insert, Map,
}
use opc_platform.Quota.{
  Money, Calendar, QuotaConfig, AgentUsage, new_usage, get_or_create_usage, is_zero_config,
  check_usage, check, reset_windows, record_usage, get_usage,
}
use opc_platform.Quota.Usage.{added, get_usage-record_usage, get_usage-check}
use opc_platform.Quota.Verdicts.{is_refused, check_allowed}

quotas : Unit {0}
unfolding lookup insert new_usage get_or_create_usage is_zero_config check_usage check reset_windows
    record_usage get_usage
quotas = tt

abbrev pub cents : Money ℕ
cents = record { nothing = 0; plus = λ a b. a + b; less = ltb; is_zero = λ a. leb a 0 }

abbrev pub calendar : Calendar
calendar = record {
  hour_end = λ t. t + 60;
  day_end = λ t. t + 1440;
  month_end = λ t. t + 43200;
  hour_later = λ t. omega arith;
  day_later = λ t. omega arith;
  month_later = λ t. omega arith;
}

abbrev config : QuotaConfig ℕ
config = record {
  token_per_task = pos 0;
  token_per_hour = pos 100;
  token_per_day = pos 50;
  cost_per_task = 0;
  cost_per_day = 7;
  cost_per_month = 0;
  on_exceed = "";
}

-- 90 tokens at a cost of 9.
abbrev used : Map (AgentUsage ℕ)
unfolding quotas
used = record_usage cents calendar 5 "a" 40 50 9 []

-- The hourly alert lets the task pass, though the daily tokens and the daily cost are used up.
alert_passes : (check cents calendar 6 "a" config used).0.allowed ≡ true
unfolding quotas
alert_passes = refl

-- An hour later it is refused.
later_refused : (check cents calendar 70 "a" config used).0.allowed ≡ false
unfolding quotas
later_refused = refl

get_usage-record_usage_example :
    get_usage cents calendar 6 "b" (record_usage cents calendar 6 "b" 1 2 3 used) ≡ (
      if str_eq "b" "b"
      then added cents calendar 3 3 (get_usage cents calendar 6 "b" used)
      else get_usage cents calendar 6 "b" used)
get_usage-record_usage_example = get_usage-record_usage cents calendar 6 "b" "b" 1 2 3 used

get_usage-check_example :
    get_usage cents calendar 99 "b" (check cents calendar 6 "b" config used).1
    ≡ get_usage cents calendar 99 "b" used
get_usage-check_example = get_usage-check cents calendar 6 99 "b" "b" config used

check_allowed_example : (check cents calendar 6 "a" config used).0.allowed ≡ (
    is_zero_config cents calendar config
    || not (is_refused cents calendar config (get_usage cents calendar 6 "a" used)))
check_allowed_example = check_allowed cents calendar 6 "a" config used
