-- ===== src/Quota/Verdicts.antt =====
-- When `Check` allows a task.
use opc_platform.Prelude.{
  ℕ, ◌*◌, String, Bool, true, false, not, ◌&&◌, ◌||◌, ◌≡◌, none, some, if◌then◌else◌, leb, arith,
  str_eq, Map, ℤ, lookup, Bool-cases, Option-cases, inl, inr,
}
use opc_platform.Quota.{
  allow, or_else, check_tokens, check_cost, current, Budget, hourly_tokens, daily_tokens,
  daily_cost, monthly_cost, Money, Calendar, AgentUsage, Totals, QuotaConfig, QuotaCheckResult,
  positive, is_zero_config, check_usage, check, get_usage, new_usage,
}
use opc_platform.Quota.Usage.{shown-new_usage}

-- The four tests together.
verdict :
    (over_hour near_hour over_day near_day over_cost over_month : Bool)
    {result second third last : Bool}
    → result ≡ (not over_hour && (near_hour || second))
    → second ≡ (not over_day && (near_day || third))
    → third ≡ (not over_cost && last)
    → last ≡ (not over_month && true)
    → result
      ≡ not (
          over_hour || (not near_hour && (over_day || (not near_day && (over_cost || over_month)))))
verdict over_hour near_hour over_day near_day over_cost over_month e f g h =
    ground (arith, e, f, g, h)

module _ {C : Type 0} (money : Money C) (calendar : Calendar) where
  -- A budget of tokens is used up, or 80% of it is.
  abbrev pub is_over : ℤ → ℕ → Bool
  is_over limit used = elim (positive limit) [ none ↦ false | some n ↦ leb n used ]

  abbrev pub is_near : ℤ → ℕ → Bool
  is_near limit used = elim (positive limit) [ none ↦ false | some n ↦ leb (4 * n) (5 * used) ]

  abbrev pub is_over_cost : C → C → Bool
  is_over_cost limit used = money.less money.nothing limit && not (money.less used limit)

  tokens_stage :
      (action : String) (budget : Budget) (limit : ℤ) (used : ℕ) (next : QuotaCheckResult)
      → (or_else money calendar (check_tokens money calendar action budget limit used) next).allowed
        ≡ (not (is_over limit used) && (is_near limit used || next.allowed))
  tokens_stage action budget limit used next = elim (Option-cases (positive limit)) [
    | inl unset ↦ ground (arith, unset)
    | inr (n, set) ↦ ground (arith, set)
  ]

  cost_stage :
      (action : String) (budget : Budget) (limit used : C) (next : QuotaCheckResult)
      → (or_else money calendar (check_cost money calendar action budget limit used) next).allowed
        ≡ (not (is_over_cost limit used) && next.allowed)
  cost_stage action budget limit used next = ground arith

  -- The verdict from what `GetUsage` shows.
  abbrev pub is_refused : QuotaConfig C → Totals C → Bool
  is_refused config t =
      is_over config.token_per_hour t.of_hour
      || (not (is_near config.token_per_hour t.of_hour)
          && (is_over config.token_per_day t.of_day
              || (not (is_near config.token_per_day t.of_day)
                  && (is_over_cost config.cost_per_day t.cost_of_day
                      || is_over_cost config.cost_per_month t.cost_of_month))))

  check_usage-allowed :
      (now : ℕ) (config : QuotaConfig C) (u : AgentUsage C)
      → (check_usage money calendar now config u).allowed
        ≡ not (
            is_refused config (record {
              of_hour = current money calendar now u.hour_reset 0 u.hour_tokens;
              of_day = current money calendar now u.day_reset 0 u.day_tokens;
              cost_of_day = current money calendar now u.day_reset money.nothing u.day_cost;
              cost_of_month = current money calendar now u.month_reset money.nothing u.month_cost;
            }))
  unfolding check_usage
  check_usage-allowed now config u =
      let action = if str_eq config.on_exceed "" then "reject" else config.on_exceed in
      let hour = current money calendar now u.hour_reset 0 u.hour_tokens in
      let day = current money calendar now u.day_reset 0 u.day_tokens in
      let cost = current money calendar now u.day_reset money.nothing u.day_cost in
      let month = current money calendar now u.month_reset money.nothing u.month_cost in
      let last =
        or_else money calendar
          (check_cost money calendar action monthly_cost config.cost_per_month month) allow in
      let third =
        or_else money calendar
          (check_cost money calendar action daily_cost config.cost_per_day cost) last in
      let second =
        or_else money calendar
          (check_tokens money calendar action daily_tokens config.token_per_day day) third in
      verdict (is_over config.token_per_hour hour) (is_near config.token_per_hour hour)
        (is_over config.token_per_day day) (is_near config.token_per_day day)
        (is_over_cost config.cost_per_day cost) (is_over_cost config.cost_per_month month)
        (tokens_stage action hourly_tokens config.token_per_hour hour second)
        (tokens_stage action daily_tokens config.token_per_day day third)
        (cost_stage action daily_cost config.cost_per_day cost last)
        (cost_stage action monthly_cost config.cost_per_month month allow)

  -- `Check` refuses a task just where a limit is set, and the hourly tokens are used up, or they are
  -- below four fifths of their limit and the daily tokens are used up, or those are below four fifths
  -- of theirs too and a cost is.
  pub check_allowed :
      (now : ℕ) (agent : String) (config : QuotaConfig C) (usage : Map (AgentUsage C))
      → (check money calendar now agent config usage).0.allowed ≡ (
          is_zero_config money calendar config
          || not (is_refused config (get_usage money calendar now agent usage)))
  unfolding check get_usage new_usage
  check_allowed now agent config usage = elim (Bool-cases (is_zero_config money calendar config)) [
    | inl unset ↦ ground (arith, unset)
    | inr set ↦ elim (Option-cases (lookup agent usage)) [
      | inl missing ↦ ground (
        arith,
        set,
        missing,
        check_usage-allowed now config (new_usage money calendar now),
        shown-new_usage money calendar now,
      )
      | inr (u, found) ↦ ground (arith, set, found, check_usage-allowed now config u)
    ]
  ]
