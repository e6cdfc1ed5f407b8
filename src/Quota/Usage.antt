-- ===== src/Quota/Usage.antt =====
-- What the usage shows after it is recorded.
use opc_platform.Prelude.{
  ℕ, ◌+◌, ◌<◌, String, ◌≡◌, if◌then◌else◌, arith, str_eq, eq_iff, Map, lookup, insert,
  lookup-insert, Option-cases, inl, inr,
}
use opc_platform.Quota.{
  Money, Calendar, AgentUsage, Totals, QuotaConfig, new_usage, current, check, reset_windows,
  record_usage, get_usage,
}

module _ {C : Type 0} (money : Money C) (calendar : Calendar) where
  abbrev pub added : ℕ → C → Totals C → Totals C
  added tokens cost t = record {
    of_hour = t.of_hour + tokens;
    of_day = t.of_day + tokens;
    cost_of_day = money.plus t.cost_of_day cost;
    cost_of_month = money.plus t.cost_of_month cost;
  }

  -- What `GetUsage` shows of an entry, and what `RecordUsage` writes over one.
  abbrev pub shown : ℕ → AgentUsage C → Totals C
  shown now u = record {
    of_hour = current money calendar now u.hour_reset 0 u.hour_tokens;
    of_day = current money calendar now u.day_reset 0 u.day_tokens;
    cost_of_day = current money calendar now u.day_reset money.nothing u.day_cost;
    cost_of_month = current money calendar now u.month_reset money.nothing u.month_cost;
  }

  abbrev written : ℕ → ℕ → C → AgentUsage C → AgentUsage C
  written now tokens cost old =
      let u = reset_windows money calendar now old in
      record u {
        hour_tokens = u.hour_tokens + tokens;
        day_tokens = u.day_tokens + tokens;
        day_cost = money.plus u.day_cost cost;
        month_cost = money.plus u.month_cost cost;
      }

  kept_window :
      {A : Type 0} (now end reset : ℕ) (none_used used : A)
      → now < end
      → current money calendar now (current money calendar now reset end reset) none_used used
        ≡ used
  kept_window now end reset none_used used h = ground (arith, h)

  shown-written :
      (now tokens : ℕ) (cost : C) (u : AgentUsage C)
      → shown now (written now tokens cost u) ≡ added tokens cost (shown now u)
  unfolding reset_windows
  shown-written now tokens cost u =
      let fresh = reset_windows money calendar now u in
      ground (
        arith,
        kept_window now (calendar.hour_end now) u.hour_reset 0 (fresh.hour_tokens + tokens)
            (calendar.hour_later now),
        kept_window now (calendar.day_end now) u.day_reset 0 (fresh.day_tokens + tokens)
            (calendar.day_later now),
        kept_window now (calendar.day_end now) u.day_reset money.nothing
            (money.plus fresh.day_cost cost) (calendar.day_later now),
        kept_window now (calendar.month_end now) u.month_reset money.nothing
            (money.plus fresh.month_cost cost) (calendar.month_later now),
      )

  pub shown-new_usage :
      (now : ℕ)
      → shown now (new_usage money calendar now) ≡ record {
        of_hour = 0;
        of_day = 0;
        cost_of_day = money.nothing;
        cost_of_month = money.nothing;
      }
  unfolding new_usage
  shown-new_usage now = ground arith

  -- Recording a task adds its tokens and its cost to what the agent's usage shows at that moment, in
  -- every window, and leaves the other agents' as it was.
  pub get_usage-record_usage :
      (now : ℕ) (agent reader : String) (tokens_in tokens_out : ℕ) (cost : C)
      (usage : Map (AgentUsage C))
      → get_usage money calendar now reader
          (record_usage money calendar now agent tokens_in tokens_out cost usage)
        ≡ (if str_eq agent reader
            then added (tokens_in + tokens_out) cost (get_usage money calendar now reader usage)
            else get_usage money calendar now reader usage)
  unfolding record_usage get_usage
  get_usage-record_usage now agent reader tokens_in tokens_out cost usage =
      let tokens = tokens_in + tokens_out in
      let fresh = new_usage money calendar now in
      elim (Option-cases (lookup agent usage)) [
        | inl missing ↦ ground (
          arith,
          missing,
          eq_iff agent reader,
          lookup-insert agent reader (written now tokens cost fresh) (insert agent fresh usage),
          lookup-insert agent reader fresh usage,
          shown-written now tokens cost fresh,
          shown-new_usage now,
        )
        | inr (u, found) ↦ ground (
          arith,
          found,
          eq_iff agent reader,
          lookup-insert agent reader (written now tokens cost u) usage,
          shown-written now tokens cost u,
        )
      ]

  -- A new usage shows nothing at any time.
  shown_later :
      (now later : ℕ)
      → shown later (new_usage money calendar now) ≡ record {
        of_hour = 0;
        of_day = 0;
        cost_of_day = money.nothing;
        cost_of_month = money.nothing;
      }
  unfolding new_usage
  shown_later now later = ground arith

  -- `Check` never changes what the usage of any agent shows, at whatever time it is read.
  pub get_usage-check :
      (now later : ℕ) (agent reader : String) (config : QuotaConfig C) (usage : Map (AgentUsage C))
      → get_usage money calendar later reader (check money calendar now agent config usage).1
        ≡ get_usage money calendar later reader usage
  unfolding check get_usage
  get_usage-check now later agent reader config usage = elim (Option-cases (lookup agent usage)) [
    | inl missing ↦ ground (
      arith,
      missing,
      shown_later now later,
      lookup-insert agent reader (new_usage money calendar now) usage,
      eq_iff agent reader,
    )
    | inr (u, found) ↦ ground (arith, found)
  ]
