-- ===== src/Cost/Budget.antt =====
-- The budget of pkg/cost/cost.go, and its last events.
use opc_platform.Prelude.{
  ℕ, ◌-◌, ◌≤◌, ◌≡◌, refl, ap, ◌∙◌, String, Bool, true, false, inl, inr, Bool-cases, Option, List,
  [], ◌∷◌, Write, if◌then◌else◌, leb, arith, length, take, drop, take-drop, length-drop,
}
use mathlib.Core.List.{◌++◌ as append}
use opc_platform.Cost.{
  CostEvent, Tracker, Rates, plus, nothing, complete_event, record_cost, spent, get_budget_status,
  recent_events,
}
use opc_platform.Cost.Disk.{record_cost-cases}

recent_events-drop :
    {C : Type 0} (n : ℕ) (t : Tracker C) → recent_events n t ≡ drop (length t.events - n) t.events
unfolding recent_events drop
recent_events-drop n t = elim (Bool-cases (leb (length t.events) n)) [
  | inl few ↦
      let none_dropped : 0 ≡ length t.events - n = ground (arith, few) in
      rw few (ap (λ k. drop k t.events) none_dropped)
  | inr many ↦ rw many refl
]

-- `RecentEvents` gives the end of the list of events: as many as are asked for, or all.
pub recent_events-length :
    {C : Type 0} (n : ℕ) (t : Tracker C)
    → let recent = recent_events n t in
      (append (take (length t.events - n) t.events) recent ≡ t.events)
      × (length recent ≡ (if leb (length t.events) n then length t.events else n))
recent_events-length n t =
    let k = length t.events - n in
    (
      ap (append (take k t.events)) (recent_events-drop n t) ∙ take-drop k t.events,
      ap length (recent_events-drop n t) ∙ length-drop k t.events ∙ ground arith,
    )

module _ {C : Type 0} (rates : Rates C) where
  spent-append :
      (test : CostEvent C → Bool) (es : List (CostEvent C)) (e : CostEvent C) (total : C)
      → spent rates test total (append es (e ∷ [])) ≡ (
          if test e
          then plus rates (spent rates test total es) e.total_cost
          else spent rates test total es)
  unfolding spent
  spent-append test [] e total = ground arith
  spent-append test (x ∷ es) e total =
      spent-append test es e (if test x then plus rates total x.total_cost else total)

  -- An event that is recorded now, with no time of its own, adds its cost to what is spent today and
  -- this month; one that cannot be recorded leaves the status as it was.
  pub get_budget_status-record_cost :
      (marshal : CostEvent C → Option String) (write : Write String) (new_id : String) (now : ℕ)
      (event : CostEvent C) (t : Tracker C)
      → event.timestamp ≡ 0
      → rates.day_start now ≤ now
      → rates.month_start now ≤ now
      → let recorded = record_cost rates marshal write new_id now event t in
        let old = get_budget_status rates now t in
        let cost = plus rates event.input_cost event.output_cost in
        (recorded.1 ≡ true
          → ((get_budget_status rates now recorded.0).daily_spent ≡ plus rates old.daily_spent cost)
            × ((get_budget_status rates now recorded.0).monthly_spent
                ≡ plus rates old.monthly_spent cost))
        × (recorded.1 ≡ false → get_budget_status rates now recorded.0 ≡ old)
  unfolding get_budget_status complete_event
  get_budget_status-record_cost marshal write new_id now event t h day month =
      let made = complete_event rates new_id now event in
      elim (record_cost-cases rates marshal write new_id now event t) [
        | inl refused ↦ (
          λ e. absurd (ground (arith, refused, e)),
          λ e. ap (λ r. get_budget_status rates now r.0) refused,
        )
        | inr (inl (part, cut, left)) ↦ (
          λ e. absurd (ground (arith, left, e)),
          λ e. ap (λ r. get_budget_status rates now r.0) left,
        )
        | inr (inr (line, written, stored)) ↦ (
          λ e. (
            ap (λ r. (get_budget_status rates now r.0).daily_spent) stored
                ∙ spent-append (λ x. leb (rates.day_start now) x.timestamp) t.events made
                    (nothing rates)
                ∙ ground (arith, h, day),
            ap (λ r. (get_budget_status rates now r.0).monthly_spent) stored
                ∙ spent-append (λ x. leb (rates.month_start now) x.timestamp) t.events made
                    (nothing rates)
                ∙ ground (arith, h, month),
          ),
          λ e. absurd (ground (arith, stored, e)),
        )
      ]
