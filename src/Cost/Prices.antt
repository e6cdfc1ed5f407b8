-- ===== src/Cost/Prices.antt =====
-- The prices of pkg/cost/cost.go: the exact key, or the longest name that the model starts with.
use mathlib.Core.Path.{subst}
use opc_platform.Prelude.{
  ℕ, ◌≤◌, ◌≡◌, refl, String, Bool, true, ◌&&◌, Option, none, some, List, [], ◌∷◌, if◌then◌else◌,
  ltb, count, has_key-count, ◌⊎◌, ◌<◌, Option-cases, Bool-cases, inl, inr, ap, sym, ◌∙◌, arith,
  str_eq, eq_iff, Map, lookup, MapOrder, keys,
}
use opc_platform.Cost.{ModelPricing, Tracker, Rates, nothing, pricing_key}

-- `strings.HasPrefix(s, prefix)` is `has_prefix s prefix`, and `len(s)`.
pub record Texts : Type 0 where
  pub has_prefix : String → String → Bool
  pub size : String → ℕ

module _ {C : Type 0} (rates : Rates C) where
  -- The loop of the fuzzy match over the prices, in the order of their keys.
  unfoldable pub longest_prefix :
      Texts
      → String
      → String
      → Map (ModelPricing C)
      → List String
      → Option (ModelPricing C)
      → Option (ModelPricing C)
  longest_prefix texts provider model pricing [] best = best
  longest_prefix texts provider model pricing (k ∷ ks) best =
      longest_prefix texts provider model pricing ks (elim (lookup k pricing) [
        | none ↦ best
        | some p ↦
            if str_eq p.provider provider
              && (ltb (elim best [ none ↦ 0 | some b ↦ texts.size b.model ]) (texts.size p.model)
                  && texts.has_prefix model p.model)
            then some p
            else best
      ])

  unfoldable pub find_price :
      Texts → MapOrder → String → String → Map (ModelPricing C) → Option (ModelPricing C)
  unfolding longest_prefix pricing_key
  find_price texts order provider model pricing =
      elim (lookup (pricing_key provider model) pricing) [
        | some p ↦ some p
        | none ↦ longest_prefix texts provider model pricing (order.range 0 (keys pricing)) none
      ]

  unfoldable pub calculate_cost : Texts → MapOrder → ℕ → ℕ → String → String → Tracker C → C × C
  unfolding find_price
  calculate_cost texts order tokens_in tokens_out provider model t =
      elim (find_price texts order provider model t.pricing) [
        | none ↦ ((nothing rates), (nothing rates))
        | some p ↦ (rates.per_1k tokens_in p.input_per_1k, rates.per_1k tokens_out p.output_per_1k)
      ]

  -- A price that the fuzzy match may take: of the provider, for a model that starts the model's name.
  abbrev pub fits : Texts → String → String → ModelPricing C → Bool
  fits texts provider model p =
      str_eq p.provider provider && (ltb 0 (texts.size p.model) && texts.has_prefix model p.model)

  abbrev pub size_of : Texts → Option (ModelPricing C) → ℕ
  size_of texts none = 0
  size_of texts (some p) = texts.size p.model

  module _ (texts : Texts) (provider model : String) (pricing : Map (ModelPricing C)) where
    abbrev next : Option (ModelPricing C) → String → Option (ModelPricing C)
    next best k = elim (lookup k pricing) [
      | none ↦ best
      | some p ↦
          if str_eq p.provider provider
            && (ltb (elim best [ none ↦ 0 | some b ↦ texts.size b.model ]) (texts.size p.model)
                && texts.has_prefix model p.model)
          then some p
          else best
    ]

    -- Where the best price so far comes from, and that no fitting one of the keys is longer.
    record IsLongest (ks : List String) (best result : Option (ModelPricing C)) : Type 0 where
      from :
          (result ≡ best)
          ⊎ ((k : String) × (p : ModelPricing C) × (result ≡ some p)
              × (lookup k pricing ≡ some p)
              × (fits texts provider model p ≡ true))
      grows : size_of texts best ≤ size_of texts result
      longest :
          (k : String) (p : ModelPricing C)
          → 0 < count k ks
          → lookup k pricing ≡ some p
          → fits texts provider model p ≡ true
          → texts.size p.model ≤ size_of texts result

    abbrev takes : Option (ModelPricing C) → ModelPricing C → Bool
    takes best p =
        str_eq p.provider provider
        && (ltb (elim best [ none ↦ 0 | some b ↦ texts.size b.model ]) (texts.size p.model)
            && texts.has_prefix model p.model)

    next-cases :
        (k : String) (best : Option (ModelPricing C))
        → ((next best k ≡ best) × (lookup k pricing ≡ none))
          ⊎ ((p : ModelPricing C) × (lookup k pricing ≡ some p)
              × (next best k ≡ (if takes best p then some p else best)))
    next-cases k best = elim (Option-cases (lookup k pricing)) [
      | inl missing ↦ inl (rw (missing, next) refl, missing)
      | inr (p, found) ↦ inr (p, found, rw (found, next) refl)
    ]

    only : (j k : String) → 0 < count j (k ∷ []) → j ≡ k
    unfolding count
    only j k h = ground (arith, h, eq_iff k j)

    kept_best :
        (k : String) (best result : Option (ModelPricing C))
        → result ≡ best
        → ((p : ModelPricing C)
            → lookup k pricing ≡ some p
            → fits texts provider model p ≡ true
            → texts.size p.model ≤ size_of texts best)
        → IsLongest (k ∷ []) best result
    kept_best k best result e least = record {
      from = inl e;
      grows = subst (λ r. size_of texts best ≤ size_of texts r) (sym e) (omega arith);
      longest = λ j p h f g.
          subst (λ r. texts.size p.model ≤ size_of texts r) (sym e)
            (least p (ap (λ x. lookup x pricing) (sym (only j k h)) ∙ f) g);
    }

    next-IsLongest :
        (k : String) (best : Option (ModelPricing C)) → IsLongest (k ∷ []) best (next best k)
    next-IsLongest k best = elim (next-cases k best) [
      | inl (same, missing) ↦
          kept_best k best (next best k) same (λ p f g. absurd (ground (arith, missing, f)))
      | inr (p, found, e) ↦ elim (Bool-cases (takes best p)) [
        | inl taken ↦
            let now : next best k ≡ some p = e ∙ ap (λ b. if b then some p else best) taken in
            record {
              from = inr (k, p, now, found, ground (arith, taken));
              grows =
                  subst (λ r. size_of texts best ≤ size_of texts r) (sym now)
                    (ground (arith, taken));
              longest = λ j q h f g.
                  subst (λ r. texts.size q.model ≤ size_of texts r) (sym now)
                    (ground (arith, f, found, only j k h));
            }
        | inr left ↦
            kept_best k best (next best k) (e ∙ ap (λ b. if b then some p else best) left)
              (λ q f g. ground (arith, left, g, found, f))
      ]
    ]

    longest_prefix-IsLongest :
        (ks : List String) (best : Option (ModelPricing C))
        → IsLongest ks best (longest_prefix texts provider model pricing ks best)
    unfolding longest_prefix count
    longest_prefix-IsLongest [] best = record {
      from = inl refl;
      grows = omega arith;
      longest = λ k p h. absurd (omega arith);
    }
    longest_prefix-IsLongest (k ∷ ks) best =
        let one = next-IsLongest k best in
        let rest = longest_prefix-IsLongest ks (next best k) in
        record {
          from = elim rest.from [
            | inl same ↦ elim one.from [
              | inl kept ↦ inl (same ∙ kept)
              | inr (j, p, e, f, g) ↦ inr (j, p, same ∙ e, f, g)
            ]
            | inr new ↦ inr new
          ];
          grows = omega (arith, one.grows, rest.grows);
          longest = λ j p h f g. elim (Bool-cases (str_eq k j)) [
            | inl here ↦
                let first = one.longest j p (ground (arith, here)) f g in
                omega (arith, first, rest.grows)
            | inr there ↦ rest.longest j p (ground (arith, h, there)) f g
          ];
        }

  abbrev pub charged : ℕ → ℕ → ModelPricing C → C × C
  charged tokens_in tokens_out p =
      (rates.per_1k tokens_in p.input_per_1k, rates.per_1k tokens_out p.output_per_1k)

  -- The price of the exact key is charged where there is one. Else, in whatever order the prices are
  -- visited, either no price fits the model and nothing is charged, or the charge is by a price that
  -- fits and is for a name at least as long as every price that fits.
  pub calculate_cost-longest :
      (texts : Texts) (order : MapOrder) (tokens_in tokens_out : ℕ) (provider model : String)
      (t : Tracker C)
      → let key = pricing_key provider model in
        let cost = calculate_cost texts order tokens_in tokens_out provider model t in
        let Fits = λ (k : String) (p : ModelPricing C).
          (lookup k t.pricing ≡ some p) × (fits texts provider model p ≡ true) in
        ((p : ModelPricing C)
          → lookup key t.pricing ≡ some p
          → cost ≡ charged tokens_in tokens_out p)
        × (lookup key t.pricing ≡ none
            → ((cost ≡ (nothing rates, nothing rates))
                × ((k : String) (p : ModelPricing C) → Fits k p → ⊥))
              ⊎ ((j : String) × (best : ModelPricing C) × Fits j best
                  × (cost ≡ charged tokens_in tokens_out best)
                  × ((k : String) (p : ModelPricing C)
                      → Fits k p
                      → texts.size p.model ≤ texts.size best.model)))
  unfolding calculate_cost
  calculate_cost-longest texts order tokens_in tokens_out provider model t =
      let ks = order.range 0 (keys t.pricing) in
      let run = longest_prefix-IsLongest texts provider model t.pricing ks none in
      let there : (k : String) (p : ModelPricing C) → lookup k t.pricing ≡ some p → 0 < count k ks =
        λ k p f.
          ground (arith, f, has_key-count k t.pricing, order.range_keeps 0 k (keys t.pricing)) in
      (
        λ p e. rw (e, calculate_cost) refl,
        λ e. elim run.from [
          | inl same ↦ inl (
            rw (e, same, calculate_cost) refl,
            λ k p f.
                let least = run.longest k p (there k p f.0) f.0 f.1 in
                ground (arith, same, least, f.1),
          )
          | inr (j, best, same, found, fit) ↦ inr (
            j,
            best,
            (found, fit),
            rw (e, same, calculate_cost) refl,
            λ k p f.
                subst (λ r. texts.size p.model ≤ size_of texts r) same
                  (run.longest k p (there k p f.0) f.0 f.1),
          )
        ],
      )
