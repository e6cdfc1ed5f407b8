-- ===== src/Dispatcher/Picks.antt =====
-- The agent that `leastBusy` and `costOptimized` pick.
use mathlib.Core.Path.{subst}
use opc_platform.Prelude.{
  sym, ap, ◌∙◌, String, Bool, true, false, ◌||◌, ◌≡◌, refl, ◌⊎◌, inl, inr, Option, none, some, List,
  [], ◌∷◌, All, if◌then◌else◌, arith, str_eq, eq_refl, Map, lookup, has, Option-cases, Bool-cases,
}
use opc_platform.Dispatcher.{CostOrder, pick_loop, pick_least}

module _ {C : Type 0} (order : CostOrder C) (metrics : Map C) where
  -- An agent has a name, and no negative cost.
  abbrev pub IsSound : String → Type 0
  IsSound name =
      (str_eq name "" ≡ false)
      × ((cost : C) → lookup name metrics ≡ some cost → order.negative cost ≡ false)

  -- The agent has metrics, and a cost that is not below the given one.
  abbrev pub NotBelow : C → String → Type 0
  NotBelow least name =
      (cost : C) × (lookup name metrics ≡ some cost) × (order.less cost least ≡ false)

  -- The agent with its cost, from the first part of the list (`best`) or from the rest.
  record LeastOf (names : List String) (best_agent : String) (best : C) (name : String) (cost : C)
      : Type 0 where
    from :
        ((name ≡ best_agent) × (cost ≡ best))
        ⊎ ((has name names ≡ true) × (lookup name metrics ≡ some cost))
    below_best : order.less best cost ≡ false
    below_all : All (NotBelow cost) names

  abbrev Result : List String → String → C → Option String → Type 0
  Result names best_agent best o =
      (name : String) × (o ≡ some name)
      × (((lookup name metrics ≡ none) × (has name names ≡ true))
          ⊎ ((cost : C) × LeastOf names best_agent best name cost))

  Result-taken :
      (n : String) (names : List String) (best_agent : String) (best cost : C) (o : Option String)
      → lookup n metrics ≡ some cost
      → order.less cost best ≡ true
      → Result names n cost o
      → Result (n ∷ names) best_agent best o
  unfolding has
  Result-taken n names best_agent best cost o e lower (name, same, inl unmeasured) =
      (name, same, inl (unmeasured.0, ground (arith, unmeasured.1)))
  Result-taken n names best_agent best cost o e lower (name, same, inr (c, least)) = (
    name,
    same,
    inr (
      c,
      record {
        from = inr (elim least.from [
          | inl here ↦ (
            ground (arith, here.0, eq_refl n),
            ap (λ x. lookup x metrics) here.0 ∙ e ∙ ap some (sym here.1),
          )
          | inr there ↦ (ground (arith, there.0), there.1)
        ]);
        below_best =
            order.less_trans c cost best least.below_best (order.less_asym cost best lower);
        below_all = ((cost, e, least.below_best), least.below_all);
      },
    ),
  )

  Result-left :
      (n : String) (names : List String) (best_agent : String) (best cost : C) (o : Option String)
      → lookup n metrics ≡ some cost
      → order.less cost best ≡ false
      → Result names best_agent best o
      → Result (n ∷ names) best_agent best o
  unfolding has
  Result-left n names best_agent best cost o e higher (name, same, inl unmeasured) =
      (name, same, inl (unmeasured.0, ground (arith, unmeasured.1)))
  Result-left n names best_agent best cost o e higher (name, same, inr (c, least)) = (
    name,
    same,
    inr (
      c,
      record {
        from = elim least.from [
          | inl here ↦ inl here
          | inr there ↦ inr (ground (arith, there.0), there.1)
        ];
        below_best = least.below_best;
        below_all =
            ((cost, e, order.less_trans c best cost least.below_best higher), least.below_all);
      },
    ),
  )

  pick_loop-cons :
      (n : String) (names : List String) (best_agent : String) (best cost : C) (t : Bool)
      → lookup n metrics ≡ some cost
      → order.negative best || order.less cost best ≡ t
      → pick_loop order metrics (n ∷ names) best_agent best ≡ (
          if t
          then pick_loop order metrics names n cost
          else pick_loop order metrics names best_agent best)
  unfolding pick_loop
  pick_loop-cons n names best_agent best cost t e f = rw (e, pick_loop, f)

  pick_loop-Result :
      (names : List String) (best_agent : String) (best : C)
      → All IsSound names
      → str_eq best_agent "" ≡ false
      → order.negative best ≡ false
      → Result names best_agent best (pick_loop order metrics names best_agent best)
  unfolding pick_loop has
  pick_loop-Result [] best_agent best sound named nonneg = (
    best_agent,
    ground (arith, named),
    inr (
      best,
      record { from = inl (refl, refl); below_best = order.less_refl best; below_all = tt },
    ),
  )
  pick_loop-Result (n ∷ names) best_agent best sound named nonneg =
      elim (Option-cases (lookup n metrics)) [
        | inl none_there ↦
            (n, rw (none_there, pick_loop), inl (none_there, ground (arith, eq_refl n)))
        | inr (cost, e) ↦ elim (Bool-cases (order.less cost best)) [
          | inl lower ↦
              subst (Result (n ∷ names) best_agent best)
                (sym (pick_loop-cons n names best_agent best cost true e (rw (nonneg, lower))))
                (Result-taken n names best_agent best cost (pick_loop order metrics names n cost) e
                  lower (pick_loop-Result names n cost sound.1 sound.0.0 (sound.0.1 cost e)))
          | inr higher ↦
              subst (Result (n ∷ names) best_agent best)
                (sym (pick_loop-cons n names best_agent best cost false e (rw (nonneg, higher))))
                (Result-left n names best_agent best cost
                  (pick_loop order metrics names best_agent best) e higher
                  (pick_loop-Result names best_agent best sound.1 named nonneg))
        ]
      ]

  -- On agents that have names and no negative costs, `leastBusy` and `costOptimized` do not fail:
  -- they pick a candidate that has no metrics, or all have them and the pick's cost is least.
  pub pick_least-least :
      (n : String) (names : List String)
      → All IsSound (n ∷ names)
      → (name : String) × (pick_least order metrics (n ∷ names) ≡ some name)
        × (has name (n ∷ names) ≡ true)
        × ((lookup name metrics ≡ none)
            ⊎ ((cost : C) × (lookup name metrics ≡ some cost) × All (NotBelow cost) (n ∷ names)))
  unfolding pick_least has
  pick_least-least n names sound = elim (Option-cases (lookup n metrics)) [
    | inl nothing ↦ (n, rw (nothing, pick_loop), ground (arith, eq_refl n), inl nothing)
    | inr (cost, e) ↦
        first cost e (pick_loop-Result names n cost sound.1 sound.0.0 (sound.0.1 cost e))
  ]
    where
      first :
          (cost : C)
          → lookup n metrics ≡ some cost
          → Result names n cost (pick_loop order metrics names n cost)
          → (name : String) × (pick_least order metrics (n ∷ names) ≡ some name)
            × (has name (n ∷ names) ≡ true)
            × ((lookup name metrics ≡ none)
                ⊎ ((cost : C) × (lookup name metrics ≡ some cost)
                    × All (NotBelow cost) (n ∷ names)))
      first cost e (name, same, inl unmeasured) = (
        name,
        pick_loop-cons n names "" order.unset cost true e (rw order.unset_negative) ∙ same,
        ground (arith, unmeasured.1),
        inl unmeasured.0,
      )
      first cost e (name, same, inr (c, least)) = (
        name,
        pick_loop-cons n names "" order.unset cost true e (rw order.unset_negative) ∙ same,
        elim least.from [
          | inl here ↦ ground (arith, here.0, eq_refl n)
          | inr there ↦ ground (arith, there.0)
        ],
        inr (
          c,
          elim least.from [
            | inl here ↦ ap (λ x. lookup x metrics) here.0 ∙ e ∙ ap some (sym here.1)
            | inr there ↦ there.1
          ],
          ((cost, e, least.below_best), least.below_all),
        ),
      )
