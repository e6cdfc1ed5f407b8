-- ===== src/Controller/Lifecycle/Backoff.antt =====
-- The wait between restarts.
use mathlib.Core.Path.{subst, sym}
use native.Mathlib.Nat.{mul-le-mul_left}
use opc_platform.Prelude.{
  ℕ, suc, ◌*◌, ◌^◌, ◌≤◌, ◌<◌, String, false, ◌≡◌, arith, ltb_ℤ, ℤ, pos, if◌then◌else◌,
}
use opc_platform.Controller.Lifecycle.{Durations, calculate_backoff, max_backoff_delay, times_suc}

linear_delay :
    (base restarts : ℕ)
    → base * suc restarts < 2 ^ 63
    → times_suc (pos base) restarts ≡ pos (base * suc restarts)
linear_delay base restarts h = ground (arith, h)

abbrev cap : ℤ → ℤ
cap delay = if ltb_ℤ max_backoff_delay delay then max_backoff_delay else delay

cap_grows : (a b : ℕ) → a ≤ b → ltb_ℤ (cap (pos b)) (cap (pos a)) ≡ false
cap_grows a b h = ground (arith, h)

-- The wait is never above five minutes, whatever the strategy; with the linear strategy and a delay
-- that is not negative it does not shrink as the restarts go on, as long as it stays in 63 bits.
pub calculate_backoff-bounds :
    (durations : Durations) (restarts later base : ℕ) (delay : ℤ) (strategy : String)
    → restarts ≤ later
    → base * suc later < 2 ^ 63
    → (ltb_ℤ max_backoff_delay (calculate_backoff durations restarts delay strategy) ≡ false)
      × (ltb_ℤ
            (calculate_backoff durations later (pos base) "linear")
            (calculate_backoff durations restarts (pos base) "linear")
          ≡ false)
unfolding calculate_backoff
calculate_backoff-bounds durations restarts later base delay strategy h small =
    let grows : base * suc restarts ≤ base * suc later = mul-le-mul_left base (omega arith) in
    (
      ground arith,
      subst (λ d. ltb_ℤ (cap d) (cap (times_suc (pos base) restarts)) ≡ false)
          (sym (linear_delay base later small))
          (subst (λ d. ltb_ℤ (cap (pos (base * suc later))) (cap d) ≡ false)
            (sym (linear_delay base restarts (omega arith)))
            (cap_grows (base * suc restarts) (base * suc later) grows)),
    )
