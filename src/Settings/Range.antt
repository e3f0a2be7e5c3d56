-- ===== src/Settings/Range.antt =====
-- What the test on the increment means.
use poker_management_system.Common.{ℕ, ◌*◌, ◌≤◌, ◌<◌, ◌≡◌, ◌↔◌, max, false, arith}
use poker_management_system.Settings.Rules.{ceil_div, step_misses_range}

ceil_div-reaches : (a b : ℕ) → 0 < b → a ≤ ceil_div a b * b
unfolding ceil_div
ceil_div-reaches a b h = grind arith

ceil_div-least : (a b k : ℕ) → 0 < b → a ≤ k * b → ceil_div a b ≤ k
unfolding ceil_div
ceil_div-least a b k h g = grind arith

mul_mono : (j k b : ℕ) → j ≤ k → j * b ≤ k * b
mul_mono j k b h = grind arith

-- With a positive increment the test passes exactly when some positive amount within the range is a
-- multiple of the increment.
pub step_misses_range-false_iff :
    (least most step : ℕ)
    → 0 < step
    → (step_misses_range least most step ≡ false)
      ↔ ((k : ℕ) × (1 ≤ k * step) × (least ≤ k * step) × (k * step ≤ most))
unfolding step_misses_range
step_misses_range-false_iff least most step h =
    let c = ceil_div (max 1 least) step in
    let reach = ceil_div-reaches (max 1 least) step h in
    (
      (λ e. (c, omega arith, omega arith, ground arith)),
      (λ (k, one, low, high).
          let first = ceil_div-least (max 1 least) step k h (omega arith) in
          let bound = mul_mono c k step first in ground arith),
    )
