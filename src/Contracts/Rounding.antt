-- ===== src/Contracts/Rounding.antt =====
-- `Math.round(x * 100) / 100` on amounts: a fraction of hundredths is rounded to the nearest one,
-- halves up.
use coloanex_prod.Common.{arith, suc, sym, ℕ, ◌*◌, ◌+◌, ◌-◌, ◌/◌, ◌<◌, ◌≡◌, ◌≤◌}
use native.Mathlib.Nat.{mul-pos, mul-le-mul_left, lt_of_mul-lt-mul_left, div-add-mod, mod-lt}

unfoldable pub round_div : ℕ → ℕ → ℕ
round_div num den = (2 * num + den) / (2 * den)

-- `Math.ceil`.
unfoldable pub ceil_div : ℕ → ℕ → ℕ
ceil_div num den = (num + den - 1) / den

pub round_div_bounds :
    (num den : ℕ)
    → 0 < den
    → (2 * (den * round_div num den) ≤ 2 * num + den)
      × (2 * num + den < 2 * (den * round_div num den) + 2 * den)
unfolding round_div
round_div_bounds num den h = omega (
  arith,
  div-add-mod (2 * num + den) (2 * den),
  mod-lt (2 * num + den) {m = 2 * den} (omega arith),
)

-- The rounded value is the only one within half a unit.
pub round_div_unique :
    (num den k : ℕ)
    → 0 < den
    → 2 * (den * k) ≤ 2 * num + den
    → 2 * num + den < 2 * (den * k) + 2 * den
    → round_div num den ≡ k
round_div_unique num den k h lo hi =
    let (below, above) = round_div_bounds num den h in
    omega (
      arith,
      lt_of_mul-lt-mul_left den {m = k} {n = suc (round_div num den)} (omega arith),
      lt_of_mul-lt-mul_left den {m = round_div num den} {n = suc k} (omega arith),
    )

-- A whole number of units may be taken out before rounding.
pub round_div-sub :
    (num den k : ℕ)
    → 0 < den
    → den * k ≤ num
    → round_div (num - den * k) den + k ≡ round_div num den
round_div-sub num den k h fits =
    let (below, above) = round_div_bounds (num - den * k) den h in
    sym (round_div_unique num den (round_div (num - den * k) den + k) h (omega arith) (omega arith))

pub round_div-add :
    (num den k : ℕ) → 0 < den → round_div (den * k + num) den ≡ k + round_div num den
round_div-add num den k h =
    let (below, above) = round_div_bounds num den h in
    round_div_unique (den * k + num) den (k + round_div num den) h (omega arith) (omega arith)

-- Rounding a sum and rounding its parts differ by at most one unit.
pub round_div_parts :
    (a b den : ℕ)
    → 0 < den
    → (round_div (a + b) den ≤ round_div a den + round_div b den + 1)
      × (round_div a den + round_div b den ≤ round_div (a + b) den + 1)
round_div_parts a b den h =
    let s = round_div (a + b) den in
    let p = round_div a den in
    let q = round_div b den in
    let (s_below, s_above) = round_div_bounds (a + b) den h in
    let (p_below, p_above) = round_div_bounds a den h in
    let (q_below, q_above) = round_div_bounds b den h in
    (
      omega (arith, lt_of_mul-lt-mul_left den {m = 2 * s} {n = 2 * p + 2 * q + 3} (omega arith)),
      omega (arith, lt_of_mul-lt-mul_left den {m = 2 * p + 2 * q} {n = 2 * s + 3} (omega arith)),
    )

-- Rounding does not depend on how the fraction is written.
pub round_div-scale :
    (c num den : ℕ) → 0 < c → 0 < den → round_div (c * num) (c * den) ≡ round_div num den
round_div-scale c num den hc h =
    let k = round_div num den in
    let (below, above) = round_div_bounds num den h in
    round_div_unique (c * num) (c * den) k (mul-pos hc h) (omega (arith, mul-le-mul_left c below))
      (omega (arith, mul-le-mul_left c above))
