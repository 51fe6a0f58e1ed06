-- ===== src/Prelude/Round.antt =====
-- Rounding a quotient `n / d` to a whole number, in the three modes of `decimal` that the program
-- uses, and the distance and extremes of two amounts.
use Prim.Native.Nat.{ℕ, ◌+◌, ◌-◌, ◌*◌, ◌/◌, ◌%◌, ◌≤◌, ◌<◌}
use mathlib.Core.Path.{◌≡◌}
use mathlib.Core.Logic.{◌⊎◌}
use native.Mathlib.Nat.{div-add-mod, mod-lt}
use native.Mathlib.Omega.{arith}
use ln_trading_app.Prelude.Tests.{leb, ltb, ◌==◌, if◌then◌else◌}

-- `abs(a - b)`
abbrev pub distance : ℕ → ℕ → ℕ
distance a b = if leb b a then a - b else b - a

abbrev pub maximum : ℕ → ℕ → ℕ
maximum a b = if leb a b then b else a

abbrev pub minimum : ℕ → ℕ → ℕ
minimum a b = if leb a b then a else b

-- ROUND_DOWN of a quotient that is not negative
unfoldable pub round_down : ℕ → ℕ → ℕ
round_down n d = n / d

-- ROUND_HALF_UP
unfoldable pub round_half_up : ℕ → ℕ → ℕ
round_half_up n d = if ltb (2 * (n % d)) d then n / d else n / d + 1

-- ROUND_HALF_EVEN, the context's default
unfoldable pub round_half_even : ℕ → ℕ → ℕ
round_half_even n d =
    if ltb (2 * (n % d)) d
    then n / d
    else if ltb d (2 * (n % d))
    then n / d + 1
    else if n / d % 2 == 0
    then n / d
    else n / d + 1

pub round_down_bounds : (n d : ℕ) → 0 < d → (round_down n d * d ≤ n) × (n < round_down n d * d + d)
unfolding round_down
round_down_bounds n d h = grind (arith, div-add-mod n d, mod-lt n h)

pub round_half_up_bounds :
    (n d : ℕ)
    → 0 < d
    → (2 * (round_half_up n d * d) ≤ 2 * n + d) × (2 * n < 2 * (round_half_up n d * d) + d)
unfolding round_half_up
round_half_up_bounds n d h = grind (arith, div-add-mod n d, mod-lt n h)

pub round_half_even_bounds :
    (n d : ℕ)
    → 0 < d
    → (2 * (round_half_even n d * d) ≤ 2 * n + d) × (2 * n ≤ 2 * (round_half_even n d * d) + d)
unfolding round_half_even
round_half_even_bounds n d h = grind (arith, div-add-mod n d, mod-lt n h)

pub mul_mono : (m a b : ℕ) → a ≤ b → m * a ≤ m * b
mul_mono m a b h = grind arith

pub mul_mono_right : (m a b : ℕ) → a ≤ b → a * m ≤ b * m
mul_mono_right m a b h = grind arith

-- A quotient of at most `k` is rounded to at most `k`.
pub round_half_even_le : (n d k : ℕ) → 0 < d → n ≤ k * d → round_half_even n d ≤ k
round_half_even_le n d k h le = grind (arith, round_half_even_bounds n d h)

-- A quotient of at least `k` is rounded to at least `k`.
pub le-round_half_up : (n d k : ℕ) → 0 < d → k * d ≤ n → k ≤ round_half_up n d
le-round_half_up n d k h le = grind (arith, round_half_up_bounds n d h)

pub round_half_up_le : (n d k : ℕ) → 0 < d → n ≤ k * d → round_half_up n d ≤ k
round_half_up_le n d k h le = grind (arith, round_half_up_bounds n d h)

pub round_half_up_mono : (m n d : ℕ) → 0 < d → m ≤ n → round_half_up m d ≤ round_half_up n d
round_half_up_mono m n d h le =
    grind (arith, round_half_up_bounds m d h, round_half_up_bounds n d h)

-- Division with remainder respects the order, first by the quotients.
quotients_lex :
    (q r q' r' d : ℕ) → r < d → r' < d → d * q + r ≤ d * q' + r' → (q < q') ⊎ ((q ≡ q') × (r ≤ r'))
quotients_lex q r q' r' d h h' le = grind (arith, mul_mono d (q' + 1) q)

pub round_half_even_mono : (m n d : ℕ) → 0 < d → m ≤ n → round_half_even m d ≤ round_half_even n d
unfolding round_half_even
round_half_even_mono m n d h le = ground (
  arith,
  div-add-mod m d,
  div-add-mod n d,
  quotients_lex (m / d) (m % d) (n / d) (n % d) d (mod-lt m h) (mod-lt n h),
)

-- A whole quotient is left alone.
pub round_half_up_exact : (k d : ℕ) → 0 < d → round_half_up (k * d) d ≡ k
round_half_up_exact k d h =
    let lo = le-round_half_up (k * d) d k h (omega arith) in
    let hi = round_half_up_le (k * d) d k h (omega arith) in omega arith

pub round_half_even_exact : (k d : ℕ) → 0 < d → round_half_even (k * d) d ≡ k
round_half_even_exact k d h =
    let hi = round_half_even_le (k * d) d k h (omega arith) in
    grind (
      arith,
      round_half_even_bounds (k * d) d h,
      mul_mono_right d (round_half_even (k * d) d + 1) k,
    )

pub le-round_half_even : (n d k : ℕ) → 0 < d → k * d ≤ n → k ≤ round_half_even n d
le-round_half_even n d k h le =
    omega (arith, round_half_even_mono (k * d) n d h le, round_half_even_exact k d h)

-- A larger divisor gives no larger quotient.
pub round_down_anti : (n d d' : ℕ) → 0 < d → d ≤ d' → round_down n d' ≤ round_down n d
round_down_anti n d d' h le = grind (
  arith,
  round_down_bounds n d h,
  round_down_bounds n d' (omega arith),
  mul_mono (round_down n d') d d' le,
  mul_mono_right d (round_down n d + 1) (round_down n d'),
)

pub round_down_zero : (d : ℕ) → round_down 0 d ≡ 0
unfolding round_down
round_down_zero d = omega arith
