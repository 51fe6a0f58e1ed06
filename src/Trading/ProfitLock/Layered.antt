-- ===== src/Trading/ProfitLock/Layered.antt =====
-- The layered ratchet: its floors, and the share of the peak profit that it keeps.
use ln_trading_app.Prelude.{Option, arith, true, ℕ, ◌*◌, ◌+◌, ◌-◌, ◌≡◌, ◌≤◌}
use ln_trading_app.Money.{Classification, Side, long, rupee, short}
use ln_trading_app.Prelude.Round.{
  mul_mono, round_half_even, round_half_even_bounds, round_half_even_le,
}
use ln_trading_app.Trading.ProfitLock.{
  RatchetParams, favour, giveback_fraction, is_armed, layered_ratchet_stop, params_for, taper,
}
use ln_trading_app.Trading.TrailSl.{NoLooser}

-- A preset whose giveback falls from at most all of the profit.
pub record IsTapered (params : RatchetParams) : Type 0 where
  pub falls : params.giveback_late ≤ params.giveback_early
  pub part : params.giveback_early ≤ rupee

taper_bounds :
    (early late frac : ℕ)
    → late ≤ early
    → frac ≤ rupee
    → (late * rupee ≤ taper early late frac) × (taper early late frac ≤ early * rupee)
taper_bounds early late frac h k = grind arith

-- The fraction given back lies between the late and the early one, at every multiple of R.
pub giveback_fraction_bounds :
    (params : RatchetParams) (r_mult : ℕ)
    → IsTapered params
    → (params.giveback_late * rupee ≤ giveback_fraction params r_mult)
      × (giveback_fraction params r_mult ≤ params.giveback_early * rupee)
unfolding giveback_fraction
giveback_fraction_bounds params r_mult t = ground (
  arith,
  taper_bounds params.giveback_early params.giveback_late
      (round_half_even ((r_mult - params.arm_r) * rupee) (params.late_r - params.arm_r)) t.falls,
  round_half_even_le ((r_mult - params.arm_r) * rupee) (params.late_r - params.arm_r) rupee,
)

-- The presets of every class are tapered.
pub params_for-IsTapered : (c : Option Classification) → IsTapered (params_for c)
unfolding params_for
params_for-IsTapered c = ground arith

kept_scaled :
    (move a b : ℕ)
    → a * rupee ≤ b
    → b ≤ rupee * rupee
    → let kept = round_half_even (move * b) (rupee * rupee) in
      (2 * (move * a) ≤ 2 * (kept * rupee) + rupee) × (kept ≤ move)
kept_scaled move a b h k =
    let (_, near) = round_half_even_bounds (move * b) (rupee * rupee) (omega arith) in
    (
      omega (arith, near, mul_mono move (a * rupee) b h),
      round_half_even_le (move * b) (rupee * rupee) move (omega arith)
          (mul_mono move b (rupee * rupee) k),
    )

-- `move * (1 - g)`, rounded, keeps `1 - early` of the move to within half a unit.
kept_share :
    (move g early : ℕ)
    → g ≤ early * rupee
    → early ≤ rupee
    → let kept = round_half_even (move * (rupee * rupee - g)) (rupee * rupee) in
      (2 * (move * (rupee - early)) ≤ 2 * (kept * rupee) + rupee) × (kept ≤ move)
kept_share move g early h k =
    kept_scaled move (rupee - early) (rupee * rupee - g) (omega arith) (omega arith)

-- Armed or not, the stop is at least as tight as the one in force and the initial one.
pub layered_ratchet_stop_floors :
    (side : Side) (entry original_sl peak : ℕ) (atr : Option ℕ) (params : RatchetParams)
    (current : ℕ)
    → let stop = layered_ratchet_stop side entry original_sl peak atr params current in
      NoLooser side stop current × NoLooser side stop original_sl
unfolding layered_ratchet_stop
layered_ratchet_stop_floors long entry original_sl peak atr params current = ground arith
layered_ratchet_stop_floors short entry original_sl peak atr params current = ground arith

-- The profit over the entry that a stop holds.
abbrev pub kept_at : Side → ℕ → ℕ → ℕ
kept_at long entry stop = stop - entry
kept_at short entry stop = entry - stop

-- Once the trade has moved `arm_r` R in favour, the stop keeps all but the early giveback of the
-- peak profit, to within half a unit of money, if the giveback falls and is at most the whole.
pub layered_ratchet_stop_keeps :
    (side : Side) (entry original_sl peak : ℕ) (atr : Option ℕ) (params : RatchetParams)
    (current : ℕ)
    → IsTapered params
    → is_armed side entry peak (favour side original_sl entry) params.arm_r ≡ true
    → let stop = layered_ratchet_stop side entry original_sl peak atr params current in
      2 * (favour side entry peak * (rupee - params.giveback_early))
      ≤ 2 * (kept_at side entry stop * rupee) + rupee
unfolding layered_ratchet_stop
layered_ratchet_stop_keeps long entry original_sl peak atr params current t armed =
    let r : ℕ = round_half_even ((peak - entry) * rupee) (entry - original_sl) in
    ground (
      arith,
      kept_share (peak - entry) (giveback_fraction params r) params.giveback_early
          (giveback_fraction_bounds params r t).1 t.part,
    )
layered_ratchet_stop_keeps short entry original_sl peak atr params current t armed =
    let r : ℕ = round_half_even ((entry - peak) * rupee) (original_sl - entry) in
    ground (
      arith,
      kept_share (entry - peak) (giveback_fraction params r) params.giveback_early
          (giveback_fraction_bounds params r t).1 t.part,
    )
