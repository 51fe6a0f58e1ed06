-- ===== src/Signals/Levels/Guards.antt =====
-- What levels that pass the guards satisfy.
use ln_trading_app.Prelude.{arith, false, some, ℕ, ◌*◌, ◌+◌, ◌-◌, ◌<◌, ◌≡◌, ◌≢◌, ◌≤◌}
use ln_trading_app.Money.{
  Classification, OrderSide, buy, intraday, investment, other, positional, rupee, scalp, sell,
  swing, tick4,
}
use ln_trading_app.Prelude.Int.{pos, ℤ, ◌≤ℤ◌}
use ln_trading_app.Prelude.Round.{
  distance, le-round_half_even, round_down, round_down_bounds, round_half_even_bounds,
  round_half_even_le,
}
use ln_trading_app.Signals.Levels.{
  Levels, Structure, TpTemplate, compute_levels, compute_quantity, ema_trail, flat_pct,
  flat_pct_trailing, max_sl_pct, pct_of, placed, rr, safe_levels, target_at, tp_from_template,
  wrong_side,
}

-- The levels of a live signal: the stop strictly on the losing side of the entry, and no further
-- than the cap of its class.
pub record IsSafe (direction : OrderSide) (c : Classification) (entry : ℕ) (levels : Levels)
    : Type 0 where
  pub right_side : wrong_side direction entry levels.stop_loss ≡ false
  pub within_cap : c ≢ positional → distance entry levels.stop_loss * 10_000 ≤ entry * max_sl_pct c

-- Levels that the live paths accept have the stop on the losing side, inside the cap of the class.
pub safe_levels-IsSafe :
    (direction : OrderSide) (c : Classification) (entry : ℕ) (s : Structure) {levels : Levels}
    → safe_levels direction c entry s ≡ placed levels
    → IsSafe direction c entry levels
unfolding safe_levels compute_levels
safe_levels-IsSafe direction scalp entry s h = ground arith
safe_levels-IsSafe direction intraday entry s h = ground arith
safe_levels-IsSafe direction swing entry s h = ground arith
safe_levels-IsSafe direction positional entry s h = ground arith
safe_levels-IsSafe direction investment entry s h = ground arith
safe_levels-IsSafe direction other entry s h = ground arith

distance_pos :
    (direction : OrderSide) (entry sl : ℕ)
    → wrong_side direction entry sl ≡ false
    → 0 < 10_000 * distance entry sl
distance_pos buy entry sl h = ground arith
distance_pos sell entry sl h = ground arith

-- The crash that the guard exists for cannot happen: sizing a guarded signal never raises, and
-- the size keeps the loss at the stop within the risk budget, with no room for one more share.
pub compute_quantity_safe :
    (direction : OrderSide) (c : Classification) (entry capital risk_pct : ℕ) (s : Structure)
    {levels : Levels}
    → safe_levels direction c entry s ≡ placed levels
    → let risk = distance entry levels.stop_loss * 10_000 in
      (qty : ℕ) × (compute_quantity capital risk_pct entry levels.stop_loss ≡ some qty)
      × (qty * risk ≤ capital * risk_pct)
      × (capital * risk_pct < qty * risk + risk)
unfolding compute_quantity
compute_quantity_safe direction c entry capital risk_pct s {levels} h =
    let risk : ℕ = 10_000 * distance entry levels.stop_loss in
    let apart : 0 < risk =
      distance_pos direction entry levels.stop_loss
        (safe_levels-IsSafe direction c entry s h).right_side in
    let (low, high) = round_down_bounds (capital * risk_pct) risk apart in
    (round_down (capital * risk_pct) risk, ground arith, omega arith, omega arith)

-- An intraday target is two risks away from the entry, on the other side of it than the stop.
pub safe_levels_intraday :
    (direction : OrderSide) (entry : ℕ) (s : Structure) {levels : Levels}
    → safe_levels direction intraday entry s ≡ placed levels
    → (distance entry levels.take_profit ≡ 2 * distance entry levels.stop_loss)
      × (wrong_side direction levels.take_profit levels.stop_loss ≡ false)
unfolding safe_levels compute_levels
safe_levels_intraday direction entry s h = ground arith

-- A scalp is never rejected, from an entry of 0.025 rupee on.
pub scalp_levels :
    (direction : OrderSide) (entry : ℕ) (s : Structure)
    → 250 * tick4 ≤ entry
    → (levels : Levels) × (safe_levels direction scalp entry s ≡ placed levels)
unfolding safe_levels compute_levels pct_of
scalp_levels buy entry s h = (
  record { stop_loss = entry - pct_of entry 30; take_profit = entry + pct_of entry 45 },
  ground (arith, round_half_even_bounds (entry * 30) (10_000 * tick4)),
)
scalp_levels sell entry s h = (
  record { stop_loss = entry + pct_of entry 30; take_profit = entry - pct_of entry 45 },
  ground (arith, round_half_even_bounds (entry * 30) (10_000 * tick4)),
)

-- A signed target is at or above the entry for a buy, and at or below it for a sell.
abbrev pub OnProfitSide : OrderSide → ℕ → ℤ → Type 0
OnProfitSide buy entry tp = pos entry ≤ℤ tp
OnProfitSide sell entry tp = tp ≤ℤ pos entry

target_at_side :
    (direction : OrderSide) (k amount d : ℕ)
    → 0 < d
    → OnProfitSide direction (k * tick4) (target_at direction (k * tick4) amount d)
target_at_side buy k amount d h =
    let up =
      le-round_half_even (k * tick4 * d + amount - 0) (d * tick4) k (omega arith) (omega arith) in
    ground arith
target_at_side sell k amount d h =
    let down =
      round_half_even_le (k * tick4 * d - amount) (d * tick4) k (omega arith) (omega arith) in
    ground arith

-- From an entry on the grid of stored prices, the target of every template, for every parameter
-- and stop, lies on the profit side: at or above the entry for a buy, at or below it for a sell.
pub tp_from_template-OnProfitSide :
    (t : TpTemplate) (direction : OrderSide) (k stop_loss : ℕ)
    → OnProfitSide direction (k * tick4) (tp_from_template t direction (k * tick4) stop_loss)
unfolding tp_from_template
tp_from_template-OnProfitSide (rr ratio) direction k stop_loss =
    target_at_side direction k (distance (k * tick4) stop_loss * ratio) rupee (omega arith)
tp_from_template-OnProfitSide (flat_pct p) direction k stop_loss =
    target_at_side direction k (k * tick4 * p) (100 * rupee) (omega arith)
tp_from_template-OnProfitSide (flat_pct_trailing p) direction k stop_loss =
    target_at_side direction k (k * tick4 * p) (100 * rupee) (omega arith)
tp_from_template-OnProfitSide (ema_trail p) direction k stop_loss =
    target_at_side direction k (k * tick4 * p) (100 * rupee) (omega arith)
