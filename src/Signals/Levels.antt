-- ===== src/Signals/Levels.antt =====
-- Position size and stop-loss/take-profit placement (backend/app/analysis/risk.py), the guard of
-- the live paths (backend/app/signals/risk_guards.py) and the take-profit templates
-- (backend/app/backtest/tp_rules.py). Percentages are in units of 0.01 percent, but those of a
-- template are fixed-point with eight places.
pub mod Guards
use ln_trading_app.Prelude.{
  Bool, Option, false, if◌then◌else◌, leb, ltb, none, not, some, true, ℕ, ◌*◌, ◌+◌, ◌-◌, ◌/◌, ◌==◌,
}
use ln_trading_app.Money.{
  Classification, OrderSide, buy, intraday, investment, other, positional, rupee, scalp, sell,
  swing, tick4,
}
use ln_trading_app.Prelude.Int.{pos, sub_ℕ, ℤ}
use ln_trading_app.Prelude.Round.{distance, round_down, round_half_even}
use ln_trading_app.Trading.Fees.{pct}

-- `none` is the ValueError.
unfoldable pub compute_quantity : ℕ → ℕ → ℕ → ℕ → Option ℕ
compute_quantity capital risk_pct entry stop_loss =
    if entry == stop_loss
    then none
    else some (round_down (capital * risk_pct) (10_000 * distance entry stop_loss))

-- `volatility_adjusted_qty`; whether ATR(14) is above 3% of the price comes as an argument.
unfoldable pub volatility_adjusted_qty : ℕ → Bool → ℕ
volatility_adjusted_qty qty volatile = if qty == 0 then 0 else if volatile then qty * 3 / 4 else qty

-- `(price * pct / 100).quantize(Decimal("0.0001"))`
unfoldable pub pct_of : ℕ → ℕ → ℕ
pct_of price pct = round_half_even (price * pct) (10_000 * tick4) * tick4

pub record Levels : Type 0 where
  pub stop_loss : ℕ
  pub take_profit : ℕ

-- A pair of levels, `None`, or the ValueError for an unknown classification
pub data LevelsResult : Type 0 where
  placed : Levels → LevelsResult
  rejected : LevelsResult
  unknown_classification : LevelsResult

-- What the swing structure offers for the stop.
pub record Structure : Type 0 where
  pub swing_low : Option ℕ
  pub swing_high : Option ℕ
  pub ema20_daily : Option ℕ

abbrev pub or_else : Option ℕ → ℕ → ℕ
or_else none d = d
or_else (some x) d = x

-- `entry - amount` for a buy and `entry + amount` for a sell
abbrev pub below_entry : OrderSide → ℕ → ℕ → ℕ
below_entry buy entry amount = entry - amount
below_entry sell entry amount = entry + amount

abbrev pub above_entry : OrderSide → ℕ → ℕ → ℕ
above_entry buy entry amount = entry + amount
above_entry sell entry amount = entry - amount

abbrev pub swing_of : OrderSide → Structure → Option ℕ
swing_of buy s = s.swing_low
swing_of sell s = s.swing_high

unfoldable pub stop_of : OrderSide → Classification → ℕ → Structure → ℕ
stop_of direction scalp entry s = below_entry direction entry (pct_of entry 30)
stop_of direction intraday entry s =
    or_else (swing_of direction s) (below_entry direction entry (pct_of entry 30))
stop_of direction swing entry s =
    or_else (swing_of direction s) (below_entry direction entry (pct_of entry 200))
stop_of direction _ entry s = or_else s.ema20_daily (below_entry direction entry (pct_of entry 500))

-- For intraday both `entry + (entry - sl) * 2` and `entry - (sl - entry) * 2`; it falls below zero
-- only for a stop that the cap rejects.
unfoldable pub target_of : OrderSide → Classification → ℕ → ℕ → ℕ
target_of direction scalp entry sl = above_entry direction entry (pct_of entry 45)
target_of direction intraday entry sl = 3 * entry - 2 * sl
target_of direction swing entry sl = above_entry direction entry (pct_of entry 600)
target_of direction _ entry sl = above_entry direction entry (pct_of entry 1500)

abbrev pub max_sl_pct : Classification → ℕ
max_sl_pct scalp = 50
max_sl_pct intraday = 50
max_sl_pct swing = 800
max_sl_pct _ = 1500

-- `abs(entry - sl) / entry * 100 > max_sl_pct`
abbrev pub too_far : Classification → ℕ → ℕ → Bool
too_far positional entry sl = false
too_far classification entry sl =
    ltb (entry * max_sl_pct classification) (distance entry sl * 10_000)

abbrev pub is_known : Classification → Bool
is_known investment = false
is_known other = false
is_known _ = true

unfoldable pub compute_levels : OrderSide → Classification → ℕ → Structure → LevelsResult
unfolding stop_of target_of
compute_levels direction classification entry s =
    let sl : ℕ = stop_of direction classification entry s in
    if not (is_known classification)
    then unknown_classification
    else if too_far classification entry sl
    then rejected
    else placed
        (record { stop_loss = sl; take_profit = target_of direction classification entry sl })

-- The stop is at the entry or on the wrong side of it.
abbrev pub wrong_side : OrderSide → ℕ → ℕ → Bool
wrong_side buy entry stop_loss = leb entry stop_loss
wrong_side sell entry stop_loss = leb stop_loss entry

unfoldable pub safe_levels : OrderSide → Classification → ℕ → Structure → LevelsResult
safe_levels direction classification entry s =
    elim (compute_levels direction classification entry s) [
      | placed levels ↦
          if wrong_side direction entry levels.stop_loss then rejected else placed levels
      | rejected ↦ rejected
      | unknown_classification ↦ unknown_classification
    ]

pub data TpTemplate : Type 0 where
  rr flat_pct flat_pct_trailing ema_trail : ℕ → TpTemplate

-- `((a - b) / d).quantize(0.0001)`, with the sign of the difference
abbrev pub quantize_difference : ℕ → ℕ → ℕ → ℤ
quantize_difference a b d =
    if leb b a
    then pos (round_half_even (a - b) (d * tick4) * tick4)
    else sub_ℕ 0 (round_half_even (b - a) (d * tick4) * tick4)

-- `entry ± amount / d`, quantized
abbrev pub target_at : OrderSide → ℕ → ℕ → ℕ → ℤ
target_at buy entry amount d = quantize_difference (entry * d + amount) 0 d
target_at sell entry amount d = quantize_difference (entry * d) amount d

unfoldable pub tp_from_template : TpTemplate → OrderSide → ℕ → ℕ → ℤ
tp_from_template (rr ratio) direction entry stop_loss =
    target_at direction entry (distance entry stop_loss * ratio) rupee
tp_from_template (flat_pct p) direction entry stop_loss =
    target_at direction entry (entry * p) (100 * rupee)
tp_from_template (flat_pct_trailing p) direction entry stop_loss =
    target_at direction entry (entry * p) (100 * rupee)
tp_from_template (ema_trail p) direction entry stop_loss =
    target_at direction entry (entry * p) (100 * rupee)
