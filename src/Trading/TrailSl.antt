-- ===== src/Trading/TrailSl.antt =====
-- The trailing stop-loss ladder and the tests on a stop or target
-- (backend/app/trading/trail_sl.py). Prices are not negative, so an order between differences is
-- written as an order between sums.
pub mod Ladder
use ln_trading_app.Prelude.{
  Bool, false, if◌then◌else◌, leb, ltb, true, ℕ, ◌*◌, ◌+◌, ◌-◌, ◌/◌, ◌==◌, ◌≤◌,
}
use ln_trading_app.Money.{Side, long, short}
use ln_trading_app.Prelude.Int.{sub_ℕ, ℤ}
use ln_trading_app.Prelude.Round.{distance, maximum, minimum}

-- `_STATES`; `unknown` is any other string of the column
pub data TrailState : Type 0 where
  no_trail breakeven trailing_1 trailing_2 unknown : TrailState

-- `_STATES.index`, after an unknown string has been read as "none"
abbrev pub index : TrailState → ℕ
index no_trail = 0
index breakeven = 1
index trailing_1 = 2
index trailing_2 = 3
index unknown = 0

abbrev pub known : TrailState → TrailState
known unknown = no_trail
known s = s

pub record TrailResult : Type 0 where
  pub new_sl : ℕ
  pub new_state : TrailState
  pub advanced : Bool

-- `price_move >= risk * k / 2`
abbrev pub moved : Side → ℕ → ℕ → ℕ → ℕ → Bool
moved long entry price risk k = leb (2 * entry + k * risk) (2 * price)
moved short entry price risk k = leb (2 * price + k * risk) (2 * entry)

-- `a` protects at least as much as `b`.
abbrev pub NoLooser : Side → ℕ → ℕ → Type 0
NoLooser long a b = b ≤ a
NoLooser short a b = a ≤ b

-- The best state that the price allows: 2R, 1.5R or 1R.
unfoldable pub target_state : Side → ℕ → ℕ → ℕ → TrailState
target_state side entry price risk =
    if moved side entry price risk 4
    then trailing_2
    else if moved side entry price risk 3
    then trailing_1
    else if moved side entry price risk 2
    then breakeven
    else no_trail

-- `new_sl` before the guard. `risk * Decimal("0.5")` is exact on the grid of stored prices.
unfoldable pub raw_sl : Side → TrailState → ℕ → ℕ → ℕ → ℕ
raw_sl side breakeven entry price risk = entry
raw_sl long trailing_1 entry price risk = entry + risk / 2
raw_sl short trailing_1 entry price risk = entry - risk / 2
raw_sl long _ entry price risk = price - risk
raw_sl short _ entry price risk = price + risk

-- "Never move SL against the position"
abbrev pub guard_sl : Side → ℕ → ℕ → ℕ
guard_sl long new_sl current_sl = if ltb new_sl current_sl then current_sl else new_sl
guard_sl short new_sl current_sl = if ltb current_sl new_sl then current_sl else new_sl

unfoldable pub advance_trail : Side → ℕ → ℕ → ℕ → ℕ → TrailState → TrailResult
unfolding target_state raw_sl
advance_trail side entry original_sl current_sl current_price current_state =
    let state = known current_state in
    let risk = distance entry original_sl in
    let target = target_state side entry current_price risk in
    let unchanged : TrailResult = record {
      new_sl = current_sl;
      new_state = state;
      advanced = false;
    } in
    if risk == 0
    then unchanged
    else if leb (index target) (index state)
    then unchanged
    else record {
      new_sl = guard_sl side (raw_sl side target entry current_price risk) current_sl;
      new_state = target;
      advanced = true;
    }

unfoldable pub is_sl_hit : Side → ℕ → ℕ → Bool
is_sl_hit long current_price current_sl = leb current_price current_sl
is_sl_hit short current_price current_sl = leb current_sl current_price

unfoldable pub is_tp_hit : Side → ℕ → ℕ → Bool
is_tp_hit long current_price current_tp = leb current_tp current_price
is_tp_hit short current_price current_tp = leb current_price current_tp

unfoldable pub stop_fill_price : Side → ℕ → ℕ → ℕ
stop_fill_price long stop market_price = minimum stop market_price
stop_fill_price short stop market_price = maximum stop market_price

-- Profit in units of money: negative for a loss.
unfoldable pub compute_pnl : Side → ℕ → ℕ → ℕ → ℤ
compute_pnl long entry exit_price quantity = sub_ℕ (exit_price * quantity) (entry * quantity)
compute_pnl short entry exit_price quantity = sub_ℕ (entry * quantity) (exit_price * quantity)
