-- ===== src/Backtest/Engine.antt =====
-- One simulated trade over a candle history (backend/app/backtest/engine.py). A price is a whole
-- number of money units, and the result is kept as the difference that the source divides by the
-- entry.
pub mod Honest
use ln_trading_app.Prelude.{
  Bool, List, Option, [], drop, false, if◌then◌else◌, leb, none, not, some, true, ℕ, ◌&&◌, ◌+◌, ◌∷◌,
}
use ln_trading_app.Money.{OrderSide, buy, sell}
use ln_trading_app.Prelude.Int.{sub_ℕ, ℤ}

-- A row of the candle frame; `session_last` is false everywhere if the caller gives no such list.
pub record OhlcBar : Type 0 where
  pub open_price : ℕ
  pub high : ℕ
  pub low : ℕ
  pub close_price : ℕ
  pub session_last : Bool

pub record TradeExit : Type 0 where
  pub exit_bar : ℕ
  pub exit_at : ℕ
  pub hit_sl : Bool
  pub hit_target : Bool

pub record TradeRecord : Type 0 where
  pub direction : OrderSide
  pub entry_bar : ℕ
  pub entry_at : ℕ
  pub trade_exit : TradeExit
  pub pnl : ℤ  -- `pnl_pct` times the entry over 100

-- `x <= stop_loss if buy else x >= stop_loss`
abbrev pub at_stop : OrderSide → ℕ → ℕ → Bool
at_stop buy stop_loss x = leb x stop_loss
at_stop sell stop_loss x = leb stop_loss x

-- `x >= take_profit if buy else x <= take_profit`
abbrev pub at_target : OrderSide → ℕ → ℕ → Bool
at_target buy take_profit x = leb take_profit x
at_target sell take_profit x = leb x take_profit

-- The extreme of a bar against the trade, and the one in its favour
abbrev pub worst_of : OrderSide → OhlcBar → ℕ
worst_of buy c = c.low
worst_of sell c = c.high

abbrev pub best_of : OrderSide → OhlcBar → ℕ
best_of buy c = c.high
best_of sell c = c.low

abbrev pub exit_by : ℕ → ℕ → Bool → TradeExit
exit_by i price sl = record { exit_bar = i; exit_at = price; hit_sl = sl; hit_target = not sl }

-- One bar: a gap through a level exits at the open, except on the bar of the fill; then the levels
-- inside the bar, the stop first; then the end of a session, which is no hit.
unfoldable pub check_bar : OrderSide → ℕ → ℕ → Bool → ℕ → OhlcBar → Option TradeExit
check_bar direction stop_loss take_profit is_fill i c =
    if not is_fill && at_stop direction stop_loss c.open_price
    then some (exit_by i c.open_price true)
    else if not is_fill && at_target direction take_profit c.open_price
    then some (exit_by i c.open_price false)
    else if at_stop direction stop_loss (worst_of direction c)
    then some (exit_by i stop_loss true)
    else if at_target direction take_profit (best_of direction c)
    then some (exit_by i take_profit false)
    else if c.session_last
    then some (record { exit_bar = i; exit_at = c.close_price; hit_sl = false; hit_target = false })
    else none

-- The loop over the bars from one on; `none`: no bar ended the trade.
unfoldable pub walk_bars : OrderSide → ℕ → ℕ → Bool → ℕ → List OhlcBar → Option TradeExit
unfolding check_bar
walk_bars direction stop_loss take_profit is_fill i [] = none
walk_bars direction stop_loss take_profit is_fill i (c ∷ bars) =
    let later = walk_bars direction stop_loss take_profit false (i + 1) bars in
    elim (check_bar direction stop_loss take_profit is_fill i c) [
      | some exit ↦ some exit
      | none ↦ later
    ]

-- The last bar of the history: `candles.iloc[-1]`, at its close and without a hit
abbrev pub at_last_close : ℕ → OhlcBar → List OhlcBar → TradeExit
at_last_close i c [] = record {
  exit_bar = i;
  exit_at = c.close_price;
  hit_sl = false;
  hit_target = false;
}
at_last_close i c (d ∷ bars) = at_last_close (i + 1) d bars

abbrev pub or_exit : Option TradeExit → TradeExit → TradeExit
or_exit none last = last
or_exit (some exit) last = exit

abbrev pub signed_move : OrderSide → ℕ → ℕ → ℤ
signed_move buy entry price = sub_ℕ price entry
signed_move sell entry price = sub_ℕ entry price

-- The trade on the bars from the fill on
unfoldable pub trade_from : OrderSide → ℕ → ℕ → ℕ → List OhlcBar → Option TradeRecord
unfolding walk_bars
trade_from direction stop_loss take_profit fill_idx [] = none
trade_from direction stop_loss take_profit fill_idx (c ∷ bars) =
    let exit : TradeExit =
      or_exit (walk_bars direction stop_loss take_profit true fill_idx (c ∷ bars))
        (at_last_close fill_idx c bars) in
    some (record {
      direction = direction;
      entry_bar = fill_idx;
      entry_at = c.open_price;
      trade_exit = exit;
      pnl = signed_move direction c.open_price exit.exit_at;
    })

-- `_simulate_trade`: the fill is at the open of the bar after the signal's; `none` if there is none.
unfoldable pub simulate_trade : OrderSide → ℕ → ℕ → ℕ → List OhlcBar → Option TradeRecord
unfolding trade_from
simulate_trade direction stop_loss take_profit signal_candle_idx candles =
    trade_from direction stop_loss take_profit (signal_candle_idx + 1)
      (drop (signal_candle_idx + 1) candles)
