-- ===== src/Backtest/Examples.antt =====
-- A buy on four bars, stopped by a gap, and the bars that follow.
use ln_trading_app.Prelude.{
  List, [], arith, false, get_elem?, refl, some, true, ℕ, ◌++◌, ◌<◌, ◌∷◌, ◌≡◌,
}
use ln_trading_app.Backtest.Engine.{
  OhlcBar, TradeRecord, check_bar, simulate_trade, trade_from, walk_bars,
}
use ln_trading_app.Backtest.Engine.Honest.{Fair, simulate_trade-Fair, simulate_trade-append}
use ln_trading_app.Money.{buy}
use ln_trading_app.Prelude.Int.{negsuc}

abbrev bar_of : ℕ → ℕ → ℕ → ℕ → OhlcBar
bar_of first top bottom last = record {
  open_price = first;
  high = top;
  low = bottom;
  close_price = last;
  session_last = false;
}

-- The signal is on the first bar; the third opens below the stop of 95.
abbrev gap_down : List OhlcBar
gap_down =
    bar_of 98 101 97 100 ∷ bar_of 100 104 99 103 ∷ bar_of 93 96 90 94 ∷ bar_of 94 99 92 98 ∷ []

abbrev gapped : TradeRecord
gapped = record {
  direction = buy;
  entry_bar = 1;
  entry_at = 100;
  trade_exit = record { exit_bar = 2; exit_at = 93; hit_sl = true; hit_target = false };
  pnl = negsuc 6;
}

gapped_exits : simulate_trade buy 95 110 0 gap_down ≡ some gapped
unfolding simulate_trade trade_from walk_bars check_bar
gapped_exits = refl

simulate_trade-Fair_example :
    (0 < 2)
    × ((c : OhlcBar) × ((get_elem? gap_down 2 ≡ some c) × Fair buy 95 110 c gapped.trade_exit))
simulate_trade-Fair_example =
    simulate_trade-Fair buy 95 110 0 gap_down gapped (ground arith) (ground arith) gapped_exits

simulate_trade-append_example :
    simulate_trade buy 95 110 0 (gap_down ++ (bar_of 120 121 119 120 ∷ [])) ≡ some gapped
simulate_trade-append_example =
    simulate_trade-append buy 95 110 0 gap_down (bar_of 120 121 119 120 ∷ []) gapped refl
      gapped_exits
