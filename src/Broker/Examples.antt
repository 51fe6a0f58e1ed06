-- ===== src/Broker/Examples.antt =====
-- One trade on the paper broker, and a morning of ticks.
use ln_trading_app.Prelude.{
  All, List, Option, [], arith, false, none, refl, some, true, ℕ, ◌*◌, ◌+◌, ◌<◌, ◌∷◌, ◌≡◌, ◌≤◌,
}
use ln_trading_app.Broker.Aggregator.{TfState, Tick, new_aggregator, new_candle, on_tick}
use ln_trading_app.Broker.Aggregator.Candles.{AreCandles, IsState, run_ticks, run_ticks-AreCandles}
use ln_trading_app.Broker.Book.{
  Book, BrokerSettings, Market, Order, Position, Signal, User, get_current_price, manual,
}
use ln_trading_app.Broker.Depth.{Depth, spread_bps}
use ln_trading_app.Broker.Fill.{
  default_fill_settings, price_after_bps, round_tick, simulate_fill, spread_aware_bps,
}
use ln_trading_app.Broker.Fill.Adverse.{NoBetter, simulate_fill_pays}
use ln_trading_app.Broker.Paper.{
  Attempt, Closing, base_price_of, close_position, closing_at, err, existing_of, exit_fill_of, ok,
  one_or_none, place_paper_order, price_and_size, raw_exit_price, record_entry,
}
use ln_trading_app.Broker.Paper.Close.{close_position_pays}
use ln_trading_app.Broker.Paper.Place.{IsWithin, place_paper_order_budget}
use ln_trading_app.Broker.Sizing.{size_for_fill, used_risk}
use ln_trading_app.Clock.{minute, second}
use ln_trading_app.Money.{buy, intraday, long, quantize4, rupee, tick4}
use ln_trading_app.Prelude.Int.{pos, ◌≤ℤ◌}
use ln_trading_app.Prelude.Round.{distance, round_down, round_half_even, round_half_up}
use ln_trading_app.Signals.Levels.{compute_quantity}
use ln_trading_app.Trading.Fees.{zerodha_equity}
use ln_trading_app.Trading.TrailSl.{compute_pnl, no_trail}

abbrev pub paper_settings : BrokerSettings
paper_settings = record {
  fills = default_fill_settings;
  paper_costs_enabled = true;
  schedule = zerodha_equity;
}

-- A book of 499.95 and 500.05 rupees, thousand shares a side
abbrev pub tight_book : Depth
tight_book = record { bid = 49_995_000_000; ask = 50_005_000_000; bid_qty = 1000; ask_qty = 1000 }

-- Every stock trades at this price.
abbrev pub trading_at : ℕ → Market
trading_at price = record {
  live_ltp = λ stock. some price;
  live_depth = λ stock. some tight_book;
  minute_close = λ stock. none;
  daily_close = λ stock. none;
}

abbrev pub trader : User
trader = record {
  id = 1;
  capital_inr = 100_000 * rupee;
  risk_per_trade_pct = 100;
  allow_offmarket_entry = false;
  profit_lock_enabled = false;
}

abbrev pub long_signal : Signal
long_signal = record {
  id = 7;
  signal_stock = 3;
  classification = intraday;
  entry_price = 500 * rupee;
  stop_loss = 490 * rupee;
  take_profit = 520 * rupee;
}

abbrev pub no_book : Book
no_book = record { positions = []; orders = []; journal = []; next_id = 1 }

abbrev pub book_or_none : Attempt Book → Book
book_or_none (ok b) = b
book_or_none (err e) = no_book

abbrev pub bought : Book
bought = book_or_none (
    place_paper_order paper_settings (trading_at (500 * rupee)) 0 trader long_signal buy none
      no_book)

pub bought-ok :
    place_paper_order paper_settings
      (trading_at (500 * rupee))
      0
      trader
      long_signal
      buy
      none
      no_book
    ≡ ok bought
unfolding place_paper_order base_price_of one_or_none price_and_size record_entry size_for_fill
    simulate_fill round_tick quantize4 round_half_even round_half_up price_after_bps
    spread_aware_bps spread_bps compute_quantity round_down
bought-ok = refl

place_paper_order_budget_example :
    (o : Order) × (existing : Option Position) × (bought.orders ≡ o ∷ [])
    × (one_or_none [] ≡ ok existing)
    × (0 < o.filled_qty)
    × (o.filled_qty * (10_000 * distance o.filled_price (490 * rupee))
          + used_risk (existing_of existing) (490 * rupee)
        ≤ 100_000 * rupee * 100)
    × (existing ≡ none
        → (row : Position) × (bought.positions ≡ row ∷ []) × IsWithin (100_000 * rupee * 100) row)
place_paper_order_budget_example =
    place_paper_order_budget paper_settings (trading_at (500 * rupee)) 0 trader long_signal buy
      no_book bought-ok

-- With 1,000 rupees of budget and 50 shares open at 500, whose row keeps its stop at 480, a signal with
-- its stop at 495 buys 150 more: the 200 shares lose 4,000 rupees at the stop of the row.
stacked_entry :
    size_for_fill 100_000 100 500 495 (some (record { existing_qty = 50; existing_entry = 500 }))
    ≡ 150
unfolding size_for_fill round_down
stacked_entry = refl

simulate_fill_pays_example :
    NoBetter buy
      (simulate_fill default_fill_settings
        (10_000 * (500 * tick4))
        buy
        (some tight_book)
        (some 90)).fill
      (10_000 * (500 * tick4))
simulate_fill_pays_example =
    simulate_fill_pays default_fill_settings 10_000 500 buy (some tight_book) (some 90)
      (ground arith) refl

-- A long of 90 shares at 500.10 rupees, with its stop at 490 and its target at 520
abbrev pub held_long : Position
held_long = record {
  position_id = 1;
  user_id = 1;
  stock_id = 3;
  side = long;
  quantity = 90;
  avg_entry_price = 50_010_000_000;
  current_sl = some (490 * rupee);
  current_tp = some (520 * rupee);
  trail_state = no_trail;
  unrealized_pnl = pos 0;
  realized_pnl = pos 0;
  charges = none;
  exit_price = none;
  exit_reason = none;
  peak_price = none;
  peak_pnl = none;
  opened_at = 0;
  closed_at = none;
  signal_id = some 7;
}

abbrev at_510 : Market
at_510 = trading_at (510 * rupee)

-- The closing of that position on request
abbrev closing_at_510 : Closing
closing_at_510 =
    closing_at paper_settings 9 (some intraday) manual held_long
      (exit_fill_of paper_settings at_510 none held_long)

closes_at_510 :
    close_position paper_settings at_510 9 (some intraday) none manual held_long
    ≡ some closing_at_510
unfolding close_position
closes_at_510 = refl

close_position_pays_example :
    closing_at_510.closed_position.realized_pnl
    ≤ℤ compute_pnl long 50_010_000_000 (10_200 * (500 * tick4)) 90
unfolding raw_exit_price get_current_price
close_position_pays_example =
    close_position_pays paper_settings at_510 9 (some intraday) none manual held_long 10_200 500
      (ground arith) refl refl closes_at_510

-- 04:00 UTC on 2026-08-03, a Monday, is 09:30 in India.
abbrev pub half_past_nine : ℕ
half_past_nine = 1_785_729_600 * second

abbrev tick_at : ℕ → ℕ → Tick
tick_at time price = record {
  tick_time = time;
  last_price = some price;
  volume_traded = none;
  last_quantity = 10;
}

abbrev first_ticks : List Tick
first_ticks =
    tick_at half_past_nine 500
    ∷ tick_at (half_past_nine + second) 503
    ∷ tick_at (half_past_nine + minute) 499
    ∷ []

run_ticks-AreCandles_example :
    let a = run_ticks first_ticks new_aggregator in
    All IsState a.states × AreCandles (on_tick (tick_at (half_past_nine + 2 * minute) 501) a).1
run_ticks-AreCandles_example =
    run_ticks-AreCandles first_ticks (tick_at (half_past_nine + 2 * minute) 501)

abbrev open_minute : TfState
open_minute = record { current = some (new_candle half_past_nine 500 10); minutes = 1 }
