-- ===== src/Api/Examples.antt =====
-- Requests on concrete books, under the gates of the configuration.
use ln_trading_app.Prelude.{List, Option, [], length, none, refl, some, true, ℕ, ◌*◌, ◌∷◌, ◌≡◌, ◌≢◌}
use ln_trading_app.Api.{
  GateReads, GateSettings, Response, SignalRow, active_signal, failure, faulted, fetched, gated,
  liquidity_gate, position_already_closed, stop_beyond_entry, success, uncaught,
}
use ln_trading_app.Api.Orders.{
  Account, Around, PlaceOrderRequest, PlacedOrder, Verdicts, apply_eligibility_overlays,
  overlay_stamps, place_order,
}
use ln_trading_app.Api.Orders.Effects.{place_order_shadow}
use ln_trading_app.Api.Orders.Overlays.{Rejected, apply_eligibility_overlays-Blames}
use ln_trading_app.Api.Orders.Placing.{GoesThrough, GoesThrough-place_order}
use ln_trading_app.Api.Positions.{
  get_position, manual_close_position, own_open_position, update_stop_loss, with_stop,
}
use ln_trading_app.Api.Positions.Effects.{Losing, update_stop_loss_moves}
use ln_trading_app.Api.Sessions.{
  Reached, Reached-OneOpen, closed_by_hand, nothing_yet, order_placed, stop_moved, then_next,
}
use ln_trading_app.Api.Sessions.Settled.{Later, manual_close_position_once}
use ln_trading_app.Broker.Book.{Book, BrokerSettings, Market, Position, is_open, manual}
use ln_trading_app.Broker.Depth.{spread_bps}
use ln_trading_app.Broker.Examples.{
  bought, bought-ok, long_signal, no_book, paper_settings, trader, trading_at,
}
use ln_trading_app.Broker.Fill.{price_after_bps, round_tick, simulate_fill, spread_aware_bps}
use ln_trading_app.Broker.Paper.{
  Closing, base_price_of, charges_of, close_position, closing_at, err, exit_fill_of,
  multiple_results, new_position, one_or_none, open_rows, place_paper_order, price_and_size,
  raw_exit_price, record_entry, size_from,
}
use ln_trading_app.Broker.Paper.Rows.{OneOpen}
use ln_trading_app.Broker.Sizing.{size_for_fill}
use ln_trading_app.Money.{Classification, buy, intraday, long, quantize4, rupee}
use ln_trading_app.Prelude.Int.{negsuc, pos}
use ln_trading_app.Prelude.Round.{round_down, round_half_even, round_half_up}
use ln_trading_app.Signals.Levels.{compute_quantity}
use ln_trading_app.Signals.Overlays.{Mode, mode_active, mode_off, mode_shadow}
use ln_trading_app.Signals.Overlays.EntryQuality.{scored, unreadable}
use ln_trading_app.Signals.Overlays.Regime.{transitional}
use ln_trading_app.Trading.CircuitBreaker.{
  check_circuit_breaker, get_daily_realized_pnl, get_trades_taken_today, loss_reached,
}

-- The defaults of the configuration, with one mode for the liquidity gate
abbrev gates_with : Mode → GateSettings
gates_with liquidity = record {
  regime_gate_mode = mode_shadow;
  circuit_gate_mode = mode_shadow;
  circuit_proximity_pct = 150;
  entry_diversity_gate_mode = mode_active;
  entry_sl_atr_gate_mode = mode_shadow;
  entry_settings = record {
    min_scoring_factors = 2;
    max_dominant_share = 9_000;
    min_sl_atr_mult = 100;
  };
  sector_rs_gate_mode = mode_shadow;
  sector_rs_lookback = 20;
  sector_rs_min_excess_pct = pos 0;
  market_regime_gate_mode = mode_shadow;
  market_regime_dma_period = 200;
  market_regime_dma_buffer_pct = 0;
  market_regime_vix_threshold = 20 * rupee;
  liquidity_gate_mode = liquidity;
  liquidity_lookback = 3;
  liquidity_min_traded_value = 10_000_000;
}

abbrev quiet_gates : GateSettings
quiet_gates = record (gates_with mode_shadow) { entry_diversity_gate_mode = mode_off }

abbrev thin_values : List ℕ
thin_values = 90_000_000 ∷ 4_000_000 ∷ 3_000_000 ∷ 2_000_000 ∷ []

abbrev some_reads : GateReads
some_reads = record {
  circuit_band = some (record { lower = 497 * rupee; upper = 700 * rupee });
  latest_atr_of_signal = fetched (some (4 * rupee));
  rs_context = faulted;
  market_context = faulted;
  traded_values = fetched thin_values;
}

abbrev sound_row : SignalRow
sound_row = record {
  levels = long_signal;
  status = active_signal;
  regime = some transitional;
  factor_scores = some (scored (pos 8) (pos 10) ∷ scored (negsuc 4) (pos 10) ∷ unreadable ∷ []);
  explanation = none;
}

abbrev world : GateSettings → Around
world gates = record {
  gates = gates;
  broker = paper_settings;
  market = trading_at (500 * rupee);
  reads = some_reads;
  now = 0;
  signals = λ i. some sound_row;
}

abbrev trading_account : Account
trading_account = record { user = trader; account_loss_limit_pct = 200; account_max_trades = 5 }

abbrev buy_request : PlaceOrderRequest
buy_request = record { signal_id = 7; side = buy; quantity = none }

abbrev or_no_verdict : Response Verdicts → Verdicts
or_no_verdict (failure e) = record {
  circuit_verdict = none;
  eq_verdict = none;
  rs_verdict = none;
  mkt_verdict = none;
  liq_verdict = none;
}
or_no_verdict (success v) = v

-- Under the defaults the order passes the overlays, and five verdicts are kept.
abbrev default_verdicts : Verdicts
default_verdicts =
    or_no_verdict (apply_eligibility_overlays (gates_with mode_shadow) some_reads sound_row buy)

abbrev default_answer : PlacedOrder
default_answer = record { placed_book = bought; stamps = overlay_stamps default_verdicts }

default_passes :
    GoesThrough (world (gates_with mode_shadow)) trading_account buy_request no_book default_answer
unfolding apply_eligibility_overlays check_circuit_breaker loss_reached get_daily_realized_pnl
    get_trades_taken_today
default_passes = (refl, (sound_row, (refl, (refl, (default_verdicts, (refl, (bought-ok, refl)))))))

order_goes :
    place_order (world (gates_with mode_shadow)) trading_account buy_request no_book
    ≡ success default_answer
order_goes =
    GoesThrough-place_order (world (gates_with mode_shadow)) trading_account buy_request no_book
      default_answer default_passes

five_stamps : length default_answer.stamps ≡ 5
unfolding overlay_stamps apply_eligibility_overlays
five_stamps = refl

-- With the liquidity gate active the thin name is rejected.
thin_refused :
    apply_eligibility_overlays (gates_with mode_active) some_reads sound_row buy
    ≡ failure (gated liquidity_gate)
unfolding apply_eligibility_overlays
thin_refused = refl

-- A fault of the ATR read fails an order although the check of the stop's width is in shadow.
atr_fault :
    apply_eligibility_overlays quiet_gates
      (record some_reads { latest_atr_of_signal = faulted })
      sound_row
      buy
    ≡ failure uncaught
unfolding apply_eligibility_overlays
atr_fault = refl

apply_eligibility_overlays-Blames_example :
    Rejected (gates_with mode_active) some_reads sound_row buy (gated liquidity_gate)
apply_eligibility_overlays-Blames_example =
    apply_eligibility_overlays-Blames (gates_with mode_active) some_reads sound_row buy thin_refused

abbrev or_empty : Response Book → Book
or_empty (failure e) = no_book
or_empty (success b) = b

abbrev moved_book : Book
moved_book = or_empty (update_stop_loss 1 1 (495 * rupee) bought)

stop_goes : update_stop_loss 1 1 (495 * rupee) bought ≡ success moved_book
unfolding update_stop_loss own_open_position place_paper_order base_price_of one_or_none
    price_and_size record_entry new_position size_for_fill simulate_fill round_tick quantize4
    round_half_even round_half_up price_after_bps spread_aware_bps spread_bps compute_quantity
    round_down
stop_goes = refl

update_stop_loss_moves_example :
    (p : Position) × ((get_position 1 bought.positions ≡ some p)
      × ((p.user_id ≡ 1)
          × ((is_open p ≡ true)
              × (Losing p.side (495 * rupee) p.avg_entry_price
                  × ((get_position 1 moved_book.positions ≡ some (with_stop (495 * rupee) p))
                      × (((j : ℕ)
                            → j ≢ 1
                            → get_position j moved_book.positions ≡ get_position j bought.positions)
                          × ((moved_book.orders ≡ bought.orders)
                              × (moved_book.journal ≡ bought.journal))))))))
update_stop_loss_moves_example =
    update_stop_loss_moves 1 1 (495 * rupee) bought moved_book stop_goes

-- A stop above the entry of a long is refused.
stop_above : update_stop_loss 1 1 (501 * rupee) bought ≡ failure stop_beyond_entry
unfolding update_stop_loss own_open_position place_paper_order base_price_of one_or_none
    price_and_size record_entry new_position size_for_fill simulate_fill round_tick quantize4
    round_half_even round_half_up price_after_bps spread_aware_bps spread_bps compute_quantity
    round_down
stop_above = refl

abbrev intraday_class : Position → Option Classification
intraday_class p = some intraday

abbrev sold_book : Book
sold_book = or_empty (
    manual_close_position paper_settings (trading_at (510 * rupee)) 5 intraday_class 1 1 none
      moved_book)

close_goes :
    manual_close_position paper_settings
      (trading_at (510 * rupee))
      5
      intraday_class
      1
      1
      none
      moved_book
    ≡ success sold_book
unfolding manual_close_position own_open_position update_stop_loss close_position closing_at
    charges_of exit_fill_of raw_exit_price place_paper_order base_price_of one_or_none
    price_and_size record_entry new_position size_for_fill simulate_fill round_tick quantize4
    round_half_even round_half_up price_after_bps spread_aware_bps spread_bps compute_quantity
    round_down
close_goes = refl

before_close : Reached moved_book
before_close =
    then_next
      (then_next (nothing_yet no_book refl) (
        order_placed (world (gates_with mode_shadow)) trading_account buy_request default_answer
          order_goes refl))
      (stop_moved 1 1 (495 * rupee) stop_goes)

the_day : Reached sold_book
the_day =
    then_next before_close (
      closed_by_hand paper_settings (trading_at (510 * rupee)) 5 intraday_class 1 1 none close_goes)

manual_close_position_once_example :
    (p : Position) × ((closing : Closing) × ((get_position 1 moved_book.positions ≡ some p)
        × ((close_position paper_settings (trading_at (510 * rupee)) 5 (some intraday) none manual p
              ≡ some closing)
            × ((sold_book.orders ≡ closing.close_order ∷ moved_book.orders)
                × ((get_position 1 sold_book.positions ≡ some closing.closed_position)
                    × ((last_book : Book)
                        → Later sold_book last_book
                        → (get_position 1 last_book.positions ≡ some closing.closed_position)
                          × ((settings' : BrokerSettings) (m' : Market) (at : ℕ)
                                (class_of' : Position → Option Classification) (price : Option ℕ)
                              → manual_close_position settings' m' at class_of' 1 1 price last_book
                                ≡ failure position_already_closed)))))))
manual_close_position_once_example =
    manual_close_position_once paper_settings (trading_at (510 * rupee)) 5 intraday_class 1 1 none
      moved_book sold_book before_close close_goes

Reached-OneOpen_example : OneOpen sold_book
Reached-OneOpen_example = Reached-OneOpen sold_book the_day

atr_read : some_reads.latest_atr_of_signal ≢ faulted
atr_read h = cc

place_order_shadow_example :
    (answer' : PlacedOrder) × ((place_order (world quiet_gates) trading_account buy_request no_book
        ≡ success answer')
      × (answer'.placed_book ≡ bought))
place_order_shadow_example =
    place_order_shadow (world (gates_with mode_shadow)) quiet_gates trading_account buy_request
      no_book default_answer (refl, (refl, (refl, (refl, (refl, (refl, refl)))))) atr_read
      order_goes

-- Two orders that run at the same time: both have read that no row is open before either writes.
abbrev raced_book : Book
raced_book = record_entry bought 0 trader long_signal buy none (
    price_and_size paper_settings.fills (500 * rupee) buy none none
      (size_from trader long_signal none))

-- Two open rows, and the next order on the name raises.
raced_rows : length (open_rows raced_book 1 long_signal.signal_stock long) ≡ 2
unfolding record_entry new_position place_paper_order base_price_of one_or_none price_and_size
    size_for_fill simulate_fill round_tick quantize4 round_half_even round_half_up price_after_bps
    spread_aware_bps spread_bps compute_quantity round_down
raced_rows = refl

raced_next :
    place_paper_order paper_settings
      (trading_at (500 * rupee))
      1
      trader
      long_signal
      buy
      none
      raced_book
    ≡ err multiple_results
unfolding record_entry new_position place_paper_order base_price_of one_or_none price_and_size
    size_for_fill simulate_fill round_tick quantize4 round_half_even round_half_up price_after_bps
    spread_aware_bps spread_bps compute_quantity round_down
raced_next = refl
