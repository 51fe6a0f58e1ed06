-- ===== src/Broker/Monitor/Examples.antt =====
-- The monitor on one position.
use ln_trading_app.Prelude.{List, [], arith, false, none, refl, some, true, ℕ, ◌*◌, ◌+◌, ◌∷◌, ◌≡◌}
use ln_trading_app.Broker.Book.{Book, Position, is_open, sl_hit}
use ln_trading_app.Broker.Examples.{
  half_past_nine, held_long, long_signal, paper_settings, trader, trading_at,
}
use ln_trading_app.Broker.Monitor.{
  Lookup, act, beat, closed, raised, row_after, skipped, stop_reached, track_peak, updated,
}
use ln_trading_app.Broker.Monitor.Exits.{
  act_stops, beat_closes, closed_reason, has_closed, level_reached,
}
use ln_trading_app.Broker.Monitor.History.{watch, watch_lem}
use ln_trading_app.Broker.Monitor.Hold.{Held, beat-Held}
use ln_trading_app.Broker.Monitor.Scan.{
  Moment, entries_of, ids_of, run_monitor, run_monitor_conserves,
}
use ln_trading_app.Broker.Paper.{
  Closing, close_position, closing_at, exit_fill_of, update_position_pnl,
}
use ln_trading_app.Clock.{minute}
use ln_trading_app.Money.{Side, intraday, long, rupee}
use ln_trading_app.Prelude.Int.{◌≤ℤ◌}
use ln_trading_app.Trading.ProfitLock.{default_ladder_settings}
use ln_trading_app.Trading.TrailSl.{
  advance_trail, compute_pnl, is_sl_hit, is_tp_hit, stop_fill_price,
}

abbrev records : Lookup
records = record {
  signals = λ id. some long_signal;
  owners = λ id. some trader;
  candles = λ stock timeframe. [];
  ladder_settings = default_ladder_settings;
}

-- The price at 512 rupees is past 1R, and the ladder moves the stop to the entry.
abbrev moved_long : Position
moved_long =
    row_after held_long
      (beat records paper_settings (trading_at (512 * rupee)) half_past_nine held_long)

moves_to_entry : moved_long.current_sl ≡ some 50_010_000_000
unfolding beat is_sl_hit is_tp_hit update_position_pnl advance_trail
moves_to_entry = refl

beat_updates :
    beat records paper_settings (trading_at (512 * rupee)) half_past_nine held_long
    ≡ updated moved_long
unfolding beat track_peak act is_sl_hit is_tp_hit
beat_updates = refl

beat-Held_example : Held held_long moved_long
beat-Held_example =
    beat-Held records paper_settings (trading_at (512 * rupee)) half_past_nine held_long
      beat_updates

beat_closes_example :
    let m = trading_at (485 * rupee) in
    (m.live_ltp 3 ≡ none → beat records paper_settings m half_past_nine held_long ≡ skipped)
    × ((price : ℕ)
        → m.live_ltp 3 ≡ some price
        → (has_closed (beat records paper_settings m half_past_nine held_long)
            ≡ level_reached price held_long)
          × (stop_reached long price (some (490 * rupee)) ≡ true
              → closed_reason (beat records paper_settings m half_past_nine held_long)
                ≡ some sl_hit)
          × ¬ (beat records paper_settings m half_past_nine held_long ≡ raised))
beat_closes_example =
    beat_closes records paper_settings (trading_at (485 * rupee)) half_past_nine held_long refl

-- A gap through the stop, to 485 rupees
abbrev gapped : Closing
gapped =
    closing_at paper_settings half_past_nine (some intraday) sl_hit held_long
      (exit_fill_of paper_settings (trading_at (485 * rupee)) (some (485 * rupee)) held_long)

gap_closes :
    act records paper_settings (trading_at (485 * rupee)) half_past_nine (485 * rupee) held_long
    ≡ closed gapped
unfolding act is_sl_hit close_position stop_fill_price
gap_closes = refl

act_stops_example :
    (gapped.closed_position.realized_pnl ≤ℤ compute_pnl long 50_010_000_000 (490 * rupee) 90)
    × (gapped.closed_position.realized_pnl ≤ℤ compute_pnl long 50_010_000_000 (485 * rupee) 90)
unfolding is_sl_hit stop_fill_price
act_stops_example =
    act_stops records paper_settings (trading_at (485 * rupee)) half_past_nine (485 * rupee)
      (490 * rupee) held_long 9_700 500 refl refl (ground arith) refl refl (ground arith) gap_closes

abbrev held_book : Book
held_book = record { positions = held_long ∷ []; orders = []; journal = []; next_id = 2 }

-- Up past 1R, then down through the stop at the entry, then an idle minute after the close
abbrev morning : List Moment
morning =
    record { market = trading_at (512 * rupee); at = half_past_nine }
    ∷ record { market = trading_at (499 * rupee); at = half_past_nine + minute }
    ∷ record { market = trading_at (530 * rupee); at = half_past_nine + 600 * minute }
    ∷ []

run_monitor_conserves_example :
    let book = run_monitor records paper_settings morning held_book in
    (ids_of book.positions ≡ held_long.position_id ∷ [])
    × ((user stock : ℕ) (side : Side)
        → entries_of user stock side book.orders book.positions
          ≡ entries_of user stock side [] (held_long ∷ []))
run_monitor_conserves_example = run_monitor_conserves records paper_settings morning held_book

watch_lem_example :
    (is_open held_long ≡ false → watch records paper_settings morning held_long ≡ held_long)
    × (is_open (watch records paper_settings morning held_long) ≡ true
        → Held held_long (watch records paper_settings morning held_long))
watch_lem_example = watch_lem records paper_settings morning held_long
