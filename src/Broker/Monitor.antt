-- ===== src/Broker/Monitor.antt =====
-- The minute task that watches the open positions (backend/app/tasks/position_monitor.py) and the
-- journal entry that it writes (backend/app/services/journal_service.py).
mod Examples
pub mod History
pub mod Scan
pub mod Exits
pub mod Hold
use ln_trading_app.Prelude.{
  Bool, List, Option, [], any, false, if◌then◌else◌, ltb, map, none, some, true, ℕ, ◌+◌, ◌==◌, ◌∷◌,
}
use ln_trading_app.Broker.Book.{
  Book, BrokerSettings, JournalEntry, Market, Order, Position, Reason, Signal, User, is_open,
  sl_hit, tp_hit,
}
use ln_trading_app.Broker.Paper.{Closing, close_position, update_position_pnl}
use ln_trading_app.Clock.{ist_date}
use ln_trading_app.Money.{Classification, Side, long, short}
use ln_trading_app.Trading.Atr.{Bar, Timeframe, atr_timeframe_for, latest_atr}
use ln_trading_app.Trading.MarketHours.{is_market_session}
use ln_trading_app.Trading.ProfitLock.{
  LadderSettings, absolute_ladder_stop, ladder_params_from_settings,
}
use ln_trading_app.Trading.TrailSl.{
  TrailResult, advance_trail, compute_pnl, is_sl_hit, is_tp_hit, stop_fill_price,
}

-- What a scan looks up besides prices.
pub record Lookup : Type 0 where
  pub signals : ℕ → Option Signal
  pub owners : ℕ → Option User
  pub candles : ℕ → Timeframe → List Bar
  pub ladder_settings : LadderSettings

-- `db.get(Signal, pos.signal_id)`, when there is an id
abbrev pub signal_of : Lookup → Position → Option Signal
signal_of db p = elim p.signal_id [ none ↦ none | some id ↦ db.signals id ]

abbrev pub classification_of : Lookup → Position → Option Classification
classification_of db p = elim (signal_of db p) [ none ↦ none | some s ↦ some s.classification ]

-- Which stop governor runs
abbrev pub profit_lock : Lookup → Position → Bool
profit_lock db p = elim (db.owners p.user_id) [ none ↦ false | some u ↦ u.profit_lock_enabled ]

abbrev pub favours : Side → ℕ → ℕ → Bool
favours long price peak = ltb peak price
favours short price peak = ltb price peak

abbrev pub is_better : Side → ℕ → Option ℕ → Bool
is_better side price none = true
is_better side price (some peak) = favours side price peak

-- The maximum favourable excursion
unfoldable pub track_peak : ℕ → Position → Position
track_peak price p =
    if is_better p.side price p.peak_price
    then record p {
      peak_price = some price;
      peak_pnl = some (compute_pnl p.side p.avg_entry_price price p.quantity);
    }
    else p

abbrev pub or_price : Option ℕ → ℕ → ℕ
or_price none price = price
or_price (some peak) price = peak

abbrev pub move_stop : TrailResult → Position → Position
move_stop trail p =
    if trail.advanced
    then record p { current_sl = some trail.new_sl; trail_state = trail.new_state }
    else p

-- One of the two governors moves the stop for the next beat.
unfoldable pub govern : Lookup → ℕ → Signal → ℕ → Position → Position
govern db price signal current_stop p =
    if profit_lock db p
    then record p {
      current_sl = some (
          absolute_ladder_stop p.side p.avg_entry_price signal.stop_loss
            (or_price p.peak_price price) p.quantity
            (latest_atr (db.candles p.stock_id (atr_timeframe_for signal.classification))
              p.opened_at)
            (ladder_params_from_settings db.ladder_settings) current_stop);
    }
    else move_stop
        (advance_trail p.side p.avg_entry_price signal.stop_loss current_stop price p.trail_state) p

-- Nothing moves without a stop and the signal.
unfoldable pub governed : Lookup → ℕ → Position → Option ℕ → Option Signal → Position
unfolding govern
governed db price p (some current_stop) (some signal) = govern db price signal current_stop p
governed db price p (some current_stop) none = p
governed db price p none signal = p

unfoldable pub advance_stop : Lookup → ℕ → Position → Position
unfolding governed
advance_stop db price p = governed db price p p.current_sl (signal_of db p)

abbrev pub stop_reached : Side → ℕ → Option ℕ → Bool
stop_reached side price none = false
stop_reached side price (some stop) = is_sl_hit side price stop

abbrev pub target_reached : Side → ℕ → Option ℕ → Bool
target_reached side price none = false
target_reached side price (some target) = is_tp_hit side price target

-- The price that a stop is booked at before slippage
abbrev pub stopped_at : Side → ℕ → Option ℕ → Option ℕ
stopped_at side price none = none
stopped_at side price (some stop) = some (stop_fill_price side stop price)

-- What the loop does with one open row. `raised` is an exception of `close_position`.
pub data Beat : Type 0 where
  skipped raised : Beat
  closed : Closing → Beat
  updated : Position → Beat

abbrev pub closed_or_raised : Option Closing → Beat
closed_or_raised none = raised
closed_or_raised (some closing) = closed closing

-- A beat on a row whose peak is up to date
unfoldable pub act : Lookup → BrokerSettings → Market → ℕ → ℕ → Position → Beat
unfolding advance_stop
act db settings m now price p =
    let close : Option ℕ → Reason → Beat = λ (exit : Option ℕ) (why : Reason).
      closed_or_raised (close_position settings m now (classification_of db p) exit why p) in
    if stop_reached p.side price p.current_sl
    then close (stopped_at p.side price p.current_sl) sl_hit
    else if target_reached p.side price p.current_tp
    then close p.current_tp tp_hit
    else updated (
        (update_position_pnl settings m (classification_of db p) (some price)
          (advance_stop db price p)).0)

unfoldable pub beat : Lookup → BrokerSettings → Market → ℕ → Position → Beat
unfolding track_peak act
beat db settings m now p = elim (m.live_ltp p.stock_id) [
  | none ↦ skipped
  | some price ↦ act db settings m now price (track_peak price p)
]

-- The row as the beat leaves it
abbrev pub row_after : Position → Beat → Position
row_after p skipped = p
row_after p raised = p
row_after p (closed closing) = closing.closed_position
row_after p (updated q) = q

unfoldable pub scan_row : Lookup → BrokerSettings → Market → ℕ → Position → Position
scan_row db settings m now p = if is_open p then row_after p (beat db settings m now p) else p

abbrev pub priced_entry : Order → Option ℕ
priced_entry order = if order.filled_price == 0 then none else some order.filled_price

-- `auto_create_journal_entry`, and the exit price that the caller writes into it
unfoldable pub journal_after : List JournalEntry → Closing → List JournalEntry
journal_after entries closing =
    let p : Position = closing.closed_position in
    elim p.closed_at [
      | none ↦ entries
      | some at ↦
          if any (λ (e : JournalEntry). e.journal_position == p.position_id) entries
          then entries
          else record {
            journal_position = p.position_id;
            trade_date = ist_date at;
            journal_exit_price = priced_entry closing.close_order;
            journal_pnl = p.realized_pnl;
          }
            ∷ entries
    ]

-- What a scan accumulates
pub record Tally : Type 0 where
  pub closed_count : ℕ
  pub updated_count : ℕ
  pub skipped_count : ℕ
  pub tally_orders : List Order
  pub tally_journal : List JournalEntry

unfoldable pub count_beat : Tally → Beat → Tally
unfolding journal_after
count_beat t skipped = record t { skipped_count = t.skipped_count + 1 }
count_beat t raised = t
count_beat t (updated q) = record t { updated_count = t.updated_count + 1 }
count_beat t (closed closing) = record t {
  closed_count = t.closed_count + 1;
  tally_orders = closing.close_order ∷ t.tally_orders;
  tally_journal = journal_after t.tally_journal closing;
}

unfoldable pub scan_rows : Lookup → BrokerSettings → Market → ℕ → Tally → List Position → Tally
scan_rows db settings m now t [] = t
scan_rows db settings m now t (p ∷ ps) =
    scan_rows db settings m now (if is_open p then count_beat t (beat db settings m now p) else t)
      ps

abbrev pub empty_tally : Book → Tally
empty_tally book = record {
  closed_count = 0;
  updated_count = 0;
  skipped_count = 0;
  tally_orders = book.orders;
  tally_journal = book.journal;
}

unfoldable pub scan_positions : Lookup → BrokerSettings → Market → ℕ → Book → Book × Tally
unfolding scan_rows scan_row
scan_positions db settings m now book =
    let t : Tally = scan_rows db settings m now (empty_tally book) book.positions in
    if is_market_session now
    then (
      record book {
        positions = map (scan_row db settings m now) book.positions;
        orders = t.tally_orders;
        journal = t.tally_journal;
      },
      t,
    )
    else (book, empty_tally book)
