-- ===== src/Broker/Worker/Writer.antt =====
-- The writer thread of the live worker (persist_committed and run_writer of
-- backend/app/broker/live_worker.py). A table of candles is a list of rows, and there is one for
-- each timeframe; the session of one attempt either commits the statement or leaves the tables as
-- they were.
pub mod Held
pub mod Retry
pub mod Upsert
use ln_trading_app.Prelude.{
  Bool, List, Option, [], false, if◌then◌else◌, ltb, none, some, suc, true, zero, ℕ, ◌&&◌, ◌==◌,
  ◌∷◌,
}

pub data TfLabel : Type 0 where
  tf_1m tf_5m tf_15m tf_1h : TfLabel

pub data CandleTable : Type 0 where
  ohlcv_1m ohlcv_5m ohlcv_15m ohlcv_1h : CandleTable

-- A minute count that is no key is a KeyError: `none`.
unfoldable pub tf_label : ℕ → Option TfLabel
tf_label minutes =
    if minutes == 1
    then some tf_1m
    else if minutes == 5
    then some tf_5m
    else if minutes == 15
    then some tf_15m
    else if minutes == 60
    then some tf_1h
    else none

unfoldable pub timeframe_table : TfLabel → CandleTable
timeframe_table tf_1m = ohlcv_1m
timeframe_table tf_5m = ohlcv_5m
timeframe_table tf_15m = ohlcv_15m
timeframe_table tf_1h = ohlcv_1h

abbrev pub table_minutes : CandleTable → ℕ
table_minutes ohlcv_1m = 1
table_minutes ohlcv_5m = 5
table_minutes ohlcv_15m = 15
table_minutes ohlcv_1h = 60

abbrev pub same_table : CandleTable → CandleTable → Bool
same_table a b = table_minutes a == table_minutes b

-- What a committed event carries
pub record Minted : Type 0 where
  pub tf_minutes : ℕ
  pub minted_time : ℕ
  pub minted_stock : ℕ
  pub minted_open : ℕ
  pub minted_high : ℕ
  pub minted_low : ℕ
  pub minted_close : ℕ
  pub minted_volume : ℕ

-- A row of the candle table
pub record StoredCandle : Type 0 where
  pub stored_time : ℕ
  pub stored_stock : ℕ
  pub stored_open : ℕ
  pub stored_high : ℕ
  pub stored_low : ℕ
  pub stored_close : ℕ
  pub stored_volume : ℕ
  pub stored_complete : Bool

-- GREATEST and LEAST
abbrev pub greatest : ℕ → ℕ → ℕ
greatest a b = if ltb a b then b else a

abbrev pub least : ℕ → ℕ → ℕ
least a b = if ltb b a then b else a

unfoldable pub inserted : Minted → StoredCandle
inserted e = record {
  stored_time = e.minted_time;
  stored_stock = e.minted_stock;
  stored_open = e.minted_open;
  stored_high = e.minted_high;
  stored_low = e.minted_low;
  stored_close = e.minted_close;
  stored_volume = e.minted_volume;
  stored_complete = true;
}

-- `DO UPDATE SET`: the first open stays.
unfoldable pub merged : Minted → StoredCandle → StoredCandle
merged e row = record row {
  stored_high = greatest e.minted_high row.stored_high;
  stored_low = least e.minted_low row.stored_low;
  stored_close = e.minted_close;
  stored_volume = greatest e.minted_volume row.stored_volume;
  stored_complete = true;
}

-- `ON CONFLICT (time, stock_id)`
abbrev pub is_at : ℕ → ℕ → StoredCandle → Bool
is_at time stock row = (row.stored_time == time) && (row.stored_stock == stock)

-- The statement, on its table
unfoldable pub upsert : Minted → List StoredCandle → List StoredCandle
unfolding inserted merged
upsert e [] = inserted e ∷ []
upsert e (row ∷ rows) =
    let rest = upsert e rows in
    if is_at e.minted_time e.minted_stock row then merged e row ∷ rows else row ∷ rest

abbrev pub Tables : Type 0
Tables = CandleTable → List StoredCandle

-- The table of an event, looked up by its timeframe
unfoldable pub table_of : Minted → Option CandleTable
unfolding tf_label timeframe_table
table_of e = elim (tf_label e.tf_minutes) [
  | none ↦ none
  | some label ↦ some (timeframe_table label)
]

unfoldable pub upsert_into : Option CandleTable → Minted → Tables → Option Tables
upsert_into none e tables = none
upsert_into (some table) e tables =
    some (λ t. if same_table t table then upsert e (tables t) else tables t)

-- `none` is the KeyError. The test that the table is one of TIMEFRAME_TABLE always succeeds.
unfoldable pub persist_committed : Minted → Tables → Option Tables
unfolding table_of upsert_into
persist_committed e tables = upsert_into (table_of e) e tables

-- How one attempt ends: the session raises and rolls back, the candle is committed but what comes
-- after the commit raises, or neither.
pub data Attempted : Type 0 where
  rolled_back committed_then_raised returned : Attempted

-- The `try` body and the rounds after it, given what the statement leaves: a KeyError is caught as
-- any other exception.
unfoldable pub attempted :
    Attempted → (Tables → Tables × Bool) → Tables → Option Tables → Tables × Bool
attempted how again tables none = again tables
attempted rolled_back again tables (some once) = again tables
attempted committed_then_raised again tables (some once) = again once
attempted returned again tables (some once) = (once, true)

-- What is left to do after three attempts is the breadcrumb in the log: `false`.
unfoldable pub persist_with_retry : ℕ → (ℕ → Attempted) → Minted → Tables → Tables × Bool
unfolding attempted persist_committed
persist_with_retry zero attempts e tables = (tables, false)
persist_with_retry (suc left) attempts e tables =
    attempted (attempts left) (persist_with_retry left attempts e) tables
      (persist_committed e tables)

abbrev pub attempts_per_candle : ℕ
attempts_per_candle = 3

-- One burst, candle by candle
unfoldable pub persist_burst : (Minted → ℕ → Attempted) → List Minted → Tables → Tables
unfolding persist_with_retry
persist_burst faults [] tables = tables
persist_burst faults (e ∷ burst) tables =
    persist_burst faults burst (persist_with_retry attempts_per_candle (faults e) e tables).0

-- What a read of the queue gives: a burst, the sentinel, or the RuntimeError of an executor that the
-- teardown of the interpreter has shut down.
pub data QueueGet : Type 0 where
  got_burst : List Minted → QueueGet
  got_sentinel executor_shut_down : QueueGet

-- The loop on the queue, over what its reads give; with the tables, the reads that are not made.
unfoldable pub run_writer :
    (Minted → ℕ → Attempted) → List QueueGet → Tables → Tables × List QueueGet
unfolding persist_burst
run_writer faults [] tables = (tables, [])
run_writer faults (got_sentinel ∷ gets) tables = (tables, gets)
run_writer faults (executor_shut_down ∷ gets) tables = (tables, gets)
run_writer faults (got_burst burst ∷ gets) tables =
    run_writer faults gets (persist_burst faults burst tables)
