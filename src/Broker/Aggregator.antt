-- ===== src/Broker/Aggregator.antt =====
-- Ticks into candles (backend/app/broker/candle_aggregator.py), for one stock. A tick comes here
-- with its time, price and volume counters read off the dict; a price that is missing or zero is
-- `none`. An event holds the candle as it was when the event was made.
pub mod Registry
pub mod Candles
use ln_trading_app.Prelude.{
  Bool, List, Option, [], false, if◌then◌else◌, keep, leb, ltb, map, none, not, some, true, ℕ, ◌%◌,
  ◌*◌, ◌++◌, ◌+◌, ◌-◌, ◌/◌, ◌==◌, ◌∷◌,
}
use ln_trading_app.Clock.{day, minute, utc_date}
use ln_trading_app.Signals.Overlays.EntryQuality.{total}

pub record Candle : Type 0 where
  pub period_start : ℕ
  pub open_price : ℕ
  pub high_price : ℕ
  pub low_price : ℕ
  pub close_price : ℕ
  pub volume : ℕ
  pub is_complete : Bool

unfoldable pub update : ℕ → ℕ → Candle → Candle
update price volume c = record c {
  high_price = if ltb c.high_price price then price else c.high_price;
  low_price = if ltb price c.low_price then price else c.low_price;
  close_price = price;
  volume = c.volume + volume;
}

pub record CandleEvent : Type 0 where
  pub candle : Candle
  pub is_new : Bool
  pub is_closed : Bool

pub record TfState : Type 0 where
  pub current : Option Candle
  pub minutes : ℕ

pub record Aggregator : Type 0 where
  pub states : List TfState
  pub last_day_volume : Option ℕ

-- `TIMEFRAMES`: 1m, 5m, 15m, 1h
abbrev pub timeframes : List ℕ
timeframes = 1 ∷ 5 ∷ 15 ∷ 60 ∷ []

abbrev pub new_aggregator : Aggregator
new_aggregator = record {
  states = map (λ mins. record { current = none; minutes = mins }) timeframes;
  last_day_volume = none;
}

pub record Tick : Type 0 where
  pub tick_time : ℕ
  pub last_price : Option ℕ
  pub volume_traded : Option ℕ
  pub last_quantity : ℕ

-- The volume of this tick, and the new baseline
unfoldable pub volume_delta : Option ℕ → Tick → ℕ × Option ℕ
volume_delta last t = elim t.volume_traded [
  | none ↦ (t.last_quantity, last)
  | some day_vol ↦ elim last [
    | none ↦ (0, some day_vol)
    | some base ↦ if ltb day_vol base then (0, some day_vol) else (day_vol - base, some day_vol)
  ]
]

-- 03:45 UTC
abbrev pub session_anchor : ℕ
session_anchor = 225

-- The minute of the day at which a bucket starts. Python's `//` rounds down below the anchor too,
-- where it is the anchor less the distance rounded up; the result stops at midnight.
unfoldable pub floored_minutes : ℕ → ℕ → ℕ
floored_minutes total minutes =
    if leb session_anchor total
    then session_anchor + (total - session_anchor) / minutes * minutes
    else session_anchor - (session_anchor - total + (minutes - 1)) / minutes * minutes

unfoldable pub floor_to_period : ℕ → ℕ → ℕ
unfolding floored_minutes
floor_to_period dt minutes =
    utc_date dt * day + floored_minutes (dt % day / minute) minutes * minute

unfoldable pub new_candle : ℕ → ℕ → ℕ → Candle
new_candle period_start price volume = record {
  period_start = period_start;
  open_price = price;
  high_price = price;
  low_price = price;
  close_price = price;
  volume = volume;
  is_complete = false;
}

abbrev pub first_tick : Candle → CandleEvent
first_tick c = record { candle = c; is_new = true; is_closed = false }

-- One timeframe of `on_tick`
unfoldable pub advance_state : ℕ → ℕ → ℕ → TfState → TfState × List CandleEvent
unfolding floor_to_period new_candle update
advance_state time price volume s =
    let period_start : ℕ = floor_to_period time s.minutes in
    let fresh : Candle = new_candle period_start price volume in
    elim s.current [
      | none ↦ (record s { current = some fresh }, first_tick fresh ∷ [])
      | some old ↦
          if ltb old.period_start period_start
          then (
            record s { current = some fresh },
            record { candle = record old { is_complete = true }; is_new = false; is_closed = true }
                ∷ first_tick fresh
                ∷ [],
          )
          else (
            record s { current = some (update price volume old) },
            record { candle = update price volume old; is_new = false; is_closed = false } ∷ [],
          )
    ]

abbrev pub advance_all : ℕ → ℕ → ℕ → List TfState → List TfState × List CandleEvent
advance_all time price volume [] = ([], [])
advance_all time price volume (s ∷ ss) =
    let (s', events) = advance_state time price volume s in
    let (ss', rest) = advance_all time price volume ss in (s' ∷ ss', events ++ rest)

unfoldable pub on_tick : Tick → Aggregator → Aggregator × List CandleEvent
unfolding advance_state volume_delta
on_tick t a = elim t.last_price [
  | none ↦ (a, [])
  | some price ↦
      let (delta, baseline) = volume_delta a.last_day_volume t in
      let (states, events) = advance_all t.tick_time price delta a.states in
      (record { states = states; last_day_volume = baseline }, events)
]

-- `AggregatorRegistry`: the aggregators by stock, in the order of their creation
unfoldable pub find_aggregator : ℕ → List (ℕ × Aggregator) → Option Aggregator
find_aggregator stock [] = none
find_aggregator stock (entry ∷ aggs) =
    let rest = find_aggregator stock aggs in if entry.0 == stock then some entry.1 else rest

-- `get_or_create`: the aggregator, and the registry after it
unfoldable pub get_or_create : ℕ → List (ℕ × Aggregator) → Aggregator × List (ℕ × Aggregator)
unfolding find_aggregator
get_or_create stock aggs = elim (find_aggregator stock aggs) [
  | some found ↦ (found, aggs)
  | none ↦ (new_aggregator, aggs ++ ((stock, new_aggregator) ∷ []))
]

-- `remove`; a key stands there once.
unfoldable pub remove_aggregator : ℕ → List (ℕ × Aggregator) → List (ℕ × Aggregator)
remove_aggregator stock aggs = keep (λ (entry : ℕ × Aggregator). not (entry.0 == stock)) aggs

unfoldable pub all_stock_ids : List (ℕ × Aggregator) → List ℕ
all_stock_ids aggs = map (λ (entry : ℕ × Aggregator). entry.0) aggs
