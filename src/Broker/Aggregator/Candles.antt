-- ===== src/Broker/Aggregator/Candles.antt =====
-- What holds of every candle and event.
use native.Mathlib.Nat.{div-add-mod, mod-lt}
use ln_trading_app.Prelude.{
  All, List, Option-cases, [], arith, if◌then◌else◌, inl, inr, none, some, ℕ, ◌%◌, ◌*◌, ◌++◌, ◌+◌,
  ◌-◌, ◌/◌, ◌<◌, ◌∷◌, ◌≡◌, ◌≤◌,
}
use ln_trading_app.Broker.Aggregator.{
  Aggregator, Candle, CandleEvent, TfState, Tick, advance_all, advance_state, floor_to_period,
  floored_minutes, new_aggregator, new_candle, on_tick, session_anchor, update,
}
use ln_trading_app.Clock.{day, minute}

-- The low is the least and the high the greatest of the prices of a candle.
abbrev pub IsCandle : Candle → Type 0
IsCandle c =
    (c.low_price ≤ c.open_price)
    × (c.open_price ≤ c.high_price)
    × (c.low_price ≤ c.close_price)
    × (c.close_price ≤ c.high_price)

-- A timeframe whose candle, if there is one, is a candle that is still open
abbrev pub IsState : TfState → Type 0
IsState s = elim s.current [ none ↦ Unit | some c ↦ IsCandle c ]

update-IsCandle : (price volume : ℕ) (c : Candle) → IsCandle c → IsCandle (update price volume c)
unfolding update
update-IsCandle price volume c h = ground arith

new_candle-IsCandle : (start price volume : ℕ) → IsCandle (new_candle start price volume)
unfolding new_candle
new_candle-IsCandle start price volume = ground arith

abbrev pub current_volume : TfState → ℕ
current_volume s = elim s.current [ none ↦ 0 | some c ↦ c.volume ]

abbrev pub closed_volume : List CandleEvent → ℕ
closed_volume [] = 0
closed_volume (e ∷ es) = (if e.is_closed then e.candle.volume else 0) + closed_volume es

abbrev pub start_of : TfState → ℕ
start_of s = elim s.current [ none ↦ 0 | some c ↦ c.period_start ]

abbrev pub AreCandles : List CandleEvent → Type 0
AreCandles [] = Unit
AreCandles (e ∷ es) = IsCandle e.candle × AreCandles es

-- A tick keeps the candles well formed, whatever its time: what is emitted and what stays current
-- are candles, volume is neither lost nor counted twice, and no period is reopened.
pub advance_state_lem :
    (time price volume : ℕ) (s : TfState)
    → IsState s
    → let (s', events) = advance_state time price volume s in
      IsState s'
      × AreCandles events
      × (closed_volume events + current_volume s' ≡ current_volume s + volume)
      × (start_of s ≤ start_of s')
unfolding advance_state update new_candle
advance_state_lem time price volume s h = ground arith

-- A bucket holds the minute that it is computed from.
floored_minutes_bounds :
    (total mins : ℕ)
    → 0 < mins
    → (floored_minutes total mins ≤ total) × (total < floored_minutes total mins + mins)
unfolding floored_minutes
floored_minutes_bounds total mins h = grind (
  arith,
  div-add-mod (total - session_anchor) mins,
  mod-lt (total - session_anchor) h,
  div-add-mod (session_anchor - total + (mins - 1)) mins,
  mod-lt (session_anchor - total + (mins - 1)) h,
)

-- The period that a tick falls in contains the tick, from its start up to its length.
pub floor_to_period_bounds :
    (time mins : ℕ)
    → 0 < mins
    → (floor_to_period time mins ≤ time) × (time < floor_to_period time mins + mins * minute)
unfolding floor_to_period
floor_to_period_bounds time mins h =
    let (below, above) = floored_minutes_bounds (time % day / minute) mins h in
    (omega (arith, below), omega (arith, above))

AreCandles-append :
    (es fs : List CandleEvent) → AreCandles es → AreCandles fs → AreCandles (es ++ fs)
AreCandles-append [] fs h k = k
AreCandles-append (e ∷ es) fs (here, h) k = (here, AreCandles-append es fs h k)

advance_all_lem :
    (time price volume : ℕ) (ss : List TfState)
    → All IsState ss
    → let (ss', events) = advance_all time price volume ss in All IsState ss' × AreCandles events
advance_all_lem time price volume [] h = (tt, tt)
advance_all_lem time price volume (s ∷ ss) (here, h) =
    let (state, events, _, _) = advance_state_lem time price volume s here in
    let (states, rest) = advance_all_lem time price volume ss h in
    ((state, states), AreCandles-append _ _ events rest)

-- The ticks of a day, in the order of arrival
abbrev pub run_ticks : List Tick → Aggregator → Aggregator
run_ticks [] a = a
run_ticks (t ∷ ts) a = run_ticks ts (on_tick t a).0

on_tick_lem :
    (t : Tick) (a : Aggregator)
    → All IsState a.states
    → All IsState (on_tick t a).0.states × AreCandles (on_tick t a).1
unfolding on_tick
on_tick_lem t a h = elim (Option-cases t.last_price) [
  | inl unpriced ↦ simp (on_tick, unpriced) (h, tt)
  | inr (price, priced) ↦ simp (on_tick, priced) (advance_all_lem t.tick_time price _ a.states h)
]

-- From a new aggregator on, whatever the ticks and their order, every candle that is held and every
-- candle of the next events has its low and high around its open and close.
pub run_ticks-AreCandles :
    (ts : List Tick) (t : Tick)
    → let a = run_ticks ts new_aggregator in All IsState a.states × AreCandles (on_tick t a).1
run_ticks-AreCandles ts t = go ts new_aggregator (tt, (tt, (tt, (tt, tt))))
  where
    go :
        (ts : List Tick) (a : Aggregator)
        → All IsState a.states
        → All IsState (run_ticks ts a).states × AreCandles (on_tick t (run_ticks ts a)).1
    go [] a h = (h, (on_tick_lem t a h).1)
    go (t' ∷ ts) a h = go ts (on_tick t' a).0 (on_tick_lem t' a h).0
