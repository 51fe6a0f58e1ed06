-- ===== src/Trading/Atr.antt =====
-- The volatility read off stored candles (backend/app/trading/atr.py). The rows of a table are
-- those of one stock, newest first, complete bars only.
use ln_trading_app.Prelude.{
  List, Option, [], if◌then◌else◌, keep, leb, length, ltb, none, some, take, ℕ, ◌+◌, ◌-◌, ◌∷◌,
}
use ln_trading_app.Money.{Classification, intraday, scalp}
use ln_trading_app.Prelude.Round.{distance, maximum, round_half_even}

abbrev pub period : ℕ
period = 14

pub record Bar : Type 0 where
  pub time : ℕ
  pub high : ℕ
  pub low : ℕ
  pub close : ℕ

pub data Timeframe : Type 0 where
  five_minutes one_day : Timeframe

abbrev pub atr_timeframe_for : Classification → Timeframe
atr_timeframe_for scalp = five_minutes
atr_timeframe_for intraday = five_minutes
atr_timeframe_for _ = one_day

-- `max(high - low, abs(high - prev_close), abs(low - prev_close))`
abbrev pub true_range : Bar → ℕ → ℕ
true_range bar prev_close =
    maximum (bar.high - bar.low)
      (maximum (distance bar.high prev_close) (distance bar.low prev_close))

-- The sum over the bars but the oldest, which is only a previous close.
unfoldable pub total_range : List Bar → ℕ
total_range [] = 0
total_range (bar ∷ []) = 0
total_range (bar ∷ older ∷ bars) = true_range bar older.close + total_range (older ∷ bars)

unfoldable pub latest_atr : List Bar → ℕ → Option ℕ
unfolding total_range
latest_atr table before =
    let rows : List Bar = take (period + 1) (keep (λ (bar : Bar). leb bar.time before) table) in
    if ltb (length rows) (period + 1)
    then none
    else some (round_half_even (total_range rows) period)
