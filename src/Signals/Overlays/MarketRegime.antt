-- ===== src/Signals/Overlays/MarketRegime.antt =====
-- The market-regime overlay (backend/app/signals/market_regime.py): the broad market against its
-- moving average. The VIX is reported and never blocks.
use ln_trading_app.Prelude.{
  Bool, List, Option, [], false, if◌then◌else◌, length, ltb, none, some, true, ℕ, ◌*◌, ◌+◌, ◌-◌,
  ◌==◌, ◌||◌, ◌∷◌,
}
use ln_trading_app.Money.{Side, long, short}
use ln_trading_app.Signals.Overlays.{Mode, block_if, from_end, last_n}
use ln_trading_app.Trading.Atr.{period}

pub record RegimeVerdict : Type 0 where
  pub market_blocked : Bool
  pub has_market_data : Bool
  pub market_side : Side
  pub dma_period : ℕ
  pub vix : Option ℕ
  pub vix_elevated : Option Bool

abbrev pub sum_closes : List ℕ → ℕ
sum_closes [] = 0
sum_closes (x ∷ xs) = x + sum_closes xs

-- The close against the average times the buffer, both multiplied by the period and by 10_000. With
-- a buffer of more than the whole the lower bound is negative in the source and zero here, which no
-- close is below either.
abbrev pub against_side : Side → ℕ → ℕ → ℕ → ℕ → Bool
against_side long close sum_window period buffer =
    ltb (close * period * 10_000) (sum_window * (10_000 - buffer))
against_side short close sum_window period buffer =
    ltb (sum_window * (10_000 + buffer)) (close * period * 10_000)

-- With a window of closes; a zero sum is a degenerate average. `none`: there is no verdict.
unfoldable pub market_judge : Side → List ℕ → ℕ → ℕ → Option Bool
market_judge side closes period buffer =
    if ltb (length closes) period || period == 0 then none else elim (from_end 1 closes) [
      | none ↦ none
      | some close ↦
          if sum_closes (last_n period closes) == 0
          then none
          else some (against_side side close (sum_closes (last_n period closes)) period buffer)
    ]

abbrev pub or_false : Option Bool → Bool
or_false none = false
or_false (some b) = b

abbrev pub is_some : Option Bool → Bool
is_some none = false
is_some (some b) = true

unfoldable pub evaluate_market_regime : Side → List ℕ → ℕ → ℕ → Option ℕ → ℕ → RegimeVerdict
unfolding market_judge
evaluate_market_regime side closes period buffer vix_close threshold = record {
  market_blocked = or_false (market_judge side closes period buffer);
  has_market_data = is_some (market_judge side closes period buffer);
  market_side = side;
  dma_period = period;
  vix = vix_close;
  vix_elevated = elim vix_close [ none ↦ none | some v ↦ some (ltb threshold v) ];
}

abbrev pub market_block_reason : RegimeVerdict → Mode → Bool
market_block_reason verdict mode = block_if mode verdict.market_blocked
