-- ===== src/Signals/Overlays/SectorRs.antt =====
-- The relative-strength overlay (backend/app/signals/sector_rs.py). A bar of a series is `none` if
-- the feed has a hole there.
use ln_trading_app.Prelude.{
  Bool, List, Option, false, if◌then◌else◌, leb, length, ltb, none, not, some, true, ℕ, ◌*◌, ◌+◌,
  ◌==◌, ◌||◌,
}
use ln_trading_app.Money.{Side, long, short}
use ln_trading_app.Prelude.Int.{neg_part, pos, pos_part, sub_ℕ, ℤ, ◌-ℤ◌}
use ln_trading_app.Signals.Overlays.{Mode, block_if, from_end}

pub record RelativeStrengthVerdict : Type 0 where
  pub rs_blocked : Bool
  pub has_benchmark : Bool
  pub rs_side : Side
  pub rs_lookback : ℕ

-- The four closes that the overlay compares
pub record Endpoints : Type 0 where
  pub stock_now : ℕ
  pub stock_then : ℕ
  pub bench_now : ℕ
  pub bench_then : ℕ

-- The excess return and its threshold, multiplied by 10_000 and both base prices
abbrev pub excess_scaled : Endpoints → ℤ
excess_scaled e = sub_ℕ (e.stock_now * e.bench_then * 10_000) (e.bench_now * e.stock_then * 10_000)

abbrev pub scale_by : ℕ → ℤ → ℤ
scale_by n z = sub_ℕ (pos_part z * n) (neg_part z * n)

abbrev pub leb_ℤ : ℤ → ℤ → Bool
leb_ℤ a b = leb (pos_part a + neg_part b) (pos_part b + neg_part a)

-- `excess >= min_excess_pct` for a long, `excess <= -min_excess_pct` for a short
unfoldable pub rs_passes : Side → Endpoints → ℤ → Bool
rs_passes long e least = leb_ℤ (scale_by (e.stock_then * e.bench_then) least) (excess_scaled e)
rs_passes short e least =
    leb_ℤ (excess_scaled e) (pos 0 -ℤ scale_by (e.stock_then * e.bench_then) least)

abbrev pub endpoints_of :
    Option (Option ℕ) → Option (Option ℕ) → Option (Option ℕ) → Option (Option ℕ) → Option Endpoints
endpoints_of (some (some a)) (some (some b)) (some (some c)) (some (some d)) =
    some (record { stock_now = a; stock_then = b; bench_now = c; bench_then = d })
endpoints_of _ _ _ _ = none

-- A zero base price is degenerate.
abbrev pub rs_judge : Side → Option Endpoints → ℤ → Bool
unfolding rs_passes
rs_judge side none least = false
rs_judge side (some e) least =
    if e.stock_then == 0 || e.bench_then == 0 then false else not (rs_passes side e least)

-- Blocked or not, on two series of some length
unfoldable pub rs_compare : Side → ℕ → ℤ → List (Option ℕ) → List (Option ℕ) → Bool
rs_compare side lookback least stock bench =
    if ltb (length stock) (lookback + 1) || ltb (length bench) (lookback + 1)
    then false
    else rs_judge side
        (endpoints_of (from_end 1 stock) (from_end (lookback + 1) stock) (from_end 1 bench)
          (from_end (lookback + 1) bench))
        least

unfoldable pub evaluate_sector_rs :
    List (Option ℕ) → Option (List (Option ℕ)) → Side → ℕ → ℤ → RelativeStrengthVerdict
unfolding rs_compare
evaluate_sector_rs stock_closes none side lookback min_excess_pct = record {
  rs_blocked = false;
  has_benchmark = false;
  rs_side = side;
  rs_lookback = lookback;
}
evaluate_sector_rs stock_closes (some benchmark_closes) side lookback min_excess_pct = record {
  rs_blocked = rs_compare side lookback min_excess_pct stock_closes benchmark_closes;
  has_benchmark = true;
  rs_side = side;
  rs_lookback = lookback;
}

abbrev pub rs_block_reason : RelativeStrengthVerdict → Mode → Bool
rs_block_reason verdict mode = block_if mode verdict.rs_blocked
