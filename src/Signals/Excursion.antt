-- ===== src/Signals/Excursion.antt =====
-- The best and the worst price of a trade over its one-minute tape
-- (backend/app/services/excursion.py). A result is kept exact, where the source rounds it to a paisa,
-- and the excursions in R are the moves that the source divides by the risk.
pub mod Extremes
use ln_trading_app.Prelude.{
  Bool, List, Option, [], if◌then◌else◌, leb, length, ltb, none, some, ℕ, ◌&&◌, ◌+◌, ◌∷◌,
}
use ln_trading_app.Money.{Side, long, short}
use ln_trading_app.Prelude.Int.{sub_ℕ, ℤ}
use ln_trading_app.Trading.TrailSl.{compute_pnl}

-- (time, high, low, close)
pub record TapeBar : Type 0 where
  pub bar_time : ℕ
  pub bar_high : ℕ
  pub bar_low : ℕ
  pub bar_close : ℕ

-- A price and the time of the bar that first had it
pub record Extreme : Type 0 where
  pub price : ℕ
  pub time : ℕ

pub record Excursion : Type 0 where
  pub bar_count : ℕ
  pub mfe : Extreme
  pub mfe_move : ℤ
  pub mfe_pnl : ℤ
  pub mae : Extreme
  pub mae_move : ℤ
  pub mae_pnl : ℤ
  pub last_close : ℕ
  pub last_time : ℕ
  pub reached_1r : Bool

abbrev pub favourable : Side → TapeBar → ℕ
favourable long b = b.bar_high
favourable short b = b.bar_low

-- `fav > mfe_price` for a long and `fav < mfe_price` for a short; the adverse test is the mirror.
abbrev pub improves : Side → ℕ → ℕ → Bool
improves long x best = ltb best x
improves short x best = ltb x best

abbrev pub opposite : Side → Side
opposite long = short
opposite short = long

-- One bar of the loop, for the extreme on one side
abbrev pub step_extreme : Side → Extreme → TapeBar → Extreme
step_extreme side acc b =
    if improves side (favourable side b) acc.price
    then record { price = favourable side b; time = b.bar_time }
    else acc

unfoldable pub track_extreme : Side → Extreme → List TapeBar → Extreme
track_extreme side acc [] = acc
track_extreme side acc (b ∷ bars) = track_extreme side (step_extreme side acc b) bars

abbrev pub first_extreme : Side → TapeBar → Extreme
first_extreme side b = record { price = favourable side b; time = b.bar_time }

-- `(price - entry) if is_long else (entry - price)`
abbrev pub move_of : Side → ℕ → ℕ → ℤ
move_of long entry price = sub_ℕ price entry
move_of short entry price = sub_ℕ entry price

-- `move / risk >= 1` if the risk is positive
abbrev pub reaches_1r : Side → ℕ → ℕ → ℕ → Bool
reaches_1r long entry risk price = leb (entry + risk) price
reaches_1r short entry risk price = leb (price + risk) entry

abbrev pub last_bar : TapeBar → List TapeBar → TapeBar
last_bar b [] = b
last_bar b (c ∷ bars) = last_bar c bars

-- The adverse extreme of a side is the favourable one of the other.
unfoldable pub tape_excursion : List TapeBar → Side → ℕ → ℕ → ℕ → Option Excursion
unfolding track_extreme
tape_excursion [] side entry risk quantity = none
tape_excursion (b ∷ bars) side entry risk quantity =
    let best : Extreme = track_extreme side (first_extreme side b) (b ∷ bars) in
    let worst : Extreme =
      track_extreme (opposite side) (first_extreme (opposite side) b) (b ∷ bars) in
    some (record {
      bar_count = length (b ∷ bars);
      mfe = best;
      mfe_move = move_of side entry best.price;
      mfe_pnl = compute_pnl side entry best.price quantity;
      mae = worst;
      mae_move = move_of side entry worst.price;
      mae_pnl = compute_pnl side entry worst.price quantity;
      last_close = (last_bar b bars).bar_close;
      last_time = (last_bar b bars).bar_time;
      reached_1r = ltb 0 risk && reaches_1r side entry risk best.price;
    })
