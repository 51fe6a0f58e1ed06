-- ===== src/Signals/Overlays/LiquidityGuard.antt =====
-- The liquidity overlay (backend/app/signals/liquidity_guard.py): the median traded value of the
-- last sessions against a floor.
pub mod Majority
use ln_trading_app.Prelude.{
  Bool, List, Option, [], false, get_elem?, if◌then◌else◌, leb, length, ltb, none, some, true, ℕ,
  ◌%◌, ◌*◌, ◌+◌, ◌-◌, ◌/◌, ◌==◌, ◌||◌, ◌∷◌,
}
use ln_trading_app.Money.{Side}
use ln_trading_app.Signals.Overlays.{Mode, block_if, last_n}

abbrev pub insert : ℕ → List ℕ → List ℕ
insert x [] = x ∷ []
insert x (y ∷ ys) = let rest = insert x ys in if leb x y then x ∷ y ∷ ys else y ∷ rest

unfoldable pub sorted : List ℕ → List ℕ
sorted [] = []
sorted (x ∷ xs) = insert x (sorted xs)

abbrev pub elem_or_zero : Option ℕ → ℕ
elem_or_zero none = 0
elem_or_zero (some x) = x

-- `s[i]`; the indices used are inside the list.
abbrev pub nth : List ℕ → ℕ → ℕ
nth s i = elem_or_zero (get_elem? s i)

-- Twice the middle of a sorted list: the mean of two entries is a half.
unfoldable pub middle_twice : List ℕ → ℕ → ℕ
middle_twice s n =
    if n % 2 == 0 then nth s (n / 2 - 1) + nth s (n / 2) else nth s (n / 2) + nth s (n / 2)

-- Twice `_median(values)`
unfoldable pub median_twice : List ℕ → ℕ
unfolding sorted middle_twice
median_twice values = middle_twice (sorted values) (length values)

pub record LiquidityVerdict : Type 0 where
  pub liquidity_blocked : Bool
  pub has_sessions : Bool
  pub liquidity_side : Side
  pub sessions : ℕ
  pub median_traded_value : Option ℕ  -- twice the median

unfoldable pub evaluate_liquidity : List ℕ → Side → ℕ → ℕ → LiquidityVerdict
unfolding median_twice
evaluate_liquidity traded_values side lookback min_traded_value =
    if ltb (length traded_values) lookback || lookback == 0
    then record {
      liquidity_blocked = false;
      has_sessions = false;
      liquidity_side = side;
      sessions = length traded_values;
      median_traded_value = none;
    }
    else record {
      liquidity_blocked = ltb (median_twice (last_n lookback traded_values)) (2 * min_traded_value);
      has_sessions = true;
      liquidity_side = side;
      sessions = length traded_values;
      median_traded_value = some (median_twice (last_n lookback traded_values));
    }

abbrev pub liquidity_block_reason : LiquidityVerdict → Mode → Bool
liquidity_block_reason verdict mode = block_if mode verdict.liquidity_blocked
