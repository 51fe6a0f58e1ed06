-- ===== src/Trading/ProfitLock.antt =====
-- The two profit locks (backend/app/trading/profit_lock.py): the layered ratchet, and the rupee
-- ladder of the live paper path. Ratios, like prices, are fixed-point with eight places, and a
-- quotient is rounded half-even to that grid. Where the source's candidate could fall below zero
-- the model's stops at zero: both lose against the stop in force, which is not negative.
pub mod Layered
pub mod Floors
pub mod Absolute
use ln_trading_app.Prelude.{
  Bool, List, Option, [], if◌then◌else◌, leb, ltb, none, some, ℕ, ◌&&◌, ◌*◌, ◌++◌, ◌+◌, ◌-◌, ◌==◌,
  ◌∷◌,
}
use ln_trading_app.Money.{
  Classification, Side, intraday, investment, long, other, positional, rupee, scalp, short, swing,
}
use ln_trading_app.Prelude.Round.{maximum, minimum, round_half_even}

pub record RatchetParams : Type 0 where
  pub arm_r : ℕ
  pub atr_k : ℕ
  pub giveback_early : ℕ
  pub giveback_late : ℕ
  pub late_r : ℕ

-- A ratio in hundredths
abbrev pub hundredths : ℕ → ℕ
hundredths n = n * 1_000_000

abbrev pub preset : ℕ → ℕ → ℕ → ℕ → RatchetParams
preset arm k early late = record {
  arm_r = hundredths arm;
  atr_k = hundredths k;
  giveback_early = hundredths early;
  giveback_late = hundredths late;
  late_r = hundredths 300;
}

-- `CLASS_PARAMS.get(classification, DEFAULT_PARAMS)`
unfoldable pub class_params : Classification → RatchetParams
class_params scalp = preset 80 100 25 15
class_params intraday = preset 100 150 35 20
class_params swing = preset 100 250 55 40
class_params positional = preset 100 350 60 45
class_params investment = preset 100 400 60 45
class_params other = preset 100 250 55 40

unfoldable pub params_for : Option Classification → RatchetParams
unfolding class_params
params_for none = class_params swing
params_for (some classification) = class_params classification

-- `early + (late - early) * frac`, with sixteen places
abbrev pub taper : ℕ → ℕ → ℕ → ℕ
taper early late frac =
    if leb early late
    then early * rupee + (late - early) * frac
    else early * rupee - (early - late) * frac

-- The fraction given back, with sixteen places.
unfoldable pub giveback_fraction : RatchetParams → ℕ → ℕ
giveback_fraction params r_mult =
    if leb r_mult params.arm_r
    then params.giveback_early * rupee
    else if leb params.late_r r_mult
    then params.giveback_late * rupee
    else if leb params.late_r params.arm_r
    then params.giveback_late * rupee
    else taper params.giveback_early params.giveback_late
        (round_half_even ((r_mult - params.arm_r) * rupee) (params.late_r - params.arm_r))

-- `max` for a long and `min` for a short
abbrev pub tighter : Side → ℕ → ℕ → ℕ
tighter long a b = maximum a b
tighter short a b = minimum a b

-- `max(current_stop, max(candidates))`, mirrored for a short
abbrev pub tightest : Side → ℕ → List ℕ → ℕ
tightest side current_stop [] = current_stop
tightest side current_stop (c ∷ candidates) = tightest side (tighter side current_stop c) candidates

-- A price `amount` behind the peak, on the side where the stop stands.
abbrev pub behind : Side → ℕ → ℕ → ℕ
behind long price amount = price - amount
behind short price amount = price + amount

-- ... and ahead of the entry, on the side of profit.
abbrev pub ahead : Side → ℕ → ℕ → ℕ
ahead long price amount = price + amount
ahead short price amount = price - amount

-- The move in favour, and nothing if it is against.
abbrev pub favour : Side → ℕ → ℕ → ℕ
favour long entry price = price - entry
favour short entry price = entry - price

abbrev pub atr_candidate : Side → ℕ → Option ℕ → ℕ → List ℕ
atr_candidate side peak_price none atr_k = []
atr_candidate side peak_price (some atr) atr_k =
    if ltb 0 atr then behind side peak_price (round_half_even (atr * atr_k) rupee) ∷ [] else []

-- `risk > 0 and move >= params.arm_r * risk`
abbrev pub is_armed : Side → ℕ → ℕ → ℕ → ℕ → Bool
is_armed long entry peak risk arm = ltb 0 risk && leb (entry * rupee + arm * risk) (peak * rupee)
is_armed short entry peak risk arm = ltb 0 risk && leb (peak * rupee + arm * risk) (entry * rupee)

-- `entry ± move * (1 - g)`
abbrev pub lock_candidate : Side → ℕ → ℕ → ℕ → ℕ
lock_candidate side entry move g =
    ahead side entry (round_half_even (move * (rupee * rupee - g)) (rupee * rupee))

unfoldable pub layered_ratchet_stop : Side → ℕ → ℕ → ℕ → Option ℕ → RatchetParams → ℕ → ℕ
layered_ratchet_stop side entry original_sl peak_price atr params current_stop =
    let risk : ℕ = favour side original_sl entry in
    let move : ℕ = favour side entry peak_price in
    let g : ℕ = giveback_fraction params (round_half_even (move * rupee) risk) in
    if is_armed side entry peak_price risk params.arm_r
    then tightest side current_stop (
        original_sl ∷ atr_candidate side peak_price atr params.atr_k
        ++ lock_candidate side entry move g ∷ [])
    else tightest side current_stop (original_sl ∷ [])

pub record AbsoluteLadderParams : Type 0 where
  pub breakeven_inr : ℕ
  pub trail_start_inr : ℕ
  pub giveback_inr : ℕ
  pub ladder_atr_k : ℕ

-- The defaults of backend/app/core/config.py
-- The settings of the configuration that the ladder reads
pub record LadderSettings : Type 0 where
  pub profit_lock_breakeven_inr : ℕ
  pub profit_lock_trail_start_inr : ℕ
  pub profit_lock_giveback_inr : ℕ
  pub profit_lock_atr_k : ℕ

-- The defaults of the configuration
abbrev pub default_ladder_settings : LadderSettings
default_ladder_settings = record {
  profit_lock_breakeven_inr = 2000 * rupee;
  profit_lock_trail_start_inr = 3000 * rupee;
  profit_lock_giveback_inr = 1000 * rupee;
  profit_lock_atr_k = 2 * rupee;
}

unfoldable pub ladder_params_from_settings : LadderSettings → AbsoluteLadderParams
ladder_params_from_settings settings = record {
  breakeven_inr = settings.profit_lock_breakeven_inr;
  trail_start_inr = settings.profit_lock_trail_start_inr;
  giveback_inr = settings.profit_lock_giveback_inr;
  ladder_atr_k = settings.profit_lock_atr_k;
}

-- `peak_profit >= amount`
abbrev pub profit_at_least : Side → ℕ → ℕ → ℕ → ℕ → Bool
profit_at_least long entry peak quantity amount = leb (entry * quantity + amount) (peak * quantity)
profit_at_least short entry peak quantity amount = leb (peak * quantity + amount) (entry * quantity)

unfoldable pub giveback_price : AbsoluteLadderParams → Option ℕ → ℕ → ℕ
giveback_price params none quantity = round_half_even params.giveback_inr quantity
giveback_price params (some atr) quantity =
    if ltb 0 atr
    then maximum (round_half_even params.giveback_inr quantity)
        (round_half_even (params.ladder_atr_k * atr) rupee)
    else round_half_even params.giveback_inr quantity

unfoldable pub absolute_ladder_stop : Side → ℕ → ℕ → ℕ → ℕ → Option ℕ → AbsoluteLadderParams → ℕ → ℕ
absolute_ladder_stop side entry original_sl peak_price quantity atr params current_stop =
    let breakeven_floor : List ℕ =
      if profit_at_least side entry peak_price quantity params.breakeven_inr
      then entry ∷ []
      else [] in
    let sealed_floor : List ℕ =
      if profit_at_least side entry peak_price quantity params.trail_start_inr
      then behind side peak_price (giveback_price params atr quantity) ∷ []
      else [] in
    if quantity == 0
    then current_stop
    else tightest side current_stop (original_sl ∷ breakeven_floor ++ sealed_floor)
