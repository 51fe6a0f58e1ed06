-- ===== src/Trading/Examples.antt =====
-- The trading rules at concrete inputs. Prices here are small whole numbers of money units.
use ln_trading_app.Prelude.{[], arith, none, refl, some, true, ℕ, ◌*◌, ◌+◌, ◌-◌, ◌∷◌, ◌≡◌, ◌≤◌}
use ln_trading_app.Clock.{minute, second}
use ln_trading_app.Money.{intraday, long, rupee, short}
use ln_trading_app.Prelude.Int.{negsuc, ◌+ℤ◌}
use ln_trading_app.Prelude.Round.{round_half_even, round_half_up}
use ln_trading_app.Trading.CircuitBreaker.{
  PnlRow, RiskLimits, check_circuit_breaker, daily_loss_limit, day_start_utc,
  get_daily_realized_pnl, loss_reached,
}
use ln_trading_app.Trading.Fees.{
  brokerage_of, delivery, leg_charges, roundtrip_charges, stamp_of, stt_of, zerodha_equity,
}
use ln_trading_app.Trading.ProfitLock.{
  AbsoluteLadderParams, absolute_ladder_stop, behind, favour, giveback_price, layered_ratchet_stop,
  params_for, profit_at_least,
}
use ln_trading_app.Trading.ProfitLock.Absolute.{absolute_ladder_stop_floors}
use ln_trading_app.Trading.ProfitLock.Layered.{
  kept_at, layered_ratchet_stop_keeps, params_for-IsTapered,
}
use ln_trading_app.Trading.TrailSl.{NoLooser, advance_trail, no_trail, trailing_1, trailing_2}
use ln_trading_app.Trading.TrailSl.Ladder.{run_trail}

advance_long :
    advance_trail long 1000 900 900 1150 no_trail
    ≡ record { new_sl = 1050; new_state = trailing_1; advanced = true }
unfolding advance_trail
advance_long = refl

advance_short : (advance_trail short 1000 1100 1100 780 no_trail).new_sl ≡ 880
unfolding advance_trail
advance_short = refl

-- In trailing_2 the stop no longer moves, however far the price goes.
frozen_run : run_trail long 1000 900 (1300 ∷ 1900 ∷ []) 1110 trailing_2 ≡ (1110, trailing_2)
unfolding advance_trail
frozen_run = refl

-- A rupee ladder in small units: breakeven at 20, seal from 30, give back 10.
abbrev small_ladder : AbsoluteLadderParams
small_ladder = record {
  breakeven_inr = 20;
  trail_start_inr = 30;
  giveback_inr = 10;
  ladder_atr_k = rupee;
}

sealed : absolute_ladder_stop long 1000 900 1008 5 none small_ladder 900 ≡ 1006
unfolding absolute_ladder_stop giveback_price round_half_even
sealed = refl

absolute_ladder_stop_floors_example :
    let stop = absolute_ladder_stop long 1000 900 1008 5 none small_ladder 900 in
    NoLooser long stop 900
    × NoLooser long stop 900
    × (profit_at_least long 1000 1008 5 20 ≡ true → NoLooser long stop 1000)
    × (profit_at_least long 1000 1008 5 30 ≡ true
        → NoLooser long stop (behind long 1008 (giveback_price small_ladder none 5)))
absolute_ladder_stop_floors_example =
    absolute_ladder_stop_floors long 1000 900 1008 5 none small_ladder 900 (ground arith)

layered_ratchet_stop_keeps_example :
    let params = params_for (some intraday) in
    2 * (favour long 1000 1200 * (rupee - params.giveback_early))
    ≤ 2 * (kept_at long 1000 (layered_ratchet_stop long 1000 900 1200 none params 900) * rupee)
      + rupee
unfolding params_for
layered_ratchet_stop_keeps_example =
    layered_ratchet_stop_keeps long 1000 900 1200 none (params_for (some intraday)) 900
      (params_for-IsTapered (some intraday)) refl

-- A hundred shares bought at 500 rupees and sold at 510, for delivery, cost 112.16 rupees.
charges_in_delivery :
    roundtrip_charges zerodha_equity long (500 * rupee) (510 * rupee) 100 delivery ≡ 11_216
unfolding roundtrip_charges leg_charges brokerage_of stt_of stamp_of round_half_up
charges_in_delivery = refl

-- Noon UTC on 2026-08-03, a Monday
abbrev noon : ℕ
noon = 1_785_758_400 * second

abbrev limits : RiskLimits
limits = record { id = 1; capital_inr = 1000; daily_loss_limit_pct = 200; max_trades_per_day = 2 }

abbrev lost_trade : PnlRow
lost_trade = record {
  user_id = 1;
  opened_at = noon - 2 * minute;
  closed_at = some (noon - minute);
  realized_pnl = negsuc 24;
}

stopped_for_the_day : check_circuit_breaker noon limits (lost_trade ∷ []) ≡ some daily_loss_limit
unfolding check_circuit_breaker loss_reached get_daily_realized_pnl ◌+ℤ◌ day_start_utc
stopped_for_the_day = refl
