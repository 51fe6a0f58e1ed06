-- ===== src/Signals/Examples.antt =====
-- Levels and outcomes at concrete inputs.
use ln_trading_app.Prelude.{
  All, Bool, List, Option, [], arith, false, length, none, refl, some, true, ℕ, ◌*◌, ◌+◌, ◌-◌, ◌<◌,
  ◌==◌, ◌∷◌, ◌≡◌, ◌≤◌,
}
use ln_trading_app.Clock.{day, minute}
use ln_trading_app.Money.{buy, rupee, short, swing}
use ln_trading_app.Prelude.Int.{pos}
use ln_trading_app.Prelude.Round.{round_half_even}
use ln_trading_app.Signals.Calendar.{
  add_trading_days, collect_back, compute_validity_until, holidays_between, last_n_trading_days,
  prev_trading_day, span, trades, trading_date_after, trading_days_between, validity_offset_days,
  walk, walk_back,
}
use ln_trading_app.Signals.Calendar.LastDays.{last_n_trading_days_ends}
use ln_trading_app.Signals.Calendar.Validity.{validity_is_trading_days}
use ln_trading_app.Signals.Calendar.Walk.{trading_date_after-trading_days_between}
use ln_trading_app.Signals.Excursion.{Excursion, TapeBar, tape_excursion, track_extreme}
use ln_trading_app.Signals.Levels.{
  Levels, Structure, compute_levels, compute_quantity, pct_of, placed, safe_levels, stop_of,
  target_of,
}
use ln_trading_app.Signals.Levels.Guards.{compute_quantity_safe}
use ln_trading_app.Signals.Outcomes.{
  entry_touched, entry_zone, finalize_row, resolve, seed, sl_touch, touch_row, tp_first, tp_touch,
}
use ln_trading_app.Signals.Outcomes.Ladder.{
  Event, IsHonest, history, history-IsHonest, swept, touched,
}

-- A swing low at 97 below an entry at 100 rupees
abbrev chart : Structure
chart = record {
  swing_low = some (97 * rupee);
  swing_high = some (104 * rupee);
  ema20_daily = none;
}

abbrev swing_levels : Levels
swing_levels = record { stop_loss = 97 * rupee; take_profit = 106 * rupee }

swing_levels-placed : safe_levels buy swing (100 * rupee) chart ≡ placed swing_levels
unfolding safe_levels compute_levels stop_of target_of pct_of round_half_even
swing_levels-placed = refl

compute_quantity_safe_example :
    (qty : ℕ) × (compute_quantity (100_000 * rupee) 100 (100 * rupee) (97 * rupee) ≡ some qty)
    × (qty * (3 * rupee * 10_000) ≤ 100_000 * rupee * 100)
    × (100_000 * rupee * 100 < qty * (3 * rupee * 10_000) + 3 * rupee * 10_000)
compute_quantity_safe_example =
    compute_quantity_safe buy swing (100 * rupee) (100_000 * rupee) 100 chart swing_levels-placed

-- Entry, then the target, then a late stop and a sweep
abbrev won : List Event
won = touched entry_zone 10 500 ∷ touched tp_touch 20 530 ∷ touched sl_touch 30 480 ∷ swept 100 ∷ []

won_is_tp_first : (history won (seed 1 50)).status ≡ tp_first
unfolding seed touch_row resolve finalize_row
won_is_tp_first = refl

-- A target touched before the entry does not resolve, though it is delivered again after it.
early_target :
    (history
      (touched tp_touch 5 530 ∷ touched entry_zone 10 500 ∷ touched tp_touch 5 530 ∷ [])
      (seed 1 50)).status
    ≡ entry_touched
unfolding seed touch_row resolve
early_target = refl

history-IsHonest_example : IsHonest (history won (seed 1 50))
history-IsHonest_example = history-IsHonest won 1 50

-- From Monday 2026-08-03, with the Friday of that week closed
abbrev monday : ℕ
monday = 20_668

abbrev friday_closed : ℕ → Bool
friday_closed d = d == 20_672

five_days_later : trading_date_after friday_closed monday 5 ≡ some 20_676
unfolding trading_date_after walk
five_days_later = refl

trading_date_after-trading_days_between_example :
    length (trading_days_between friday_closed 20_669 20_676) ≡ 5
trading_date_after-trading_days_between_example =
    trading_date_after-trading_days_between friday_closed monday 5 20_676 five_days_later
      (ground arith)

-- The swing signal of that Monday at 06:00 UTC is valid for eight calendar days.
abbrev monday_morning : ℕ
monday_morning = monday * day + 360 * minute

eight_days : validity_offset_days friday_closed swing monday_morning ≡ some 8
unfolding validity_offset_days add_trading_days trading_date_after walk
eight_days = refl

validity_is_trading_days_example :
    compute_validity_until swing monday_morning 8 ≡ add_trading_days friday_closed monday_morning 5
validity_is_trading_days_example =
    validity_is_trading_days friday_closed swing monday_morning 4 8 refl eight_days

thursday_before : prev_trading_day friday_closed 20_675 ≡ some 20_671
unfolding prev_trading_day walk_back
thursday_before = refl

abbrev short_tape : List TapeBar
short_tape =
    record { bar_time = 1; bar_high = 104; bar_low = 99; bar_close = 101 }
    ∷ record { bar_time = 2; bar_high = 102; bar_low = 96; bar_close = 97 }
    ∷ record { bar_time = 3; bar_high = 107; bar_low = 96; bar_close = 106 }
    ∷ []

abbrev or_no_excursion : Option Excursion → Excursion
or_no_excursion none = record {
  bar_count = 0;
  mfe = record { price = 0; time = 0 };
  mfe_move = pos 0;
  mfe_pnl = pos 0;
  mae = record { price = 0; time = 0 };
  mae_move = pos 0;
  mae_pnl = pos 0;
  last_close = 0;
  last_time = 0;
  reached_1r = false;
}
or_no_excursion (some e) = e

-- A short from 100 with a risk of 4 falls to 96, first in the second bar, and so reaches 1R.
abbrev excursion_of_short : Excursion
excursion_of_short = or_no_excursion (tape_excursion short_tape short 100 4 10)

short_tape-moves : tape_excursion short_tape short 100 4 10 ≡ some excursion_of_short
unfolding tape_excursion track_extreme
short_tape-moves = refl

short_tape-1r : (excursion_of_short.reached_1r ≡ true) × (excursion_of_short.mfe.time ≡ 2)
unfolding tape_excursion track_extreme
short_tape-1r = (refl, refl)

last_n_trading_days_ends_example :
    (found : List ℕ) × ((last_n_trading_days friday_closed 20_675 3 ≡ some found)
      × ((length found ≡ 3)
          × All
              (λ (d : ℕ). trades (holidays_between friday_closed (20_675 - span 3) 20_675) d ≡ true)
              found))
last_n_trading_days_ends_example = last_n_trading_days_ends friday_closed 20_675 3 (ground arith)

-- The Monday, and the Wednesday and Thursday before the closed Friday
three_days_back : last_n_trading_days friday_closed 20_675 3 ≡ some (20_670 ∷ 20_671 ∷ 20_675 ∷ [])
unfolding last_n_trading_days collect_back
three_days_back = refl
