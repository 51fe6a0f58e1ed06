-- ===== src/Broker/LiveLevels/Examples.antt =====
-- StockLevels of two signals, and a cycle of the directory.
use ln_trading_app.Prelude.{
  Bool, List, Option, [], false, leb, length, none, refl, some, true, ℕ, ◌*◌, ◌∷◌, ◌≡◌, ◌⊎◌,
}
use ln_trading_app.Broker.LiveLevels.{
  Level, LevelSettings, LevelSignal, cross_up, signal_level_id, sr_level_id,
}
use ln_trading_app.Broker.LiveLevels.Directory.{
  LevelState, StockLevels, apply_levels, merge_signals, refresh,
}
use ln_trading_app.Broker.LiveLevels.Directory.Changes.{wanted}
use ln_trading_app.Broker.LiveLevels.Directory.Cycle.{IsSynced}
use ln_trading_app.Broker.LiveLevels.Directory.Settle.{refresh_settles}
use ln_trading_app.Money.{rupee}

abbrev live_settings : LevelSettings
live_settings = record { zone_num = 5; zone_den = 1_000; within_bp = 25; rearm_bp = 10 }

abbrev buy_signal : LevelSignal
buy_signal = record {
  live_id = 1;
  live_hash = 77;
  live_stock = 3;
  live_timeframe = 15;
  live_entry = 100 * rupee;
  live_sl = some (95 * rupee);
  live_tp = some (110 * rupee);
  is_buy = true;
  is_shadow = false;
}

-- The range of ids of the zones of support and resistance is not past: a signal has ids in it.
ids_meet : sr_level_id 900 ≡ signal_level_id 0 0
unfolding sr_level_id signal_level_id
ids_meet = refl

abbrev pdh : Level
pdh = cross_up 1 1_020_000 10

abbrev static_levels : StockLevels
static_levels = (3, pdh ∷ []) ∷ []

abbrev no_zones : ℕ → ℕ → Option (List Level)
no_zones sid timeframe = none

-- The engine rejects lists of more than five levels.
abbrev at_most_five : ℕ → List Level → Bool
at_most_five sid levels = leb (length levels) 5

abbrev at_start : LevelState
at_start = record { engine = λ sid. []; last_sent = [] }

refresh_settles_example :
    let s' =
      apply_levels at_most_five
        (refresh live_settings no_zones (buy_signal ∷ []) static_levels at_start.last_sent)
        at_start in
    let joined = merge_signals live_settings no_zones (buy_signal ∷ []) [] static_levels in
    IsSynced s'
    × ((sid : ℕ)
        → (s'.engine sid ≡ wanted joined sid) ⊎ (at_most_five sid (wanted joined sid) ≡ false))
refresh_settles_example =
    refresh_settles live_settings no_zones (buy_signal ∷ []) static_levels at_most_five at_start
      (refl, tt) (λ sid. refl)
