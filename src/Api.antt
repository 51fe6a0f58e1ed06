-- ===== src/Api.antt =====
-- The trading routes (backend/app/api/v1/trading.py): what they share, which is the row of a signal
-- as they read it, the settings and reads of the eligibility overlays, and the errors they raise.
mod Examples
pub mod Sessions
pub mod Positions
pub mod Orders
use ln_trading_app.Prelude.{Bool, List, Option, false, none, some, true, ℕ}
use ln_trading_app.Broker.Book.{Signal}
use ln_trading_app.Broker.Paper.{PlaceError}
use ln_trading_app.Prelude.Int.{ℤ}
use ln_trading_app.Signals.Overlays.{Mode}
use ln_trading_app.Signals.Overlays.CircuitGuard.{CircuitBand}
use ln_trading_app.Signals.Overlays.EntryQuality.{EntrySettings, FactorValue}
use ln_trading_app.Signals.Overlays.Regime.{Regime}
use ln_trading_app.Trading.CircuitBreaker.{BreakerReason}

-- `signal.status`
pub data SignalStatus : Type 0 where
  active_signal expired_signal shadow_signal other_signal : SignalStatus

-- A signal with the columns that the gates read. `explanation` is the text of its ADX factor.
pub record SignalRow : Type 0 where
  pub levels : Signal
  pub status : SignalStatus
  pub regime : Option Regime
  pub factor_scores : Option (List FactorValue)
  pub explanation : Option (List ℕ)

pub record GateSettings : Type 0 where
  pub regime_gate_mode : Mode
  pub circuit_gate_mode : Mode
  pub circuit_proximity_pct : ℕ
  pub entry_diversity_gate_mode : Mode
  pub entry_sl_atr_gate_mode : Mode
  pub entry_settings : EntrySettings
  pub sector_rs_gate_mode : Mode
  pub sector_rs_lookback : ℕ
  pub sector_rs_min_excess_pct : ℤ
  pub market_regime_gate_mode : Mode
  pub market_regime_dma_period : ℕ
  pub market_regime_dma_buffer_pct : ℕ
  pub market_regime_vix_threshold : ℕ
  pub liquidity_gate_mode : Mode
  pub liquidity_lookback : ℕ
  pub liquidity_min_traded_value : ℕ

-- A read of the database: `faulted` is an SQLAlchemyError.
pub data Read (A : Type 0) : Type 0 where
  faulted : Read A
  fetched : A → Read A

pub record RsContext : Type 0 where
  pub stock_closes : List (Option ℕ)
  pub benchmark_closes : List (Option ℕ)

pub record MarketContext : Type 0 where
  pub market_closes : List ℕ
  pub vix_close : Option ℕ

-- What the loaders return for a signal.
pub record GateReads : Type 0 where
  pub circuit_band : Option CircuitBand
  pub latest_atr_of_signal : Read (Option ℕ)
  pub rs_context : Read (Option RsContext)
  pub market_context : Read MarketContext
  pub traded_values : Read (List ℕ)

pub data Gate : Type 0 where
  regime_gate circuit_gate entry_quality_gate sector_rs_gate market_regime_gate liquidity_gate :
      Gate

-- `HTTPException`, by its detail; `uncaught` is an exception that no handler catches.
pub data ApiError : Type 0 where
  breaker_tripped : BreakerReason → ApiError
  signal_not_found : ApiError
  signal_not_active : SignalStatus → ApiError
  gated : Gate → ApiError
  not_placed : PlaceError → ApiError
  position_not_found : ApiError
  position_already_closed : ApiError
  stop_beyond_entry : ApiError
  uncaught : ApiError

unfoldable pub status_code : ApiError → ℕ
status_code (breaker_tripped reason) = 409
status_code signal_not_found = 404
status_code (signal_not_active status) = 409
status_code (gated gate) = 409
status_code (not_placed reason) = 422
status_code position_not_found = 404
status_code position_already_closed = 409
status_code stop_beyond_entry = 422
status_code uncaught = 500

pub data Response (A : Type 0) : Type 0 where
  failure : ApiError → Response A
  success : A → Response A

-- A raised exception ends the request.
infixl 5 ◌>>=◌
abbrev pub ◌>>=◌ : {A B : Type 0} → Response A → (A → Response B) → Response B
failure e >>= next = failure e
success value >>= next = next value

-- `db.get` of a row that must exist
abbrev pub or_raise : {A : Type 0} → ApiError → Option A → Response A
or_raise e none = failure e
or_raise e (some value) = success value

-- `if test: raise e`
abbrev pub raise_if : ApiError → Bool → Response Unit
raise_if e true = failure e
raise_if e false = success tt
