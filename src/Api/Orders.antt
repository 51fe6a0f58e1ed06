-- ===== src/Api/Orders.antt =====
-- Placing an order through the API (backend/app/api/v1/trading.py): the circuit breaker, the signal,
-- the six eligibility overlays in their order, and then the paper broker.
pub mod Effects
pub mod Placing
pub mod Overlays
use ln_trading_app.Prelude.{
  Bool, List, Option, [], false, if◌then◌else◌, map, none, some, true, ℕ, ◌++◌, ◌||◌, ◌∷◌,
}
use ln_trading_app.Api.{
  Gate, GateReads, GateSettings, MarketContext, Read, Response, RsContext, SignalRow, SignalStatus,
  active_signal, breaker_tripped, circuit_gate, entry_quality_gate, expired_signal, failure,
  faulted, fetched, gated, liquidity_gate, market_regime_gate, not_placed, or_raise, other_signal,
  raise_if, regime_gate, sector_rs_gate, shadow_signal, signal_not_active, signal_not_found,
  success, uncaught, ◌>>=◌,
}
use ln_trading_app.Broker.Book.{Book, BrokerSettings, Market, Position, User}
use ln_trading_app.Broker.Paper.{
  Attempt, at_risk_budget, err, multiple_results, no_live_price, ok, place_paper_order,
  size_rounds_to_zero,
}
use ln_trading_app.Money.{OrderSide, position_side}
use ln_trading_app.Signals.Overlays.{is_on}
use ln_trading_app.Signals.Overlays.CircuitGuard.{
  CircuitVerdict, circuit_block_reason, evaluate_circuit,
}
use ln_trading_app.Signals.Overlays.EntryQuality.{
  EntryQualityVerdict, entry_quality_block_reason, evaluate_entry_quality,
}
use ln_trading_app.Signals.Overlays.LiquidityGuard.{
  LiquidityVerdict, evaluate_liquidity, liquidity_block_reason,
}
use ln_trading_app.Signals.Overlays.MarketRegime.{
  RegimeVerdict, evaluate_market_regime, market_block_reason,
}
use ln_trading_app.Signals.Overlays.Regime.{regime_block_reason, signal_regime}
use ln_trading_app.Signals.Overlays.SectorRs.{
  RelativeStrengthVerdict, evaluate_sector_rs, rs_block_reason,
}
use ln_trading_app.Trading.CircuitBreaker.{BreakerReason, PnlRow, RiskLimits, check_circuit_breaker}

-- A verdict whose gate does not reject is kept for the stamp.
abbrev pub admit : {V : Type 0} → Gate → V → Bool → Response (Option V)
admit gate verdict true = failure (gated gate)
admit gate verdict false = success (some verdict)

unfoldable pub regime_overlay : GateSettings → SignalRow → Response Unit
unfolding signal_regime
regime_overlay s row =
    raise_if (gated regime_gate)
      (regime_block_reason (signal_regime row.regime row.explanation) s.regime_gate_mode)

unfoldable pub circuit_overlay :
    GateSettings → GateReads → SignalRow → OrderSide → Response (Option CircuitVerdict)
unfolding evaluate_circuit
circuit_overlay s reads row side =
    let verdict : CircuitVerdict =
      evaluate_circuit row.levels.entry_price (position_side side) reads.circuit_band
        s.circuit_proximity_pct in
    if is_on s.circuit_gate_mode
    then admit circuit_gate verdict (circuit_block_reason verdict s.circuit_gate_mode)
    else success none

-- The read of the ATR is in no savepoint and no `try`: its fault is the fault of the request.
unfoldable pub judge_entry_quality :
    GateSettings → SignalRow → Read (Option ℕ) → Response (Option EntryQualityVerdict)
unfolding evaluate_entry_quality
judge_entry_quality s row faulted = failure uncaught
judge_entry_quality s row (fetched atr) =
    let verdict : EntryQualityVerdict =
      evaluate_entry_quality s.entry_settings row.levels.entry_price row.levels.stop_loss
        row.factor_scores atr in
    admit entry_quality_gate verdict
      (entry_quality_block_reason verdict s.entry_diversity_gate_mode s.entry_sl_atr_gate_mode)

abbrev pub entry_quality_is_on : GateSettings → Bool
entry_quality_is_on s = is_on s.entry_diversity_gate_mode || is_on s.entry_sl_atr_gate_mode

unfoldable pub entry_quality_overlay :
    GateSettings → GateReads → SignalRow → Response (Option EntryQualityVerdict)
unfolding judge_entry_quality
entry_quality_overlay s reads row =
    if entry_quality_is_on s
    then judge_entry_quality s row reads.latest_atr_of_signal
    else success none

-- A fault and a missing context read alike.
abbrev pub context_of : {A : Type 0} → Read (Option A) → Option A
context_of faulted = none
context_of (fetched context) = context

abbrev pub closes_of : Option RsContext → List (Option ℕ)
closes_of none = []
closes_of (some context) = context.stock_closes

abbrev pub benchmark_of : Option RsContext → Option (List (Option ℕ))
benchmark_of none = none
benchmark_of (some context) = some context.benchmark_closes

unfoldable pub sector_rs_overlay :
    GateSettings → GateReads → OrderSide → Response (Option RelativeStrengthVerdict)
unfolding evaluate_sector_rs
sector_rs_overlay s reads side =
    let verdict : RelativeStrengthVerdict =
      evaluate_sector_rs (closes_of (context_of reads.rs_context))
        (benchmark_of (context_of reads.rs_context)) (position_side side) s.sector_rs_lookback
        s.sector_rs_min_excess_pct in
    if is_on s.sector_rs_gate_mode
    then admit sector_rs_gate verdict (rs_block_reason verdict s.sector_rs_gate_mode)
    else success none

abbrev pub market_closes_of : Read MarketContext → List ℕ
market_closes_of faulted = []
market_closes_of (fetched context) = context.market_closes

abbrev pub vix_of : Read MarketContext → Option ℕ
vix_of faulted = none
vix_of (fetched context) = context.vix_close

unfoldable pub market_regime_overlay :
    GateSettings → GateReads → OrderSide → Response (Option RegimeVerdict)
unfolding evaluate_market_regime
market_regime_overlay s reads side =
    let verdict : RegimeVerdict =
      evaluate_market_regime (position_side side) (market_closes_of reads.market_context)
        s.market_regime_dma_period s.market_regime_dma_buffer_pct (vix_of reads.market_context)
        s.market_regime_vix_threshold in
    if is_on s.market_regime_gate_mode
    then admit market_regime_gate verdict (market_block_reason verdict s.market_regime_gate_mode)
    else success none

abbrev pub values_of : Read (List ℕ) → List ℕ
values_of faulted = []
values_of (fetched values) = values

unfoldable pub liquidity_overlay :
    GateSettings → GateReads → OrderSide → Response (Option LiquidityVerdict)
unfolding evaluate_liquidity
liquidity_overlay s reads side =
    let verdict : LiquidityVerdict =
      evaluate_liquidity (values_of reads.traded_values) (position_side side) s.liquidity_lookback
        s.liquidity_min_traded_value in
    if is_on s.liquidity_gate_mode
    then admit liquidity_gate verdict (liquidity_block_reason verdict s.liquidity_gate_mode)
    else success none

pub record Verdicts : Type 0 where
  pub circuit_verdict : Option CircuitVerdict
  pub eq_verdict : Option EntryQualityVerdict
  pub rs_verdict : Option RelativeStrengthVerdict
  pub mkt_verdict : Option RegimeVerdict
  pub liq_verdict : Option LiquidityVerdict

unfoldable pub apply_eligibility_overlays :
    GateSettings → GateReads → SignalRow → OrderSide → Response Verdicts
unfolding regime_overlay circuit_overlay entry_quality_overlay sector_rs_overlay
    market_regime_overlay liquidity_overlay
apply_eligibility_overlays s reads row side = do
  eligible ← regime_overlay s row
  circuit ← circuit_overlay s reads row side
  quality ← entry_quality_overlay s reads row
  strength ← sector_rs_overlay s reads side
  market ← market_regime_overlay s reads side
  liquidity ← liquidity_overlay s reads side
  success (record {
    circuit_verdict = circuit;
    eq_verdict = quality;
    rs_verdict = strength;
    mkt_verdict = market;
    liq_verdict = liquidity;
  })

-- A key of the order's payload, with the verdict under it
pub data Stamp : Type 0 where
  circuit_stamp : CircuitVerdict → Stamp
  entry_quality_stamp : EntryQualityVerdict → Stamp
  sector_rs_stamp : RelativeStrengthVerdict → Stamp
  market_regime_stamp : RegimeVerdict → Stamp
  liquidity_stamp : LiquidityVerdict → Stamp

abbrev pub stamp_with : {V : Type 0} → (V → Stamp) → Option V → List Stamp
stamp_with key none = []
stamp_with key (some verdict) = key verdict ∷ []

unfoldable pub overlay_stamps : Verdicts → List Stamp
overlay_stamps v =
    stamp_with circuit_stamp v.circuit_verdict
    ++ stamp_with entry_quality_stamp v.eq_verdict
    ++ stamp_with sector_rs_stamp v.rs_verdict
    ++ stamp_with market_regime_stamp v.mkt_verdict
    ++ stamp_with liquidity_stamp v.liq_verdict

-- A user with the limits of the circuit breaker
pub record Account : Type 0 where
  pub user : User
  pub account_loss_limit_pct : ℕ
  pub account_max_trades : ℕ

abbrev pub limits_of : Account → RiskLimits
limits_of account = record {
  id = account.user.id;
  capital_inr = account.user.capital_inr;
  daily_loss_limit_pct = account.account_loss_limit_pct;
  max_trades_per_day = account.account_max_trades;
}

-- The columns of a position that the breaker reads
abbrev pub pnl_row : Position → PnlRow
pnl_row p = record {
  user_id = p.user_id;
  opened_at = p.opened_at;
  closed_at = p.closed_at;
  realized_pnl = p.realized_pnl;
}

abbrev pub pass_breaker : Option BreakerReason → Response Unit
pass_breaker none = success tt
pass_breaker (some reason) = failure (breaker_tripped reason)

-- `signal.status not in ("active",)`
abbrev pub must_be_active : SignalStatus → Response Unit
must_be_active active_signal = success tt
must_be_active shadow_signal = failure (signal_not_active shadow_signal)
must_be_active expired_signal = failure (signal_not_active expired_signal)
must_be_active other_signal = failure (signal_not_active other_signal)

-- `except (PaperOrderError, ValueError)`; the query for one row raises neither.
abbrev pub placing : Attempt Book → Response Book
placing (ok book) = success book
placing (err multiple_results) = failure uncaught
placing (err no_live_price) = failure (not_placed no_live_price)
placing (err at_risk_budget) = failure (not_placed at_risk_budget)
placing (err size_rounds_to_zero) = failure (not_placed size_rounds_to_zero)

-- The committed book, and the stamps on its newest order
pub record PlacedOrder : Type 0 where
  pub placed_book : Book
  pub stamps : List Stamp

-- What is around a request: the settings, the prices, the time and the signals table.
pub record Around : Type 0 where
  pub gates : GateSettings
  pub broker : BrokerSettings
  pub market : Market
  pub reads : GateReads
  pub now : ℕ
  pub signals : ℕ → Option SignalRow

pub record PlaceOrderRequest : Type 0 where
  pub signal_id : ℕ
  pub side : OrderSide
  pub quantity : Option ℕ

unfoldable pub place_order : Around → Account → PlaceOrderRequest → Book → Response PlacedOrder
unfolding apply_eligibility_overlays overlay_stamps place_paper_order check_circuit_breaker
place_order w account req book = do
  passed ←
      pass_breaker (check_circuit_breaker w.now (limits_of account) (map pnl_row book.positions))
  row ← or_raise signal_not_found (w.signals req.signal_id)
  live ← must_be_active row.status
  verdicts ← apply_eligibility_overlays w.gates w.reads row req.side
  booked ←
      placing (
        place_paper_order w.broker w.market w.now account.user row.levels req.side req.quantity
          book)
  success (record { placed_book = booked; stamps = overlay_stamps verdicts })
