-- ===== src/Api/Orders/Overlays.antt =====
-- What the chain of eligibility overlays may and may not do to an order.
use ln_trading_app.Prelude.{
  Bool, List, Option, arith, false, if◌then◌else◌, inl, inr, length, none, refl, some, true, ℕ, ◌*◌,
  ◌<◌, ◌≡◌, ◌≢◌, ◌≤◌, ◌⊎◌,
}
use ln_trading_app.Api.{
  ApiError, Gate, GateReads, GateSettings, MarketContext, Read, Response, RsContext, SignalRow,
  circuit_gate, entry_quality_gate, failure, faulted, fetched, gated, liquidity_gate,
  market_regime_gate, regime_gate, sector_rs_gate, success, uncaught, ◌>>=◌,
}
use ln_trading_app.Api.Orders.{
  Verdicts, apply_eligibility_overlays, circuit_overlay, entry_quality_is_on, entry_quality_overlay,
  judge_entry_quality, liquidity_overlay, market_regime_overlay, regime_overlay, sector_rs_overlay,
}
use ln_trading_app.Money.{OrderSide, position_side}
use ln_trading_app.Prelude.Round.{distance}
use ln_trading_app.Signals.Overlays.{is_active, last_n}
use ln_trading_app.Signals.Overlays.CircuitGuard.{CircuitBand, evaluate_circuit, too_near}
use ln_trading_app.Signals.Overlays.EntryQuality.{
  evaluate_entry_quality, factor_diversity, lacks_diversity, too_tight,
}
use ln_trading_app.Signals.Overlays.LiquidityGuard.{evaluate_liquidity, median_twice}
use ln_trading_app.Signals.Overlays.MarketRegime.{evaluate_market_regime, market_judge}
use ln_trading_app.Signals.Overlays.Regime.{signal_regime, transitional}
use ln_trading_app.Signals.Overlays.SectorRs.{evaluate_sector_rs, rs_compare}

-- A step that went through went through everywhere.
pub bind-success :
    {A B : Type 0} (r : Response A) (next : A → Response B) {b : B}
    → (r >>= next) ≡ success b
    → (a : A) × ((r ≡ success a) × (next a ≡ success b))
bind-success (failure e) next h = cc
bind-success (success a) next h = (a, (refl, h))

-- An error comes from the first step or from the rest.
pub bind-failure :
    {A B : Type 0} (r : Response A) (next : A → Response B) {e : ApiError}
    → (r >>= next) ≡ failure e
    → (r ≡ failure e) ⊎ ((a : A) × ((r ≡ success a) × (next a ≡ failure e)))
bind-failure (failure e) next h = inl (ground arith)
bind-failure (success a) next h = inr (a, (refl, h))

-- The gate of an error is on and has a reason.
abbrev pub Blames : GateSettings → GateReads → SignalRow → OrderSide → Gate → Type 0
Blames s reads row side regime_gate =
    (is_active s.regime_gate_mode ≡ true)
    × (signal_regime row.regime row.explanation ≡ transitional)
Blames s reads row side circuit_gate =
    (is_active s.circuit_gate_mode ≡ true)
    × ((band : CircuitBand) × ((reads.circuit_band ≡ some band)
          × (too_near (position_side side) row.levels.entry_price band s.circuit_proximity_pct
              ≡ true)))
Blames s reads row side entry_quality_gate =
    ((is_active s.entry_diversity_gate_mode ≡ true)
      × (lacks_diversity s.entry_settings (factor_diversity row.factor_scores) ≡ true))
    ⊎ ((is_active s.entry_sl_atr_gate_mode ≡ true)
        × ((atr : Option ℕ) × ((reads.latest_atr_of_signal ≡ fetched atr)
              × (too_tight s.entry_settings (distance row.levels.entry_price row.levels.stop_loss)
                    atr
                  ≡ true))))
Blames s reads row side sector_rs_gate =
    (is_active s.sector_rs_gate_mode ≡ true)
    × ((context : RsContext) × ((reads.rs_context ≡ fetched (some context))
          × (rs_compare (position_side side) s.sector_rs_lookback s.sector_rs_min_excess_pct
                context.stock_closes context.benchmark_closes
              ≡ true)))
Blames s reads row side market_regime_gate =
    (is_active s.market_regime_gate_mode ≡ true)
    × ((context : MarketContext) × ((reads.market_context ≡ fetched context)
          × (market_judge (position_side side) context.market_closes s.market_regime_dma_period
                s.market_regime_dma_buffer_pct
              ≡ some true)))
Blames s reads row side liquidity_gate =
    (is_active s.liquidity_gate_mode ≡ true)
    × ((values : List ℕ) × ((reads.traded_values ≡ fetched values)
          × ((s.liquidity_lookback ≤ length values)
              × (median_twice (last_n s.liquidity_lookback values)
                  < 2 * s.liquidity_min_traded_value))))

-- A gate rejects the order, or the read of the ATR faults and the entry-quality overlay is on.
abbrev pub Rejected : GateSettings → GateReads → SignalRow → OrderSide → ApiError → Type 0
Rejected s reads row side e =
    ((gate : Gate) × ((e ≡ gated gate) × Blames s reads row side gate))
    ⊎ ((e ≡ uncaught) × ((reads.latest_atr_of_signal ≡ faulted) × (entry_quality_is_on s ≡ true)))

regime_overlay-Blames :
    (s : GateSettings) (reads : GateReads) (row : SignalRow) (side : OrderSide) {e : ApiError}
    → regime_overlay s row ≡ failure e
    → (e ≡ gated regime_gate) × Blames s reads row side regime_gate
unfolding regime_overlay
regime_overlay-Blames s reads row side h = ground arith

circuit_overlay-Blames :
    (s : GateSettings) (reads : GateReads) (row : SignalRow) (side : OrderSide) {e : ApiError}
    → circuit_overlay s reads row side ≡ failure e
    → (e ≡ gated circuit_gate) × Blames s reads row side circuit_gate
unfolding circuit_overlay evaluate_circuit
circuit_overlay-Blames s reads row side h = ground arith

judge_entry_quality-Blames :
    (s : GateSettings) (reads : GateReads) (row : SignalRow) (side : OrderSide) {e : ApiError}
    (read : Read (Option ℕ))
    → reads.latest_atr_of_signal ≡ read
    → entry_quality_is_on s ≡ true
    → judge_entry_quality s row read ≡ failure e
    → Rejected s reads row side e
unfolding judge_entry_quality evaluate_entry_quality
judge_entry_quality-Blames s reads row side faulted found on h = inr (ground arith)
judge_entry_quality-Blames s reads row side {e} (fetched atr) found on h =
    inl (entry_quality_gate, blamed h)
  where
    blamed :
        judge_entry_quality s row (fetched atr) ≡ failure e
        → (e ≡ gated entry_quality_gate) × Blames s reads row side entry_quality_gate
    blamed h = ground arith

entry_quality_overlay-Blames :
    (s : GateSettings) (reads : GateReads) (row : SignalRow) (side : OrderSide) {e : ApiError}
    → entry_quality_overlay s reads row ≡ failure e
    → Rejected s reads row side e
unfolding entry_quality_overlay
entry_quality_overlay-Blames s reads row side {e} h = step (entry_quality_is_on s) refl h
  where
    step :
        (on : Bool)
        → entry_quality_is_on s ≡ on
        → (if on then judge_entry_quality s row reads.latest_atr_of_signal else success none)
          ≡ failure e
        → Rejected s reads row side e
    step true on h =
        judge_entry_quality-Blames s reads row side reads.latest_atr_of_signal refl on h
    step false off h = ground arith

sector_rs_overlay-Blames :
    (s : GateSettings) (reads : GateReads) (row : SignalRow) (side : OrderSide) {e : ApiError}
    → sector_rs_overlay s reads side ≡ failure e
    → (e ≡ gated sector_rs_gate) × Blames s reads row side sector_rs_gate
unfolding sector_rs_overlay evaluate_sector_rs
sector_rs_overlay-Blames s reads row side h = ground arith

market_regime_overlay-Blames :
    (s : GateSettings) (reads : GateReads) (row : SignalRow) (side : OrderSide) {e : ApiError}
    → market_regime_overlay s reads side ≡ failure e
    → (e ≡ gated market_regime_gate) × Blames s reads row side market_regime_gate
unfolding market_regime_overlay evaluate_market_regime
market_regime_overlay-Blames s reads row side h = ground arith

liquidity_overlay-Blames :
    (s : GateSettings) (reads : GateReads) (row : SignalRow) (side : OrderSide) {e : ApiError}
    → liquidity_overlay s reads side ≡ failure e
    → (e ≡ gated liquidity_gate) × Blames s reads row side liquidity_gate
unfolding liquidity_overlay evaluate_liquidity
liquidity_overlay-Blames s reads row side h = ground arith

-- An order that the overlays reject is rejected for a gate that is active and has read the data
-- that it objects to, never for a gate in shadow or off, for a missing band, for a history that is too
-- short or for a fault of the reads in savepoints. The one other way to fail is a fault of the read
-- of the ATR, which fails the request if one of the two entry-quality checks is not off, be it in
-- shadow.
pub apply_eligibility_overlays-Blames :
    (s : GateSettings) (reads : GateReads) (row : SignalRow) (side : OrderSide) {e : ApiError}
    → apply_eligibility_overlays s reads row side ≡ failure e
    → Rejected s reads row side e
unfolding apply_eligibility_overlays
apply_eligibility_overlays-Blames s reads row side h =
    elim (bind-failure (regime_overlay s row) _ h) [
      | inl here ↦ inl (regime_gate, regime_overlay-Blames s reads row side here)
      | inr (a, (ga, h)) ↦ elim (bind-failure (circuit_overlay s reads row side) _ h) [
        | inl here ↦ inl (circuit_gate, circuit_overlay-Blames s reads row side here)
        | inr (b, (gb, h)) ↦ elim (bind-failure (entry_quality_overlay s reads row) _ h) [
          | inl here ↦ entry_quality_overlay-Blames s reads row side here
          | inr (c, (gc, h)) ↦ elim (bind-failure (sector_rs_overlay s reads side) _ h) [
            | inl here ↦ inl (sector_rs_gate, sector_rs_overlay-Blames s reads row side here)
            | inr (d, (gd, h)) ↦ elim (bind-failure (market_regime_overlay s reads side) _ h) [
              | inl here ↦
                  inl (market_regime_gate, market_regime_overlay-Blames s reads row side here)
              | inr (f, (gf, h)) ↦ elim (bind-failure (liquidity_overlay s reads side) _ h) [
                | inl here ↦ inl (liquidity_gate, liquidity_overlay-Blames s reads row side here)
                | inr (g, (gg, h)) ↦ cc
              ]
            ]
          ]
        ]
      ]
    ]

-- No gate of these settings is active.
abbrev pub NoneActive : GateSettings → Type 0
NoneActive s =
    (is_active s.regime_gate_mode ≡ false)
    × ((is_active s.circuit_gate_mode ≡ false)
        × ((is_active s.entry_diversity_gate_mode ≡ false)
            × ((is_active s.entry_sl_atr_gate_mode ≡ false)
                × ((is_active s.sector_rs_gate_mode ≡ false)
                    × ((is_active s.market_regime_gate_mode ≡ false)
                        × (is_active s.liquidity_gate_mode ≡ false))))))

inactive-Blames :
    (s : GateSettings) (reads : GateReads) (row : SignalRow) (side : OrderSide) (gate : Gate)
    → NoneActive s
    → Blames s reads row side gate
    → ⊥
inactive-Blames s reads row side regime_gate quiet h = ground arith
inactive-Blames s reads row side circuit_gate quiet h = ground arith
inactive-Blames s reads row side entry_quality_gate quiet h = ground arith
inactive-Blames s reads row side sector_rs_gate quiet h = ground arith
inactive-Blames s reads row side market_regime_gate quiet h = ground arith
inactive-Blames s reads row side liquidity_gate quiet h = ground arith

pub Response-cases :
    {A : Type 0} (r : Response A) → ((a : A) × (r ≡ success a)) ⊎ ((e : ApiError) × (r ≡ failure e))
Response-cases (success a) = inl (a, refl)
Response-cases (failure e) = inr (e, refl)

-- Without an active gate every order goes through the overlays, if the ATR could be read.
pub apply_eligibility_overlays_quiet :
    (s : GateSettings) (reads : GateReads) (row : SignalRow) (side : OrderSide)
    → NoneActive s
    → reads.latest_atr_of_signal ≢ faulted
    → (v : Verdicts) × (apply_eligibility_overlays s reads row side ≡ success v)
apply_eligibility_overlays_quiet s reads row side quiet read =
    elim (Response-cases (apply_eligibility_overlays s reads row side)) [
      | inl found ↦ found
      | inr (e, refused) ↦ elim (apply_eligibility_overlays-Blames s reads row side refused) [
        | inl (gate, (named, blamed)) ↦ absurd (inactive-Blames s reads row side gate quiet blamed)
        | inr (crashed, (broken, on)) ↦ absurd (read broken)
      ]
    ]
