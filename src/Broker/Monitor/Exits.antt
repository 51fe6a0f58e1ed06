-- ===== src/Broker/Monitor/Exits.antt =====
-- When a beat closes a position, and at what price.
use ln_trading_app.Prelude.{
  Bool, Bool-cases, Option, arith, false, inl, inr, none, refl, some, suc, true, zero, ℕ, ◌*◌, ◌<◌,
  ◌||◌, ◌∙◌, ◌≡◌,
}
use ln_trading_app.Broker.Book.{BrokerSettings, Market, Position, Reason, is_open, sl_hit, tp_hit}
use ln_trading_app.Broker.Fill.Adverse.{NoBetter}
use ln_trading_app.Broker.Monitor.{
  Beat, Lookup, act, beat, classification_of, closed, closed_or_raised, is_better, raised, skipped,
  stop_reached, stopped_at, target_reached, track_peak, updated,
}
use ln_trading_app.Broker.Paper.{Closing, close_position, closing_at, exit_fill_of, raw_exit_price}
use ln_trading_app.Broker.Paper.Close.{close_position_pays, compute_pnl_mono}
use ln_trading_app.Money.{Classification, Side, closing_side, long, short, tick4}
use ln_trading_app.Prelude.Int.{ℤ, ◌≤ℤ◌}
use ln_trading_app.Prelude.Round.{mul_mono}
use ln_trading_app.Trading.TrailSl.{compute_pnl, is_sl_hit, stop_fill_price}

-- The live price has reached the stop or the target of a row.
abbrev pub level_reached : ℕ → Position → Bool
level_reached price p =
    stop_reached p.side price p.current_sl || target_reached p.side price p.current_tp

-- What the beat did, as a flag
abbrev pub has_closed : Beat → Bool
has_closed skipped = false
has_closed raised = false
has_closed (updated q) = false
has_closed (closed closing) = true

abbrev pub closed_reason : Beat → Option Reason
closed_reason (closed closing) = closing.closed_position.exit_reason
closed_reason _ = none

closes :
    (settings : BrokerSettings) (m : Market) (now : ℕ) (c : Option Classification) (exit : Option ℕ)
    (why : Reason) (p : Position)
    → is_open p ≡ true
    → closed_or_raised (close_position settings m now c exit why p)
      ≡ closed (closing_at settings now c why p (exit_fill_of settings m exit p))
unfolding close_position
closes settings m now c exit why p h = rw h refl

-- The three outcomes that are stated of a beat, as one predicate
abbrev Exits : ℕ → Position → Beat → Type 0
Exits price p b =
    (has_closed b ≡ level_reached price p)
    × (stop_reached p.side price p.current_sl ≡ true → closed_reason b ≡ some sl_hit)
    × ¬ (b ≡ raised)

act_closes :
    (db : Lookup) (settings : BrokerSettings) (m : Market) (now price : ℕ) (p : Position)
    → is_open p ≡ true
    → Exits price p (act db settings m now price p)
unfolding act closing_at
act_closes db settings m now price p h =
    elim (Bool-cases (stop_reached p.side price p.current_sl)) [
      | inl stop ↦
          rw stop (rw (closes settings m now _ _ sl_hit p h) (refl, λ _. refl, λ e. ground arith))
      | inr safe ↦ rw safe (elim (Bool-cases (target_reached p.side price p.current_tp)) [
        | inl target ↦
            rw target (
              rw (closes settings m now _ _ tp_hit p h)
                (refl, λ e. ground arith, λ e. ground arith))
        | inr between ↦ rw between (refl, λ e. ground arith, λ e. ground arith)
      ])
    ]

track_peak-Exits :
    (price : ℕ) (p : Position) (b : Beat) → Exits price (track_peak price p) b → Exits price p b
unfolding track_peak
track_peak-Exits price p b h = elim (Bool-cases (is_better p.side price p.peak_price)) [
  | inl better ↦ simp better at h
  | inr worse ↦ simp worse at h
]

track_peak-is_open : (price : ℕ) (p : Position) → is_open (track_peak price p) ≡ is_open p
unfolding track_peak
track_peak-is_open price p = ground arith

-- A beat acts on the row with its peak brought up to date.
pub beat-tick :
    (db : Lookup) (settings : BrokerSettings) (m : Market) (now price : ℕ) (p : Position)
    → m.live_ltp p.stock_id ≡ some price
    → beat db settings m now p ≡ act db settings m now price (track_peak price p)
unfolding beat
beat-tick db settings m now price p e = rw (beat, e) refl

pub beat-quiet :
    (db : Lookup) (settings : BrokerSettings) (m : Market) (now : ℕ) (p : Position)
    → m.live_ltp p.stock_id ≡ none
    → beat db settings m now p ≡ skipped
unfolding beat
beat-quiet db settings m now p e = rw (beat, e) refl

-- An open row is closed when the live price has reached its stop or its target, and only then:
-- never without a live price. The stop goes first, and no beat raises.
pub beat_closes :
    (db : Lookup) (settings : BrokerSettings) (m : Market) (now : ℕ) (p : Position)
    → is_open p ≡ true
    → (m.live_ltp p.stock_id ≡ none → beat db settings m now p ≡ skipped)
      × ((price : ℕ)
          → m.live_ltp p.stock_id ≡ some price
          → (has_closed (beat db settings m now p) ≡ level_reached price p)
            × (stop_reached p.side price p.current_sl ≡ true
                → closed_reason (beat db settings m now p) ≡ some sl_hit)
            × ¬ (beat db settings m now p ≡ raised))
beat_closes db settings m now p h = (
  beat-quiet db settings m now p,
  λ price ticked. rw (beat-tick db settings m now price p ticked) (
      track_peak-Exits price p _
        (act_closes db settings m now price (track_peak price p) (track_peak-is_open price p ∙ h))),
)

pub some-of-closed :
    (o : Option Closing) {closing : Closing}
    → closed_or_raised o ≡ closed closing
    → o ≡ some closing
some-of-closed none e = ground arith
some-of-closed (some c) e = ground arith

raw_exit_given : (m : Market) (p : Position) (n : ℕ) → 0 < n → raw_exit_price m p (some n) ≡ n
unfolding raw_exit_price
raw_exit_given m p zero h = omega arith
raw_exit_given m p (suc n) h = refl

worse_of :
    (side : Side) (stop price : ℕ)
    → NoBetter (closing_side side) (stop_fill_price side stop price) stop
      × NoBetter (closing_side side) (stop_fill_price side stop price) price
unfolding stop_fill_price
worse_of long stop price = ground arith
worse_of short stop price = ground arith

≤ℤ-trans : (a b c : ℤ) → a ≤ℤ b → b ≤ℤ c → a ≤ℤ c
≤ℤ-trans a b c h k = omega arith

raw_stop :
    (m : Market) (p : Position) (price stop n : ℕ)
    → p.current_sl ≡ some stop
    → stop_fill_price p.side stop price ≡ n
    → 0 < n
    → raw_exit_price m p (stopped_at p.side price p.current_sl) ≡ n
raw_stop m p price stop n set e h = simp (set, e) (raw_exit_given m p n h)

grid_pos : (ticks grid : ℕ) → 0 < ticks → 0 < grid → 0 < ticks * (grid * tick4)
grid_pos ticks grid t g = omega (arith, mul_mono ticks 1 (grid * tick4) (omega arith))

-- A stopped row books no more than the gross result at the worse of its stop and the live price,
-- if that price is positive and on a tick grid of whole ten-thousandths: a gap through the stop is
-- never flattered.
pub act_stops :
    (db : Lookup) (settings : BrokerSettings) (m : Market) (now price stop : ℕ) (p : Position)
    (ticks grid : ℕ) {closing : Closing}
    → is_sl_hit p.side price stop ≡ true
    → p.current_sl ≡ some stop
    → 0 < grid
    → settings.fills.paper_tick_size ≡ grid * tick4
    → stop_fill_price p.side stop price ≡ ticks * (grid * tick4)
    → 0 < ticks
    → act db settings m now price p ≡ closed closing
    → (closing.closed_position.realized_pnl ≤ℤ compute_pnl p.side p.avg_entry_price stop p.quantity)
      × (closing.closed_position.realized_pnl
          ≤ℤ compute_pnl p.side p.avg_entry_price price p.quantity)
unfolding act
act_stops db settings m now price stop p ticks grid hit set g grid_eq e t k =
    let reached : stop_reached p.side price p.current_sl ≡ true = rw set hit in
    let booked = some-of-closed _ (rw (act, reached) at k) in
    let raw = raw_stop m p price stop (ticks * (grid * tick4)) set e (grid_pos ticks grid t g) in
    let pays =
      close_position_pays settings m now (classification_of db p)
        (stopped_at p.side price p.current_sl) sl_hit p ticks grid g grid_eq raw booked in
    let (at_stop, at_market) = worse_of p.side stop price in
    let pnl : ℕ → ℤ = λ (n : ℕ). compute_pnl p.side p.avg_entry_price n p.quantity in
    let against : (n : ℕ)
        → NoBetter (closing_side p.side) (stop_fill_price p.side stop price) n
        → pnl (ticks * (grid * tick4)) ≤ℤ pnl n =
      λ n h. compute_pnl_mono p.side p.avg_entry_price _ n p.quantity (rw e at h) in
    (
      ≤ℤ-trans _ (pnl (ticks * (grid * tick4))) (pnl stop) pays (against stop at_stop),
      ≤ℤ-trans _ (pnl (ticks * (grid * tick4))) (pnl price) pays (against price at_market),
    )
