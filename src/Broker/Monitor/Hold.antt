-- ===== src/Broker/Monitor/Hold.antt =====
-- What one beat does to an open position that it does not close.
use ln_trading_app.Prelude.{
  Bool-cases, Option, Option-cases, ap, arith, inl, inr, none, refl, some, ℕ, ◌≡◌,
}
use ln_trading_app.Broker.Book.{BrokerSettings, Market, Position, Signal, is_open}
use ln_trading_app.Broker.Monitor.{
  Lookup, act, advance_stop, beat, classification_of, closed_or_raised, govern, governed, is_better,
  profit_lock, row_after, signal_of, skipped, stop_reached, target_reached, track_peak, updated,
}
use ln_trading_app.Broker.Paper.{Closing, update_position_pnl}
use ln_trading_app.Money.{Classification, Side, long, short}
use ln_trading_app.Trading.PositionHealth.{worse}
use ln_trading_app.Trading.ProfitLock.{AbsoluteLadderParams, absolute_ladder_stop}
use ln_trading_app.Trading.ProfitLock.Floors.{NoLooser-refl}
use ln_trading_app.Trading.TrailSl.{NoLooser, TrailResult, TrailState, advance_trail, moved}
use ln_trading_app.Trading.TrailSl.Ladder.{advance_trail-NoLooser}

-- A stop that is set stays set and never loosens; none appears by itself.
abbrev pub StopKept : Side → Option ℕ → Option ℕ → Type 0
StopKept side none none = Unit
StopKept side none (some b) = ⊥
StopKept side (some a) none = ⊥
StopKept side (some a) (some b) = NoLooser side b a

StopKept-refl : (side : Side) (stop : Option ℕ) → StopKept side stop stop
StopKept-refl side none = tt
StopKept-refl side (some a) = NoLooser-refl side a

-- `q` is what a holding that stays open may become: its stop no looser, its terms the same.
pub record Held (p q : Position) : Type 0 where
  pub same_id : q.position_id ≡ p.position_id
  pub same_owner : (q.user_id ≡ p.user_id) × (q.stock_id ≡ p.stock_id) × (q.side ≡ p.side)
  pub same_terms :
      (q.quantity ≡ p.quantity)
      × (q.avg_entry_price ≡ p.avg_entry_price)
      × (q.current_tp ≡ p.current_tp)
  pub same_books : (q.closed_at ≡ p.closed_at) × (q.realized_pnl ≡ p.realized_pnl)
  pub stop_kept : StopKept p.side p.current_sl q.current_sl

pub Held-refl : (p : Position) → Held p p
Held-refl p = record {
  same_id = refl;
  same_owner = (refl, refl, refl);
  same_terms = (refl, refl, refl);
  same_books = (refl, refl);
  stop_kept = StopKept-refl p.side p.current_sl;
}

ladder-NoLooser :
    (side : Side) (entry original_sl peak quantity : ℕ) (atr : Option ℕ)
    (params : AbsoluteLadderParams) (current : ℕ)
    → NoLooser side
        (absolute_ladder_stop side entry original_sl peak quantity atr params current)
        current
unfolding absolute_ladder_stop
ladder-NoLooser long entry original_sl peak quantity atr params current = ground arith
ladder-NoLooser short entry original_sl peak quantity atr params current = ground arith

-- A row with the stop moved in its favour
with_stop :
    (p : Position) (stop moved : ℕ) (state : TrailState)
    → p.current_sl ≡ some stop
    → NoLooser p.side moved stop
    → Held p (record p { current_sl = some moved; trail_state = state })
with_stop p stop moved state e h = record {
  same_id = refl;
  same_owner = (refl, refl, refl);
  same_terms = (refl, refl, refl);
  same_books = (refl, refl);
  stop_kept = rw e h;
}

govern-Held :
    (db : Lookup) (price : ℕ) (signal : Signal) (stop : ℕ) (p : Position)
    → p.current_sl ≡ some stop
    → Held p (govern db price signal stop p)
unfolding govern
govern-Held db price signal stop p e = elim (Bool-cases (profit_lock db p)) [
  | inl locked ↦
      rw locked (with_stop p stop _ p.trail_state e (ladder-NoLooser p.side _ _ _ _ _ _ stop))
  | inr plain ↦ rw plain (
      let trail : TrailResult =
        advance_trail p.side p.avg_entry_price signal.stop_loss stop price p.trail_state in
      elim (Bool-cases trail.advanced) [
        | inl moves ↦
            rw moves
              (with_stop p stop _ _ e (advance_trail-NoLooser p.side _ _ stop price p.trail_state))
        | inr stays ↦ rw stays (Held-refl p)
      ])
]

governed-Held :
    (db : Lookup) (price : ℕ) (p : Position) (stop : Option ℕ) (signal : Option Signal)
    → p.current_sl ≡ stop
    → Held p (governed db price p stop signal)
unfolding governed
governed-Held db price p (some stop) (some signal) e = govern-Held db price signal stop p e
governed-Held db price p (some stop) none e = Held-refl p
governed-Held db price p none signal e = Held-refl p

advance_stop-Held : (db : Lookup) (price : ℕ) (p : Position) → Held p (advance_stop db price p)
unfolding advance_stop
advance_stop-Held db price p = governed-Held db price p p.current_sl (signal_of db p) refl

-- Marking a row to a price changes its unrealised result alone.
marked-Held :
    (settings : BrokerSettings) (m : Market) (c : Option Classification) (price : ℕ)
    (p q : Position)
    → Held p q
    → Held p (update_position_pnl settings m c (some price) q).0
unfolding update_position_pnl
marked-Held settings m c price p q h = elim (Bool-cases (is_open q)) [
  | inl held ↦ simp held (record {
    same_id = h.same_id;
    same_owner = h.same_owner;
    same_terms = h.same_terms;
    same_books = h.same_books;
    stop_kept = h.stop_kept;
  })
  | inr shut ↦ simp shut h
]

updated-of : {A : Type 0} (o : Option Closing) {q : Position} → closed_or_raised o ≡ updated q → A
updated-of none e = ground arith
updated-of (some closing) e = ground arith

absurd_beat : {A : Type 0} {q : Position} → skipped ≡ updated q → A
absurd_beat e = ground arith

-- A beat on a row whose peak is up to date leaves it open only as a holding with its price marked.
act-Held :
    (db : Lookup) (settings : BrokerSettings) (m : Market) (now price : ℕ) (p : Position)
    {q : Position}
    → act db settings m now price p ≡ updated q
    → Held p q
unfolding act
act-Held db settings m now price p e = elim (Bool-cases (stop_reached p.side price p.current_sl)) [
  | inl stop ↦ updated-of _ (rw stop at e)
  | inr safe ↦ elim (Bool-cases (target_reached p.side price p.current_tp)) [
    | inl target ↦ updated-of _ (rw target at (rw safe at e))
    | inr between ↦ rw (ap (row_after p) (rw between at (rw safe at e))) at (
        marked-Held settings m (classification_of db p) price p (advance_stop db price p)
          (advance_stop-Held db price p))
  ]
]

-- Tracking the peak changes nothing that a holding keeps.
track_peak-Held : (price : ℕ) (p q : Position) → Held (track_peak price p) q → Held p q
unfolding track_peak
track_peak-Held price p q h = elim (Bool-cases (is_better p.side price p.peak_price)) [
  | inl better ↦
      let k = simp better at h in
      record {
        same_id = k.same_id;
        same_owner = k.same_owner;
        same_terms = k.same_terms;
        same_books = k.same_books;
        stop_kept = k.stop_kept;
      }
  | inr worse ↦ simp worse at h
]

-- A row that a beat leaves open keeps its owner, its side, its size, its entry and its target, and
-- its stop only ever moves in the position's favour, whichever governor runs.
pub beat-Held :
    (db : Lookup) (settings : BrokerSettings) (m : Market) (now : ℕ) (p : Position) {q : Position}
    → beat db settings m now p ≡ updated q
    → Held p q
unfolding beat
beat-Held db settings m now p {q} e = elim (Option-cases (m.live_ltp p.stock_id)) [
  | inl quiet ↦ absurd_beat (rw (beat, quiet) at e)
  | inr (price, ticked) ↦
      track_peak-Held price p q
        (act-Held db settings m now price (track_peak price p) (rw (beat, ticked) at e))
]
