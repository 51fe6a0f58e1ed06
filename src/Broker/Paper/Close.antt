-- ===== src/Broker/Paper/Close.antt =====
-- What closing a position books.
use ln_trading_app.Prelude.{
  Bool-cases, Option, arith, inl, inr, none, refl, some, true, ℕ, ◌*◌, ◌<◌, ◌≡◌,
}
use ln_trading_app.Broker.Book.{BrokerSettings, Market, Position, Reason, is_open}
use ln_trading_app.Broker.Fill.{FillModel}
use ln_trading_app.Broker.Fill.Adverse.{NoBetter, simulate_fill_pays}
use ln_trading_app.Broker.Paper.{
  Closing, charges_of, close_position, closing_at, exit_fill_of, raw_exit_price,
}
use ln_trading_app.Money.{Classification, Side, closing_side, long, short, tick4}
use ln_trading_app.Prelude.Int.{+ℤ_parts, -ℤ_parts, eq_of_parts, int_laws, pos, ℤ, ◌+ℤ◌, ◌-ℤ◌, ◌≤ℤ◌}
use ln_trading_app.Prelude.Round.{mul_mono_right}
use ln_trading_app.Trading.TrailSl.{compute_pnl}

-- Whatever closes, the row was open, and the closing is the one at the exit fill.
pub close-opened :
    (settings : BrokerSettings) (m : Market) (now : ℕ) (c : Option Classification) (exit : Option ℕ)
    (why : Reason) (p : Position) {closing : Closing}
    → close_position settings m now c exit why p ≡ some closing
    → (is_open p ≡ true)
      × (closing_at settings now c why p (exit_fill_of settings m exit p) ≡ closing)
unfolding close_position
close-opened settings m now c exit why p k = elim (Bool-cases (is_open p)) [
  | inl held ↦ (held, ground arith)
  | inr shut ↦ ground arith
]

-- A position is closed once: closing one that is open always succeeds, what comes out is closed,
-- and closing that again is refused. The closing order is for the whole quantity, on the other
-- side, at the exit price; the size and the entry of the row stay.
pub close_position_once :
    (settings : BrokerSettings) (m : Market) (now : ℕ) (c : Option Classification) (exit : Option ℕ)
    (why : Reason) (p : Position)
    → is_open p ≡ true
    → (closing : Closing) × (close_position settings m now c exit why p ≡ some closing)
      × (closing.closed_position.closed_at ≡ some now)
      × (closing.closed_position.exit_price ≡ some closing.close_order.filled_price)
      × (closing.closed_position.exit_reason ≡ some why)
      × (closing.close_order.filled_qty ≡ p.quantity)
      × (closing.close_order.order_side ≡ closing_side p.side)
      × (closing.closed_position.avg_entry_price ≡ p.avg_entry_price)
      × (close_position settings m now c exit why closing.closed_position ≡ none)
unfolding close_position closing_at
close_position_once settings m now c exit why p h = (
  closing_at settings now c why p (exit_fill_of settings m exit p),
  rw h refl,
  refl,
  refl,
  refl,
  refl,
  refl,
  refl,
  refl,
)

sub-add : (a b : ℤ) → a -ℤ b +ℤ b ≡ a
sub-add a b = eq_of_parts (a -ℤ b +ℤ b) a (omega (arith, -ℤ_parts a b, +ℤ_parts (a -ℤ b) b))

-- The realised result is the gross result at the exit price less the charges, which are booked
-- beside it; nothing is left unrealised.
pub close_position_books :
    (settings : BrokerSettings) (m : Market) (now : ℕ) (c : Option Classification) (exit : Option ℕ)
    (why : Reason) (p : Position) {closing : Closing}
    → close_position settings m now c exit why p ≡ some closing
    → let q = closing.closed_position in
      (charges : ℕ) × (q.charges ≡ some charges)
      × (q.realized_pnl +ℤ pos charges
          ≡ compute_pnl p.side p.avg_entry_price closing.close_order.filled_price p.quantity)
      × (q.unrealized_pnl ≡ pos 0)
unfolding closing_at
close_position_books settings m now c exit why p k =
    let fill : FillModel = exit_fill_of settings m exit p in
    rw (← (close-opened settings m now c exit why p k).1)
      ((charges_of settings c p fill.fill, refl, sub-add _ _, refl))

-- The result of a fill is no better than that of the price it was filled against.
pub compute_pnl_mono :
    (side : Side) (entry a b quantity : ℕ)
    → NoBetter (closing_side side) a b
    → compute_pnl side entry a quantity ≤ℤ compute_pnl side entry b quantity
unfolding compute_pnl
compute_pnl_mono long entry a b quantity h = ground (arith, mul_mono_right quantity a b h)
compute_pnl_mono short entry a b quantity h = ground (arith, mul_mono_right quantity b a h)

le_sub : (a b : ℤ) (n : ℕ) → a ≤ℤ b → a -ℤ pos n ≤ℤ b
le_sub a b n h = grind int_laws

-- Closing never nets more than the raw exit price would: if that is on a tick grid of whole
-- ten-thousandths, the realised
-- result is at most the gross result at that price, on either side, with or without a live book.
pub close_position_pays :
    (settings : BrokerSettings) (m : Market) (now : ℕ) (c : Option Classification) (exit : Option ℕ)
    (why : Reason) (p : Position) (ticks grid : ℕ) {closing : Closing}
    → 0 < grid
    → settings.fills.paper_tick_size ≡ grid * tick4
    → raw_exit_price m p exit ≡ ticks * (grid * tick4)
    → close_position settings m now c exit why p ≡ some closing
    → closing.closed_position.realized_pnl
      ≤ℤ compute_pnl p.side p.avg_entry_price (ticks * (grid * tick4)) p.quantity
unfolding closing_at exit_fill_of
close_position_pays settings m now c exit why p ticks grid h e raw k =
    let pays =
      simulate_fill_pays settings.fills ticks grid (closing_side p.side) (m.live_depth p.stock_id)
        (some p.quantity) h e in
    rw (← (close-opened settings m now c exit why p k).1) (
      rw (← raw) (
        le_sub _ _ _
          (compute_pnl_mono p.side p.avg_entry_price _ _ p.quantity (rw (← raw) at pays))))
