-- ===== src/Broker/Paper.antt =====
-- The paper broker's operations (backend/app/broker/paper_broker.py). One is a transaction: it
-- returns the new rows, or the error and nothing else.
pub mod Close
pub mod Rows
pub mod Place
use ln_trading_app.Prelude.{
  Bool, List, Option, [], false, if◌then◌else◌, keep, ltb, none, some, true, ℕ, ◌&&◌, ◌*◌, ◌+◌,
  ◌==◌, ◌∷◌,
}
use ln_trading_app.Broker.Book.{
  Book, BrokerSettings, Market, Order, Position, Reason, Signal, User, get_current_price, is_open,
  open_for, or_truthy,
}
use ln_trading_app.Broker.Depth.{Depth}
use ln_trading_app.Broker.Fill.{FillModel, FillSettings, Model, flat, simulate_fill, spread}
use ln_trading_app.Broker.Sizing.{Existing, size_for_fill}
use ln_trading_app.Clock.{second}
use ln_trading_app.Money.{
  Classification, OrderSide, Side, closing_side, long, position_side, short, swing, tick4,
}
use ln_trading_app.Prelude.Int.{pos, ◌-ℤ◌}
use ln_trading_app.Prelude.Round.{distance, round_half_even}
use ln_trading_app.Trading.Fees.{product_for_classification, roundtrip_charges}
use ln_trading_app.Trading.TrailSl.{compute_pnl, no_trail}

-- `PaperOrderError`, by its message, and the MultipleResultsFound of `scalar_one_or_none`
pub data PlaceError : Type 0 where
  no_live_price at_risk_budget size_rounds_to_zero multiple_results : PlaceError

pub data Attempt (A : Type 0) : Type 0 where
  err : PlaceError → Attempt A
  ok : A → Attempt A

-- A step that raises ends the call.
infixl 5 ◌>>=◌
abbrev pub ◌>>=◌ : {A B : Type 0} → Attempt A → (A → Attempt B) → Attempt B
err reason >>= next = err reason
ok value >>= next = next value

-- The reference price of an entry.
unfoldable pub base_price_of : Market → User → Signal → Attempt ℕ
unfolding get_current_price
base_price_of m user signal = elim (m.live_ltp signal.signal_stock) [
  | some ltp ↦ ok ltp
  | none ↦
      if user.allow_offmarket_entry
      then elim (or_truthy (get_current_price m signal.signal_stock) (some signal.entry_price)) [
        | some price ↦ ok price
        | none ↦ ok signal.entry_price
      ]
      else err no_live_price
]

-- `scalar_one_or_none`
unfoldable pub one_or_none : List Position → Attempt (Option Position)
one_or_none [] = ok none
one_or_none (p ∷ []) = ok (some p)
one_or_none (p ∷ q ∷ ps) = err multiple_results

abbrev pub existing_of : Option Position → Option Existing
existing_of none = none
existing_of (some p) =
    some (record { existing_qty = p.quantity; existing_entry = p.avg_entry_price })

abbrev pub is_spread : Model → Bool
is_spread spread = true
is_spread flat = false

-- What an order will fill at, and for how much.
pub record Sized : Type 0 where
  pub sized_fill : FillModel
  pub sized_qty : ℕ

-- The refinement pass: price without impact, size, price with the impact of that size, size again.
unfoldable pub price_and_size :
    FillSettings → ℕ → OrderSide → Option Depth → Option ℕ → (ℕ → ℕ) → Sized
price_and_size settings base_price side depth (some quantity) size = record {
  sized_fill = simulate_fill settings base_price side depth (some quantity);
  sized_qty = quantity;
}
price_and_size settings base_price side depth none size =
    let first : FillModel = simulate_fill settings base_price side depth none in
    let qty : ℕ = size first.fill in
    let second : FillModel = simulate_fill settings base_price side depth (some qty) in
    if ltb 0 qty && is_spread first.model
    then record { sized_fill = second; sized_qty = size second.fill }
    else record { sized_fill = first; sized_qty = qty }

-- `chase_r > 0.33`, where the move past the entry is measured in R
unfoldable pub chased : Side → ℕ → ℕ → ℕ → Bool
chased long entry stop_loss fill =
    ltb 0 (distance entry stop_loss)
    && ltb (33 * distance entry stop_loss + 100 * entry) (100 * fill)
chased short entry stop_loss fill =
    ltb 0 (distance entry stop_loss)
    && ltb (33 * distance entry stop_loss + 100 * fill) (100 * entry)

abbrev pub size_error : Option Position → PlaceError
size_error none = size_rounds_to_zero
size_error (some p) = at_risk_budget

unfoldable pub new_order : ℕ → User → Signal → OrderSide → Sized → Order
unfolding chased
new_order now user signal side sized = record {
  order_user = user.id;
  order_signal = some signal.id;
  order_stock = signal.signal_stock;
  order_side = side;
  filled_qty = sized.sized_qty;
  placed_at = now;
  filled_price = sized.sized_fill.fill;
  fill_model = sized.sized_fill;
  reason = none;
  past_chase_ceiling =
      chased (position_side side) signal.entry_price signal.stop_loss sized.sized_fill.fill;
}

unfoldable pub new_position : ℕ → ℕ → User → Signal → OrderSide → Sized → Position
new_position position_id now user signal side sized = record {
  position_id = position_id;
  user_id = user.id;
  stock_id = signal.signal_stock;
  side = position_side side;
  quantity = sized.sized_qty;
  avg_entry_price = sized.sized_fill.fill;
  current_sl = some signal.stop_loss;
  current_tp = some signal.take_profit;
  trail_state = no_trail;
  unrealized_pnl = pos 0;
  realized_pnl = pos 0;
  charges = none;
  exit_price = none;
  exit_reason = none;
  peak_price = none;
  peak_pnl = none;
  opened_at = now;
  closed_at = none;
  signal_id = some signal.id;
}

-- Average in: the weighted average entry, quantized; the levels stay.
unfoldable pub average_in : Sized → Position → Position
average_in sized p = record p {
  avg_entry_price =
      round_half_even (p.avg_entry_price * p.quantity + sized.sized_fill.fill * sized.sized_qty)
        ((p.quantity + sized.sized_qty) * tick4)
      * tick4;
  quantity = p.quantity + sized.sized_qty;
}

-- Every row that a query with this filter finds is changed; there is one at most.
abbrev pub update_where : {A : Type 0} → (A → Bool) → (A → A) → List A → List A
update_where test f [] = []
update_where test f (p ∷ ps) = (if test p then f p else p) ∷ update_where test f ps

unfoldable pub record_entry : Book → ℕ → User → Signal → OrderSide → Option Position → Sized → Book
unfolding new_order
record_entry book now user signal side none sized = record book {
  orders = new_order now user signal side sized ∷ book.orders;
  positions = new_position book.next_id now user signal side sized ∷ book.positions;
  next_id = book.next_id + 1;
}
record_entry book now user signal side (some p) sized = record book {
  orders = new_order now user signal side sized ∷ book.orders;
  positions =
      update_where (open_for user.id signal.signal_stock (position_side side)) (average_in sized)
        book.positions;
}

-- The open rows that an entry would average into.
abbrev pub open_rows : Book → ℕ → ℕ → Side → List Position
open_rows book user stock side = keep (open_for user stock side) book.positions

abbrev pub size_from : User → Signal → Option Position → ℕ → ℕ
size_from user signal existing fill =
    size_for_fill user.capital_inr user.risk_per_trade_pct fill signal.stop_loss
      (existing_of existing)

-- `if qty <= 0`
abbrev pub finish : ℕ → Attempt Book → Attempt Book → Attempt Book
finish qty refused accepted = if qty == 0 then refused else accepted

unfoldable pub place_paper_order :
    BrokerSettings → Market → ℕ → User → Signal → OrderSide → Option ℕ → Book → Attempt Book
unfolding base_price_of one_or_none price_and_size record_entry
place_paper_order settings m now user signal side quantity book = do
  base_price ← base_price_of m user signal
  existing ← one_or_none (open_rows book user.id signal.signal_stock (position_side side))
  let sized =
      price_and_size settings.fills base_price side (m.live_depth signal.signal_stock) quantity
        (size_from user signal existing)
  finish sized.sized_qty (err (size_error existing))
      (ok (record_entry book now user signal side existing sized))

-- Charges of the round trip in money units. Without a signal the class is "swing".
unfoldable pub charges_of : BrokerSettings → Option Classification → Position → ℕ → ℕ
charges_of settings classification p price =
    if settings.paper_costs_enabled
    then roundtrip_charges settings.schedule p.side p.avg_entry_price price p.quantity
        (product_for_classification (elim classification [ none ↦ swing | some c ↦ c ]))
      * 1_000_000
    else 0

-- The raw exit: the caller's, else the current price, else the entry.
unfoldable pub raw_exit_price : Market → Position → Option ℕ → ℕ
unfolding get_current_price
raw_exit_price m p exit_price = elim (or_truthy exit_price (get_current_price m p.stock_id)) [
  | some price ↦ price
  | none ↦ p.avg_entry_price
]

pub record Closing : Type 0 where
  pub close_order : Order
  pub closed_position : Position

-- The closing of a position at a fill: the order, and the row as it is left.
unfoldable pub closing_at :
    BrokerSettings → ℕ → Option Classification → Reason → Position → FillModel → Closing
unfolding charges_of
closing_at settings now classification why p exit_fill =
    let charges : ℕ = charges_of settings classification p exit_fill.fill in
    record {
      close_order = record {
        order_user = p.user_id;
        order_signal = p.signal_id;
        order_stock = p.stock_id;
        order_side = closing_side p.side;
        filled_qty = p.quantity;
        placed_at = now;
        filled_price = exit_fill.fill;
        fill_model = exit_fill;
        reason = some why;
        past_chase_ceiling = false;
      };
      closed_position = record p {
        realized_pnl =
            compute_pnl p.side p.avg_entry_price exit_fill.fill p.quantity -ℤ pos charges;
        charges = some charges;
        unrealized_pnl = pos 0;
        exit_price = some exit_fill.fill;
        exit_reason = some why;
        closed_at = some now;
      };
    }

-- The fill of a closing, against the live book of the moment
unfoldable pub exit_fill_of : BrokerSettings → Market → Option ℕ → Position → FillModel
unfolding raw_exit_price
exit_fill_of settings m exit_price p =
    simulate_fill settings.fills (raw_exit_price m p exit_price) (closing_side p.side)
      (m.live_depth p.stock_id) (some p.quantity)

-- `none` is the ValueError of a position that is closed already. `classification` is that of the
-- position's signal, if it has one.
unfoldable pub close_position :
    BrokerSettings
    → Market
    → ℕ
    → Option Classification
    → Option ℕ
    → Reason
    → Position
    → Option Closing
unfolding closing_at exit_fill_of
close_position settings m now classification exit_price why p =
    if is_open p
    then some (closing_at settings now classification why p (exit_fill_of settings m exit_price p))
    else none

-- The new row, and the price used; the row is left alone if it is closed or has no price.
unfoldable pub update_position_pnl :
    BrokerSettings → Market → Option Classification → Option ℕ → Position → Position × Option ℕ
unfolding charges_of get_current_price
update_position_pnl settings m classification price p =
    let refreshed : ℕ → Position × Option ℕ = λ (mark : ℕ). (
      record p {
        unrealized_pnl =
            compute_pnl p.side p.avg_entry_price mark p.quantity
            -ℤ pos (charges_of settings classification p mark);
      },
      some mark,
    ) in
    if is_open p
    then elim price [
      | some mark ↦ refreshed mark
      | none ↦ elim (get_current_price m p.stock_id) [
        | some mark ↦ refreshed mark
        | none ↦ (p, none)
      ]
    ]
    else (p, none)
