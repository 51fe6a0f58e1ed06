-- ===== src/Broker/Paper/Place.antt =====
-- What a placed order guarantees.
use ln_trading_app.Prelude.{List, Option, arith, none, refl, some, ℕ, ◌*◌, ◌+◌, ◌<◌, ◌∷◌, ◌≡◌, ◌≤◌}
use ln_trading_app.Broker.Book.{Book, BrokerSettings, Market, Order, Position, Signal, User}
use ln_trading_app.Broker.Depth.{Depth}
use ln_trading_app.Broker.Fill.{FillSettings}
use ln_trading_app.Broker.Paper.{
  Attempt, PlaceError, Sized, base_price_of, err, existing_of, finish, new_order, new_position, ok,
  one_or_none, open_rows, place_paper_order, price_and_size, record_entry, size_error, size_from,
  ◌>>=◌,
}
use ln_trading_app.Broker.Sizing.{size_for_fill_budget, used_risk}
use ln_trading_app.Money.{OrderSide, position_side}
use ln_trading_app.Prelude.Round.{distance}

-- A call that went through went through each of its steps.
pub >>=-continued :
    {A B : Type 0} (step : Attempt A) (next : A → Attempt B) {final : B}
    → (step >>= next) ≡ ok final
    → (value : A) × (next value ≡ ok final) × (step ≡ ok value)
>>=-continued (err reason) next went = ground arith
>>=-continued (ok value) next went = (value, went, refl)

finish-accepted :
    (qty : ℕ) (e : PlaceError) (b : Book) {b' : Book}
    → finish qty (err e) (ok b) ≡ ok b'
    → (0 < qty) × (b' ≡ b)
finish-accepted qty e b h = ground arith

-- The parts of a call that went through.
pub record Placed (settings : BrokerSettings) (m : Market) (now : ℕ) (user : User) (signal : Signal)
    (side : OrderSide) (quantity : Option ℕ) (book book' : Book) : Type 0 where
  pub base : ℕ
  pub existing : Option Position
  pub found :
      one_or_none (open_rows book user.id signal.signal_stock (position_side side)) ≡ ok existing
  pub sized : Sized
  pub priced :
      sized
      ≡ price_and_size settings.fills base side
          (m.live_depth signal.signal_stock)
          quantity
          (size_from user signal existing)
  pub some_bought : 0 < sized.sized_qty
  pub recorded : book' ≡ record_entry book now user signal side existing sized

pub place-Placed :
    (settings : BrokerSettings) (m : Market) (now : ℕ) (user : User) (signal : Signal)
    (side : OrderSide) (quantity : Option ℕ) (book : Book) {book' : Book}
    → place_paper_order settings m now user signal side quantity book ≡ ok book'
    → Placed settings m now user signal side quantity book book'
unfolding place_paper_order
place-Placed settings m now user signal side quantity book {book'} h =
    let (base, k, _) = >>=-continued (base_price_of m user signal) _ h in
    let rows : List Position = open_rows book user.id signal.signal_stock (position_side side) in
    let (existing, l, found) = >>=-continued (one_or_none rows) _ k in
    let sized : Sized =
      price_and_size settings.fills base side (m.live_depth signal.signal_stock) quantity
        (size_from user signal existing) in
    let (nonzero, written) = finish-accepted sized.sized_qty (size_error existing) _ l in
    record {
      base = base;
      existing = existing;
      found = found;
      sized = sized;
      priced = refl;
      some_bought = nonzero;
      recorded = written;
    }

-- Sized by the program, the quantity is the size at the very price it fills at.
sized_at_fill :
    (s : FillSettings) (base : ℕ) (side : OrderSide) (depth : Option Depth) (size : ℕ → ℕ)
    → let r = price_and_size s base side depth none size in r.sized_qty ≡ size r.sized_fill.fill
unfolding price_and_size
sized_at_fill s base side depth size = ground arith

pub orders-record_entry :
    (book : Book) (now : ℕ) (user : User) (signal : Signal) (side : OrderSide)
    (existing : Option Position) (sized : Sized)
    → (record_entry book now user signal side existing sized).orders
      ≡ new_order now user signal side sized ∷ book.orders
unfolding record_entry
orders-record_entry book now user signal side none sized = refl
orders-record_entry book now user signal side (some p) sized = refl

-- The risk of a row by the stop that it keeps
abbrev pub IsWithin : ℕ → Position → Type 0
IsWithin budget row =
    (stop : ℕ) × (row.current_sl ≡ some stop)
    × (row.quantity * (10_000 * distance row.avg_entry_price stop) ≤ budget)

first_entry-IsWithin :
    (book : Book) (now : ℕ) (user : User) (signal : Signal) (side : OrderSide)
    (existing : Option Position) (sized : Sized) (budget : ℕ)
    → sized.sized_qty * (10_000 * distance sized.sized_fill.fill signal.stop_loss)
        + used_risk (existing_of existing) signal.stop_loss
      ≤ budget
    → existing ≡ none
    → (row : Position) × ((record_entry book now user signal side existing sized).positions
        ≡ row ∷ book.positions)
      × IsWithin budget row
unfolding record_entry new_position
first_entry-IsWithin book now user signal side none sized budget within e = (
  new_position book.next_id now user signal side sized,
  refl,
  (signal.stop_loss, refl, omega arith),
)
first_entry-IsWithin book now user signal side (some p) sized budget within e = cc

-- An order that the program sized buys something, and at the price it filled at its risk and that of
-- the quantity already open on the name are together within the user's per-trade risk, both measured
-- to the stop of the new signal. A first entry opens a row with that stop, so the row's own risk is
-- within it; a repeat entry keeps the stop of the first, and of the risk to that stop nothing is said.
pub place_paper_order_budget :
    (settings : BrokerSettings) (m : Market) (now : ℕ) (user : User) (signal : Signal)
    (side : OrderSide) (book : Book) {book' : Book}
    → place_paper_order settings m now user signal side none book ≡ ok book'
    → (o : Order) × (existing : Option Position) × (book'.orders ≡ o ∷ book.orders)
      × (one_or_none (open_rows book user.id signal.signal_stock (position_side side))
          ≡ ok existing)
      × (0 < o.filled_qty)
      × (o.filled_qty * (10_000 * distance o.filled_price signal.stop_loss)
            + used_risk (existing_of existing) signal.stop_loss
          ≤ user.capital_inr * user.risk_per_trade_pct)
      × (existing ≡ none
          → (row : Position) × (book'.positions ≡ row ∷ book.positions)
            × IsWithin (user.capital_inr * user.risk_per_trade_pct) row)
unfolding record_entry
place_paper_order_budget settings m now user signal side book h =
    let p = place-Placed settings m now user signal side none book h in
    let depth : Option Depth = m.live_depth signal.signal_stock in
    let (within, _) =
      size_for_fill_budget user.capital_inr user.risk_per_trade_pct p.sized.sized_fill.fill
        signal.stop_loss (existing_of p.existing) in
    let at_fill : p.sized.sized_qty ≡ size_from user signal p.existing p.sized.sized_fill.fill =
      rw p.priced
        (sized_at_fill settings.fills p.base side depth (size_from user signal p.existing)) in
    let held : p.sized.sized_qty * (10_000 * distance p.sized.sized_fill.fill signal.stop_loss)
          + used_risk (existing_of p.existing) signal.stop_loss
        ≤ user.capital_inr * user.risk_per_trade_pct =
      rw at_fill (within (rw at_fill at (p.some_bought))) in
    (
      new_order now user signal side p.sized,
      p.existing,
      rw (p.recorded) (orders-record_entry book now user signal side p.existing p.sized),
      p.found,
      p.some_bought,
      held,
      λ e. rw (p.recorded) (
          first_entry-IsWithin book now user signal side p.existing p.sized
            (user.capital_inr * user.risk_per_trade_pct) held e),
    )
