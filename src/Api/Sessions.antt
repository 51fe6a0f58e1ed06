-- ===== src/Api/Sessions.antt =====
-- Requests of the API (backend/app/api/v1/trading.py) and scans of the monitor in any order, one after
-- another: each step is a whole transaction, and none overlaps another.
pub mod Settled
use ln_trading_app.Prelude.{
  Bool, List, Option, [], arith, false, keep, length, sym, true, ℕ, ◌∙◌, ◌∷◌, ◌≡◌, ◌≢◌, ◌≤◌,
}
use ln_trading_app.Api.{success}
use ln_trading_app.Api.Orders.{Account, Around, PlaceOrderRequest, PlacedOrder, place_order}
use ln_trading_app.Api.Orders.Placing.{place_order-GoesThrough}
use ln_trading_app.Api.Positions.{
  book_closing, change_position, manual_close_position, update_stop_loss, with_stop,
}
use ln_trading_app.Api.Positions.Effects.{
  close_position-closed, manual_close-parts, update_stop_loss_parts,
}
use ln_trading_app.Broker.Book.{Book, BrokerSettings, Market, Position, is_open, open_for}
use ln_trading_app.Broker.Monitor.{Lookup, scan_positions}
use ln_trading_app.Broker.Monitor.Scan.{Moment}
use ln_trading_app.Broker.Paper.Rows.{OneOpen, place_paper_order-OneOpen}
use ln_trading_app.Broker.Sessions.{Step-OneOpen, scanned}
use ln_trading_app.Money.{Classification, Side}

-- One committed transaction
pub data Request : Book → Book → Type 0 where
  order_placed :
      (w : Around) (account : Account) (req : PlaceOrderRequest) (answer : PlacedOrder)
      {before after_it : Book}
      → place_order w account req before ≡ success answer
      → answer.placed_book ≡ after_it
      → Request before after_it
  closed_by_hand :
      (settings : BrokerSettings) (m : Market) (now : ℕ)
      (class_of : Position → Option Classification) (user i : ℕ) (exit_price : Option ℕ)
      {before after_it : Book}
      → manual_close_position settings m now class_of user i exit_price before ≡ success after_it
      → Request before after_it
  stop_moved :
      (user i new_sl : ℕ) {before after_it : Book}
      → update_stop_loss user i new_sl before ≡ success after_it
      → Request before after_it
  monitor_ran :
      (db : Lookup) (settings : BrokerSettings) (w : Moment) {before after_it : Book}
      → (scan_positions db settings w.market w.at before).0 ≡ after_it
      → Request before after_it

-- The books that transactions lead to, from one without positions
pub data Reached : Book → Type 0 where
  nothing_yet : (book : Book) → book.positions ≡ [] → Reached book
  then_next : {before after_it : Book} → Reached before → Request before after_it → Reached after_it

keep-change_fewer :
    (test : Position → Bool) (i : ℕ) (f : Position → Position)
    → ((p : Position) → test (f p) ≡ true → test p ≡ true)
    → (ps : List Position) → length (keep test (change_position i f ps)) ≤ length (keep test ps)
keep-change_fewer test i f back [] = omega arith
keep-change_fewer test i f back (p ∷ ps) =
    let rest = keep-change_fewer test i f back ps in let same = back p in ground arith

true_not_false : true ≢ false
true_not_false h = cc

pub closed-open_for :
    (u stock : ℕ) (side : Side) (p : Position) → is_open p ≡ false → open_for u stock side p ≡ false
closed-open_for u stock side p shut = ground arith

-- A request keeps at most one open row for each name.
Request-OneOpen :
    (before after_it : Book) → Request before after_it → OneOpen before → OneOpen after_it
unfolding update_stop_loss book_closing
Request-OneOpen before after_it (order_placed w account req answer went written) inv =
    let (safe, (row, (found, (live, (v, (through, (filled, stamped))))))) =
      place_order-GoesThrough w account req before answer went in
    rw (← written) (
      place_paper_order-OneOpen w.broker w.market w.now account.user row.levels req.side
        req.quantity before inv filled)
Request-OneOpen before after_it (closed_by_hand settings m now class_of user i price went) inv =
    λ u stock side.
      let (p, (row, (mine, (closing, (made, done))))) =
        manual_close-parts settings m now class_of user i price before went in
      let (shut, ids) = close_position-closed settings m now (class_of p) price p made in
      let gone = closed-open_for u stock side closing.closed_position shut in
      let fewer =
        keep-change_fewer (open_for u stock side) i (λ q. closing.closed_position)
          (λ q e. absurd (true_not_false (sym e ∙ gone))) before.positions in
      rw done (omega (arith, fewer, inv u stock side))
Request-OneOpen before after_it (stop_moved user i new_sl went) inv = λ u stock side.
    let (p, rest) = update_stop_loss_parts user i new_sl before went in
    rw rest (
      omega (
        arith,
        keep-change_fewer (open_for u stock side) i (with_stop new_sl) (λ q e. e) before.positions,
        inv u stock side,
      ))
Request-OneOpen before after_it (monitor_ran db settings w written) inv =
    Step-OneOpen settings before after_it (scanned db w written) inv

-- If requests and scans run one after another, each a whole transaction, at most one row is open for
-- each user, stock and side, whatever orders, closings and stops the users send and whenever the
-- monitor runs. Of transactions that overlap nothing is said.
pub Reached-OneOpen : (book : Book) → Reached book → OneOpen book
Reached-OneOpen book (nothing_yet b start) = λ u stock side. rw start (omega arith)
Reached-OneOpen book (then_next {before = b} {after_it = b'} earlier request) =
    Request-OneOpen b b' request (Reached-OneOpen b earlier)
