-- ===== src/Api/Positions.antt =====
-- Closing a position by hand and moving its stop by hand (backend/app/api/v1/trading.py).
pub mod Effects
use ln_trading_app.Prelude.{
  Bool, List, Option, [], if◌then◌else◌, leb, none, not, some, ℕ, ◌==◌, ◌∷◌,
}
use ln_trading_app.Api.{
  Response, failure, position_already_closed, position_not_found, raise_if, stop_beyond_entry,
  success, uncaught, ◌>>=◌,
}
use ln_trading_app.Broker.Book.{Book, BrokerSettings, Market, Position, is_open, manual}
use ln_trading_app.Broker.Monitor.{journal_after}
use ln_trading_app.Broker.Paper.{Closing, close_position}
use ln_trading_app.Money.{Classification, Side, long, short}

-- `db.get(Position, position_id)`
abbrev pub get_position : ℕ → List Position → Option Position
get_position i [] = none
get_position i (p ∷ ps) =
    let rest = get_position i ps in if p.position_id == i then some p else rest

-- The row with this key, changed in place.
abbrev pub change_position : ℕ → (Position → Position) → List Position → List Position
change_position i f [] = []
change_position i f (p ∷ ps) =
    let rest = change_position i f ps in if p.position_id == i then f p ∷ ps else p ∷ rest

-- `not pos or pos.user_id != user.id`
abbrev pub owned_by : ℕ → Option Position → Response Position
owned_by user none = failure position_not_found
owned_by user (some p) = if p.user_id == user then success p else failure position_not_found

-- The guards of both routes
unfoldable pub own_open_position : ℕ → ℕ → Book → Response Position
own_open_position user position_id book = do
  held ← owned_by user (get_position position_id book.positions)
  live ← raise_if position_already_closed (not (is_open held))
  success held

-- The ValueError of a second closing is not caught.
abbrev pub closing_or_raise : Option Closing → Response Closing
closing_or_raise none = failure uncaught
closing_or_raise (some closing) = success closing

-- The rows after a closing by hand: the order, the row and the journal entry.
unfoldable pub book_closing : ℕ → Closing → Book → Book
unfolding journal_after
book_closing position_id closing book = record book {
  positions = change_position position_id (λ p. closing.closed_position) book.positions;
  orders = closing.close_order ∷ book.orders;
  journal = journal_after book.journal closing;
}

-- `class_of` gives the classification of a signal.
unfoldable pub manual_close_position :
    BrokerSettings
    → Market
    → ℕ
    → (Position → Option Classification)
    → ℕ
    → ℕ
    → Option ℕ
    → Book
    → Response Book
unfolding own_open_position book_closing close_position
manual_close_position settings m now class_of user position_id exit_price book = do
  held ← own_open_position user position_id book
  closing ← closing_or_raise (close_position settings m now (class_of held) exit_price manual held)
  success (book_closing position_id closing book)

-- For a long the new stop must be below the entry, for a short above it.
abbrev pub beyond_entry : Side → ℕ → ℕ → Bool
beyond_entry long new_sl entry = leb entry new_sl
beyond_entry short new_sl entry = leb new_sl entry

abbrev pub with_stop : ℕ → Position → Position
with_stop new_sl p = record p { current_sl = some new_sl }

unfoldable pub update_stop_loss : ℕ → ℕ → ℕ → Book → Response Book
unfolding own_open_position
update_stop_loss user position_id new_sl book = do
  held ← own_open_position user position_id book
  checked ← raise_if stop_beyond_entry (beyond_entry held.side new_sl held.avg_entry_price)
  success
      (record book { positions = change_position position_id (with_stop new_sl) book.positions })
