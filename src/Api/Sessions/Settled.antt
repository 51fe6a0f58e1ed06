-- ===== src/Api/Sessions/Settled.antt =====
-- A closed row of the positions table under later requests and scans, one after another.
use mathlib.Core.Path.{subst}
use ln_trading_app.Prelude.{
  Bool, Bool-cases, List, Option, [], ap, arith, false, inl, inr, map, none, refl, some, sym, true,
  ℕ, ◌∙◌, ◌∷◌, ◌≡◌, ◌≢◌, ◌≤◌,
}
use ln_trading_app.Api.{failure, position_already_closed, success}
use ln_trading_app.Api.Orders.Placing.{place_order-GoesThrough}
use ln_trading_app.Api.Positions.{
  book_closing, change_position, get_position, manual_close_position, with_stop,
}
use ln_trading_app.Api.Positions.Effects.{
  close_position-closed, get_position-change, get_position-change_other, get_position-id,
  manual_close-parts, own_open_position_closed, refused_when_closed, update_stop_loss_moves,
  update_stop_loss_parts,
}
use ln_trading_app.Api.Sessions.{
  Reached, Request, closed-open_for, closed_by_hand, monitor_ran, nothing_yet, order_placed,
  stop_moved, then_next,
}
use ln_trading_app.Broker.Book.{
  Book, BrokerSettings, Market, Position, Signal, User, is_open, manual, open_for,
}
use ln_trading_app.Broker.Monitor.{Lookup, scan_positions}
use ln_trading_app.Broker.Monitor.History.{next_row, next_row-shut, scan-rows}
use ln_trading_app.Broker.Monitor.Scan.{Moment, scan_row-id}
use ln_trading_app.Broker.Paper.{
  Closing, Sized, average_in, close_position, new_position, record_entry, update_where,
}
use ln_trading_app.Broker.Paper.Close.{close-opened}
use ln_trading_app.Broker.Paper.Place.{place-Placed}
use ln_trading_app.Money.{Classification, OrderSide, position_side}
use ln_trading_app.Trading.MarketHours.{is_market_session}
use ln_trading_app.Trading.TrailSl.{moved}

-- The next id of the table is above the ids of its rows.
abbrev pub FreshIds : Book → Type 0
FreshIds book = (j : ℕ) → book.next_id ≤ j → get_position j book.positions ≡ none

get_position-update_where :
    (i : ℕ) (test : Position → Bool) (f : Position → Position)
    → ((p : Position) → (f p).position_id ≡ p.position_id)
    → (ps : List Position)
    → (get_position i ps ≡ none → get_position i (update_where test f ps) ≡ none)
      × ((p : Position)
          → get_position i ps ≡ some p
          → test p ≡ false
          → get_position i (update_where test f ps) ≡ some p)
get_position-update_where i test f same [] = (λ h. refl, λ p h k. cc)
get_position-update_where i test f same (q ∷ ps) =
    let (gone, kept) = get_position-update_where i test f same ps in
    let id = same q in (λ h. ground arith, λ p h k. let rest = kept p in ground arith)

get_position-map :
    (i : ℕ) (f : Position → Position)
    → ((p : Position) → (f p).position_id ≡ p.position_id)
    → (ps : List Position)
    → (get_position i ps ≡ none → get_position i (map f ps) ≡ none)
      × ((p : Position) → get_position i ps ≡ some p → get_position i (map f ps) ≡ some (f p))
get_position-map i f same [] = (λ h. refl, λ p h. cc)
get_position-map i f same (q ∷ ps) =
    let (gone, kept) = get_position-map i f same ps in
    let id = same q in (λ h. ground arith, λ p h. let rest = kept p in ground arith)

get_position-gone :
    (j i : ℕ) (f : Position → Position)
    → ((p : Position) → p.position_id ≡ i → (f p).position_id ≡ i)
    → (ps : List Position) → get_position j ps ≡ none
    → get_position j (change_position i f ps) ≡ none
get_position-gone j i f same [] h = refl
get_position-gone j i f same (q ∷ ps) h =
    let id = same q in let rest = get_position-gone j i f same ps in ground arith

-- What a request leaves of the closed rows
abbrev pub Settles : Book → Book → Type 0
Settles before next_book =
    FreshIds next_book
    × ((i : ℕ) (p : Position)
        → get_position i before.positions ≡ some p
        → is_open p ≡ false
        → get_position i next_book.positions ≡ some p)

record_entry-Settles :
    (book : Book) (now : ℕ) (user : User) (signal : Signal) (o : OrderSide)
    (existing : Option Position) (sized : Sized)
    → FreshIds book
    → Settles book (record_entry book now user signal o existing sized)
unfolding record_entry new_position average_in
record_entry-Settles book now user signal o none sized fresh = (
  λ j h. let absent = fresh j in ground arith,
  λ i p h shut. let absent = fresh i in ground arith,
)
record_entry-Settles book now user signal o (some q) sized fresh = (
  λ j h.
      (get_position-update_where j (open_for user.id signal.signal_stock (position_side o))
          (average_in sized) (λ p. refl) book.positions).0
        (fresh j h),
  λ i p h shut.
      (get_position-update_where i (open_for user.id signal.signal_stock (position_side o))
          (average_in sized) (λ p. refl) book.positions).1
        p h (closed-open_for user.id signal.signal_stock (position_side o) p shut),
)

next_row-id :
    (db : Lookup) (settings : BrokerSettings) (w : Moment) (p : Position)
    → (next_row db settings w p).position_id ≡ p.position_id
next_row-id db settings w p = elim (Bool-cases (is_market_session w.at)) [
  | inl session ↦ rw session (scan_row-id db settings w.market w.at p)
  | inr off ↦ rw off refl
]

scan_positions-next_id :
    (db : Lookup) (settings : BrokerSettings) (m : Market) (now : ℕ) (book : Book)
    → (scan_positions db settings m now book).0.next_id ≡ book.next_id
unfolding scan_positions
scan_positions-next_id db settings m now book = elim (Bool-cases (is_market_session now)) [
  | inl session ↦ simp session refl
  | inr off ↦ simp off refl
]

scan-Settles :
    (db : Lookup) (settings : BrokerSettings) (w : Moment) (book : Book)
    → FreshIds book
    → Settles book (scan_positions db settings w.market w.at book).0
scan-Settles db settings w book fresh =
    let rows = scan-rows db settings w book in
    let id = scan_positions-next_id db settings w.market w.at book in
    let f : Position → Position = next_row db settings w in
    (
      λ j h. rw rows (
          (get_position-map j f (next_row-id db settings w) book.positions).0
            (fresh j (rw id at h))),
      λ i p h shut. rw rows (
          (get_position-map i f (next_row-id db settings w) book.positions).1 p h
          ∙ ap some (next_row-shut db settings w p shut)),
    )

closing-Settles :
    (book : Book) (i : ℕ) (q : Position) (closing : Closing)
    → get_position i book.positions ≡ some q
    → is_open q ≡ true
    → closing.closed_position.position_id ≡ i
    → FreshIds book
    → Settles book (book_closing i closing book)
unfolding book_closing
closing-Settles book i q closing row live id fresh = (
  λ j h.
      get_position-gone j i (λ r. closing.closed_position) (λ r e. id) book.positions (fresh j h),
  λ j p h shut.
      get_position-change_other i j (λ r. closing.closed_position) book.positions
        (λ r e. other_row j i p q h shut row live) (λ r e. id) (other_row j i p q h shut row live)
      ∙ h,
)
  where
    other_row :
        (j i : ℕ) (p q : Position)
        → get_position j book.positions ≡ some p
        → is_open p ≡ false
        → get_position i book.positions ≡ some q
        → is_open q ≡ true
        → j ≢ i
    other_row j i p q h shut row live e = ground arith

-- Whatever the request, a row that was closed before it is as it was.
Request-Settles :
    (before next_book : Book)
    → Request before next_book
    → FreshIds before
    → Settles before next_book
Request-Settles before next_book (order_placed w account req answer went written) fresh =
    let (safe, (row, (found, (live, (v, (through, (filled, stamped))))))) =
      place_order-GoesThrough w account req before answer went in
    let p =
      place-Placed w.broker w.market w.now account.user row.levels req.side req.quantity before
        filled in
    subst (Settles before) (sym p.recorded ∙ written)
      (record_entry-Settles before w.now account.user row.levels req.side p.existing p.sized fresh)
Request-Settles before next_book (closed_by_hand settings m now class_of user i price went) fresh =
    let (p, (row, (mine, (closing, (made, done))))) =
      manual_close-parts settings m now class_of user i price before went in
    let (shut, (same_id, same_user)) =
      close_position-closed settings m now (class_of p) price p made in
    subst (Settles before) (sym done) (
      closing-Settles before i p closing row
        (close-opened settings m now (class_of p) price manual p made).0
        (same_id ∙ get_position-id i before.positions row) fresh)
Request-Settles before next_book (stop_moved user i new_sl went) fresh =
    let (q, rest) = update_stop_loss_parts user i new_sl before went in
    let (p, (row, (mine, (live, (losing, (moved, (others, same))))))) =
      update_stop_loss_moves user i new_sl before next_book went in
    (
      subst FreshIds (sym rest)
          (λ j h. get_position-gone j i (with_stop new_sl) (λ r e. e) before.positions (fresh j h)),
      λ j r h shut. others j (λ e. ground arith) ∙ h,
    )
Request-Settles before next_book (monitor_ran db settings w written) fresh =
    subst (Settles before) written (scan-Settles db settings w before fresh)

Reached-FreshIds : (book : Book) → Reached book → FreshIds book
Reached-FreshIds book (nothing_yet b start) = λ j h. rw start refl
Reached-FreshIds book (then_next {before = b} earlier request) =
    (Request-Settles b book request (Reached-FreshIds b earlier)).0

-- What later transactions lead to
pub data Later : Book → Book → Type 0 where
  unchanged : (book : Book) → Later book book
  and_then : {b0 b1 b2 : Book} → Later b0 b1 → Request b1 b2 → Later b0 b2

Later-Settles :
    (book last_book : Book) → Later book last_book → FreshIds book → Settles book last_book
Later-Settles book last_book (unchanged b) fresh = (fresh, λ i p h shut. h)
Later-Settles book last_book (and_then {b1 = b} earlier request) fresh =
    let (fresh_between, kept) = Later-Settles book b earlier fresh in
    let (fresh_last, kept_last) = Request-Settles b last_book request fresh_between in
    (fresh_last, λ i p h shut. kept_last i p (kept i p h shut) shut)

-- A closing by hand, in a book that transactions lead to one after another, writes the broker's
-- closing of the user's position: its order, and its row in place of the open one. Whatever
-- transactions follow it, one after another, orders, closings, moved stops and scans of the monitor,
-- the row stays as it was closed, and a request of the user to close it is refused as closed already.
pub manual_close_position_once :
    (settings : BrokerSettings) (m : Market) (now : ℕ) (class_of : Position → Option Classification)
    (user i : ℕ) (exit_price : Option ℕ) (book book' : Book)
    → Reached book
    → manual_close_position settings m now class_of user i exit_price book ≡ success book'
    → (p : Position) × ((closing : Closing) × ((get_position i book.positions ≡ some p)
          × ((close_position settings m now (class_of p) exit_price manual p ≡ some closing)
              × ((book'.orders ≡ closing.close_order ∷ book.orders)
                  × ((get_position i book'.positions ≡ some closing.closed_position)
                      × ((last_book : Book)
                          → Later book' last_book
                          → (get_position i last_book.positions ≡ some closing.closed_position)
                            × ((settings' : BrokerSettings) (m' : Market) (at : ℕ)
                                  (class_of' : Position → Option Classification) (price : Option ℕ)
                                → manual_close_position settings' m' at class_of' user i price
                                    last_book
                                  ≡ failure position_already_closed)))))))
unfolding book_closing
manual_close_position_once settings m now class_of user i exit_price book book' reached h =
    let (p, (row, (mine, (closing, (made, done))))) =
      manual_close-parts settings m now class_of user i exit_price book h in
    let (shut, (same_id, same_user)) =
      close_position-closed settings m now (class_of p) exit_price p made in
    let found : get_position i book'.positions ≡ some closing.closed_position = rw done (
      get_position-change i (λ q. closing.closed_position) book.positions row
        (same_id ∙ get_position-id i book.positions row)) in
    let fresh =
      (Request-Settles book book' (closed_by_hand settings m now class_of user i exit_price h)
        (Reached-FreshIds book reached)).0 in
    (
      p,
      (
        closing,
        (
          row,
          (
            made,
            (
              ap (λ (b : Book). b.orders) done,
              (
                found,
                λ last_book later.
                    let still =
                      (Later-Settles book' last_book later fresh).1 i closing.closed_position found
                        shut in
                    (
                      still,
                      λ settings' m' at class_of' price.
                          refused_when_closed settings' m' at class_of' user i price last_book (
                            own_open_position_closed user i last_book still (same_user ∙ mine)
                              shut),
                    ),
              ),
            ),
          ),
        ),
      ),
    )
