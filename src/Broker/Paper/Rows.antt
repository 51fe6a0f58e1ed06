-- ===== src/Broker/Paper/Rows.antt =====
-- What a placed order does to the rows of the positions table.
use ln_trading_app.Prelude.{
  Bool, Bool-cases, List, Option, [], ap, arith, false, inl, inr, keep, length, none, refl, some,
  true, ℕ, ◌&&◌, ◌*◌, ◌+◌, ◌==◌, ◌∙◌, ◌∷◌, ◌≡◌, ◌≤◌,
}
use ln_trading_app.Broker.Book.{
  Book, BrokerSettings, Market, Order, Position, Signal, User, open_for, same_side,
}
use ln_trading_app.Broker.Paper.{
  Sized, average_in, new_order, new_position, ok, one_or_none, open_rows, place_paper_order,
  record_entry, update_where,
}
use ln_trading_app.Broker.Paper.Place.{orders-record_entry, place-Placed}
use ln_trading_app.Money.{OrderSide, Side, buy, long, position_side, sell, short}

-- `scalar_one_or_none` finds no two rows.
abbrev pub OneOpen : Book → Type 0
OneOpen book = (user stock : ℕ) (side : Side) → length (open_rows book user stock side) ≤ 1

-- The key of a row, as a test.
abbrev pub has_key : ℕ → ℕ → Side → ℕ → ℕ → Side → Bool
has_key user stock side user' stock' side' =
    user' == user && (stock' == stock && same_side side' side)

abbrev pub total_quantity : List Position → ℕ
total_quantity [] = 0
total_quantity (p ∷ ps) = p.quantity + total_quantity ps

-- The open quantity of a name.
abbrev pub open_quantity : Book → ℕ → ℕ → Side → ℕ
open_quantity book user stock side = total_quantity (open_rows book user stock side)

-- Changes of rows that a query's test does not see.
module _ {A : Type 0} (test changed : A → Bool) (f : A → A)
    (same : (p : A) → test (f p) ≡ test p) where
  length-update_where :
      (ps : List A) → length (keep test (update_where changed f ps)) ≡ length (keep test ps)
  length-update_where [] = refl
  length-update_where (p ∷ ps) = ground (arith, same p, length-update_where ps)

  -- Rows that the query does not find may change in any way.
  keep-update_where :
      ((p : A) → changed p ≡ true → test p ≡ false)
      → (ps : List A) → keep test (update_where changed f ps) ≡ keep test ps
  keep-update_where apart [] = refl
  keep-update_where apart (p ∷ ps) = ground (arith, same p, apart p, keep-update_where apart ps)

average_in-open_for :
    (user stock : ℕ) (side : Side) (sized : Sized) (p : Position)
    → open_for user stock side (average_in sized p) ≡ open_for user stock side p
unfolding average_in
average_in-open_for user stock side sized p = refl

-- A row is open for one key only.
open_for-apart :
    (user stock : ℕ) (side : Side) (user' stock' : ℕ) (side' : Side)
    → has_key user stock side user' stock' side' ≡ false
    → (p : Position) → open_for user' stock' side' p ≡ true
    → open_for user stock side p ≡ false
open_for-apart user stock long user' stock' long h p k = ground arith
open_for-apart user stock long user' stock' short h p k = ground arith
open_for-apart user stock short user' stock' long h p k = ground arith
open_for-apart user stock short user' stock' short h p k = ground arith

-- Averaging adds the bought quantity once for each row that is found.
total-update_where :
    (test : Position → Bool) (sized : Sized)
    → ((p : Position) → test (average_in sized p) ≡ test p)
    → (ps : List Position)
    → total_quantity (keep test (update_where test (average_in sized) ps))
      ≡ total_quantity (keep test ps) + length (keep test ps) * sized.sized_qty
unfolding average_in
total-update_where test sized same [] = omega arith
total-update_where test sized same (p ∷ ps) = elim (Bool-cases (test p)) [
  | inl hit ↦ rw hit (rw (same p) (rw hit (omega (arith, total-update_where test sized same ps))))
  | inr miss ↦ rw miss (rw miss (total-update_where test sized same ps))
]

new_position-open_for :
    (user stock : ℕ) (side : Side) (i now : ℕ) (u : User) (signal : Signal) (o : OrderSide)
    (sized : Sized)
    → open_for user stock side (new_position i now u signal o sized)
      ≡ has_key user stock side u.id signal.signal_stock (position_side o)
unfolding new_position
new_position-open_for user stock side i now u signal buy sized = ground arith
new_position-open_for user stock side i now u signal sell sized = ground arith

-- What `scalar_one_or_none` says about the rows.
none-rows : (ps : List Position) → one_or_none ps ≡ ok none → ps ≡ []
unfolding one_or_none
none-rows [] h = refl
none-rows (p ∷ []) h = cc
none-rows (p ∷ q ∷ ps) h = cc

some-rows : (ps : List Position) (p : Position) → one_or_none ps ≡ ok (some p) → length ps ≡ 1
unfolding one_or_none
some-rows [] p h = cc
some-rows (q ∷ []) p h = refl
some-rows (q ∷ r ∷ ps) p h = cc

-- An entry leaves the rows of every other name as they were.
pub record_entry_other :
    (book : Book) (now : ℕ) (user : User) (signal : Signal) (o : OrderSide)
    (existing : Option Position) (sized : Sized) (u stock : ℕ) (side : Side)
    → has_key u stock side user.id signal.signal_stock (position_side o) ≡ false
    → open_rows (record_entry book now user signal o existing sized) u stock side
      ≡ open_rows book u stock side
unfolding record_entry
record_entry_other book now user signal o none sized u stock side h =
    rw (new_position-open_for u stock side book.next_id now user signal o sized) (rw h)
record_entry_other book now user signal o (some p) sized u stock side h =
    keep-update_where (open_for u stock side)
      (open_for user.id signal.signal_stock (position_side o)) (average_in sized)
      (average_in-open_for u stock side sized)
      (open_for-apart u stock side user.id signal.signal_stock (position_side o) h) book.positions

has_key_refl : (u stock : ℕ) (side : Side) → has_key u stock side u stock side ≡ true
has_key_refl u stock long = ground arith
has_key_refl u stock short = ground arith

-- The open quantity of the order's own name grows by the order, whether it opens a row or
-- averages into one.
pub record_entry_quantity :
    (book : Book) (now : ℕ) (user : User) (signal : Signal) (o : OrderSide)
    (existing : Option Position) (sized : Sized)
    → let rows = open_rows book user.id signal.signal_stock (position_side o) in
      one_or_none rows ≡ ok existing
      → let book' = record_entry book now user signal o existing sized in
        let rows' = open_rows book' user.id signal.signal_stock (position_side o) in
        (total_quantity rows' ≡ total_quantity rows + sized.sized_qty) × (length rows' ≡ 1)
unfolding record_entry new_position
record_entry_quantity book now user signal o none sized h =
    let rows : List Position = open_rows book user.id signal.signal_stock (position_side o) in
    let key : ℕ → Side → Bool = λ stock side. has_key user.id stock side user.id stock side in
    rw
      (new_position-open_for user.id signal.signal_stock (position_side o) book.next_id now user
        signal o sized)
      (rw (has_key_refl user.id signal.signal_stock (position_side o))
        (rw (none-rows rows h) (omega arith, refl)))
record_entry_quantity book now user signal o (some p) sized h =
    let rows : List Position = open_rows book user.id signal.signal_stock (position_side o) in
    let test : Position → Bool = open_for user.id signal.signal_stock (position_side o) in
    let same = average_in-open_for user.id signal.signal_stock (position_side o) sized in
    let one = some-rows rows p h in
    (
      total-update_where test sized same book.positions
          ∙ omega (arith, ap (λ (k : ℕ). k * sized.sized_qty) one),
      length-update_where test test (average_in sized) same book.positions ∙ one,
    )

key_eq :
    (u stock : ℕ) (side : Side) (u' stock' : ℕ) (side' : Side)
    → has_key u stock side u' stock' side' ≡ true
    → (u ≡ u') × (stock ≡ stock') × (side ≡ side')
key_eq u stock long u' stock' long h = ground arith
key_eq u stock short u' stock' short h = ground arith
key_eq u stock long u' stock' short h = ground arith
key_eq u stock short u' stock' long h = ground arith

-- An order that goes through, alone in its transaction, keeps at most one row open for each name.
pub place_paper_order-OneOpen :
    (settings : BrokerSettings) (m : Market) (now : ℕ) (user : User) (signal : Signal)
    (side : OrderSide) (quantity : Option ℕ) (book : Book) {book' : Book}
    → OneOpen book
    → place_paper_order settings m now user signal side quantity book ≡ ok book'
    → OneOpen book'
place_paper_order-OneOpen settings m now user signal side quantity book inv h u stock sd =
    let p = place-Placed settings m now user signal side quantity book h in
    rw (p.recorded)
      (elim (Bool-cases (has_key u stock sd user.id signal.signal_stock (position_side side))) [
        | inl same ↦
            let (user_eq, stock_eq, side_eq) =
              key_eq u stock sd user.id signal.signal_stock (position_side side) same in
            rw user_eq (
              rw stock_eq (
                rw side_eq (
                  omega (
                    arith,
                    (record_entry_quantity book now user signal side p.existing p.sized p.found).1,
                  ))))
        | inr apart ↦
            rw (record_entry_other book now user signal side p.existing p.sized u stock sd apart)
              (inv u stock sd)
      ])

-- A placed order is recorded by one row of the orders table; the open quantity of its name grows
-- by what it filled, and the open rows of every other name stay as they were.
pub place_paper_order_quantity :
    (settings : BrokerSettings) (m : Market) (now : ℕ) (user : User) (signal : Signal)
    (side : OrderSide) (quantity : Option ℕ) (book : Book) {book' : Book}
    → place_paper_order settings m now user signal side quantity book ≡ ok book'
    → let stock = signal.signal_stock in
      let sd = position_side side in
      (o : Order) × (book'.orders ≡ o ∷ book.orders)
      × (open_quantity book' user.id stock sd ≡ open_quantity book user.id stock sd + o.filled_qty)
      × ((u t : ℕ) (s : Side)
          → has_key u t s user.id stock sd ≡ false
          → open_rows book' u t s ≡ open_rows book u t s)
unfolding new_order
place_paper_order_quantity settings m now user signal side quantity book h =
    let p = place-Placed settings m now user signal side quantity book h in
    (
      new_order now user signal side p.sized,
      rw (p.recorded) (orders-record_entry book now user signal side p.existing p.sized),
      rw (p.recorded)
          (record_entry_quantity book now user signal side p.existing p.sized p.found).0,
      λ u t s apart.
          rw (p.recorded)
            (record_entry_other book now user signal side p.existing p.sized u t s apart),
    )
