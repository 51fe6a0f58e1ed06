-- ===== src/Api/Positions/Effects.antt =====
-- What closing by hand and moving a stop by hand do to the rows.
use ln_trading_app.Prelude.{
  Bool-cases, List, Option, [], ap, arith, false, inl, inr, refl, some, sym, true, ℕ, ◌<◌, ◌==◌,
  ◌∷◌, ◌≡◌, ◌≢◌,
}
use ln_trading_app.Api.{failure, position_already_closed, raise_if, stop_beyond_entry, success}
use ln_trading_app.Api.Orders.Overlays.{bind-success}
use ln_trading_app.Api.Orders.Placing.{success_inj}
use ln_trading_app.Api.Positions.{
  beyond_entry, book_closing, change_position, closing_or_raise, get_position,
  manual_close_position, own_open_position, update_stop_loss, with_stop,
}
use ln_trading_app.Broker.Book.{Book, BrokerSettings, Market, Position, is_open, manual}
use ln_trading_app.Broker.Paper.{Closing, close_position, closing_at}
use ln_trading_app.Money.{Classification, Side, long, short}

pub own_open_position-success :
    (user i : ℕ) (book : Book) {p : Position}
    → own_open_position user i book ≡ success p
    → (get_position i book.positions ≡ some p) × ((p.user_id ≡ user) × (is_open p ≡ true))
unfolding own_open_position
own_open_position-success user i book {p} h = ground arith

some_inj : {a b : Position} → some a ≡ some b → a ≡ b
some_inj h = ground arith

pub get_position-id :
    (i : ℕ) (ps : List Position) {p : Position} → get_position i ps ≡ some p → p.position_id ≡ i
get_position-id i [] h = cc
get_position-id i (q ∷ ps) {p} h = elim (Bool-cases (q.position_id == i)) [
  | inl hit ↦ let eq : q ≡ p = some_inj (rw hit at h) in rw (← eq) (ground arith)
  | inr miss ↦ get_position-id i ps (rw miss at h)
]

pub get_position-change :
    (i : ℕ) (f : Position → Position) (ps : List Position) {p : Position}
    → get_position i ps ≡ some p
    → (f p).position_id ≡ i
    → get_position i (change_position i f ps) ≡ some (f p)
get_position-change i f [] h same = cc
get_position-change i f (q ∷ ps) {p} h same = elim (Bool-cases (q.position_id == i)) [
  | inl hit ↦ let eq : q ≡ p = some_inj (rw hit at h) in rw (hit, eq) (ground (arith, same))
  | inr miss ↦ rw miss (rw miss (get_position-change i f ps (rw miss at h) same))
]

pub get_position-change_other :
    (i j : ℕ) (f : Position → Position) (ps : List Position)
    → ((p : Position) → (f p).position_id ≡ i → j ≢ i)
    → ((p : Position) → p.position_id ≡ i → (f p).position_id ≡ i)
    → j ≢ i
    → get_position j (change_position i f ps) ≡ get_position j ps
get_position-change_other i j f [] a b h = refl
get_position-change_other i j f (q ∷ ps) a b h =
    ground (arith, b q, get_position-change_other i j f ps a b h)

-- The stop is on the losing side of the entry.
abbrev pub Losing : Side → ℕ → ℕ → Type 0
Losing long new_sl entry = new_sl < entry
Losing short new_sl entry = entry < new_sl

-- A stop that is moved by hand ends on the losing side of the entry of an open position of the user,
-- and neither another field, another row, an order nor a journal entry changes.
pub update_stop_loss_moves :
    (user i new_sl : ℕ) (book book' : Book)
    → update_stop_loss user i new_sl book ≡ success book'
    → (p : Position) × ((get_position i book.positions ≡ some p)
        × ((p.user_id ≡ user)
            × ((is_open p ≡ true)
                × (Losing p.side new_sl p.avg_entry_price
                    × ((get_position i book'.positions ≡ some (with_stop new_sl p))
                        × (((j : ℕ)
                              → j ≢ i
                              → get_position j book'.positions ≡ get_position j book.positions)
                            × ((book'.orders ≡ book.orders) × (book'.journal ≡ book.journal))))))))
unfolding update_stop_loss
update_stop_loss_moves user i new_sl book book' h =
    let (p, (found, k)) = bind-success (own_open_position user i book) _ h in
    let (row, (mine, live)) = own_open_position-success user i book found in
    let (u, (checked, done)) = bind-success (raise_if _ _) _ k in
    let eq = success_inj done in
    (
      p,
      (
        row,
        (
          mine,
          (
            live,
            (
              losing p.side p.avg_entry_price checked,
              (
                rw (← eq) (
                    get_position-change i (with_stop new_sl) book.positions row
                      (get_position-id i book.positions row)),
                (
                  λ j apart. rw (← eq) (
                      get_position-change_other i j (with_stop new_sl) book.positions (λ q e. apart)
                        (λ q e. e) apart),
                  (sym (ap (λ (b : Book). b.orders) eq), sym (ap (λ (b : Book). b.journal) eq)),
                ),
              ),
            ),
          ),
        ),
      ),
    )
  where
    losing :
        (side : Side) (entry : ℕ) {u : Unit}
        → raise_if stop_beyond_entry (beyond_entry side new_sl entry) ≡ success u
        → Losing side new_sl entry
    losing long entry e = ground arith
    losing short entry e = ground arith

pub close_position-closed :
    (settings : BrokerSettings) (m : Market) (now : ℕ) (c : Option Classification)
    (price : Option ℕ) (p : Position) {closing : Closing}
    → close_position settings m now c price manual p ≡ some closing
    → (is_open closing.closed_position ≡ false)
      × ((closing.closed_position.position_id ≡ p.position_id)
          × (closing.closed_position.user_id ≡ p.user_id))
unfolding close_position closing_at
close_position-closed settings m now c price p h = ground arith

closing_or_raise-success :
    (o : Option Closing) {c : Closing} → closing_or_raise o ≡ success c → o ≡ some c
closing_or_raise-success o h = ground arith

pub own_open_position_closed :
    (user i : ℕ) (book : Book) {p : Position}
    → get_position i book.positions ≡ some p
    → p.user_id ≡ user
    → is_open p ≡ false
    → own_open_position user i book ≡ failure position_already_closed
unfolding own_open_position
own_open_position_closed user i book {p} row mine shut = ground arith

pub refused_when_closed :
    (settings : BrokerSettings) (m : Market) (now : ℕ) (class_of : Position → Option Classification)
    (user i : ℕ) (price : Option ℕ) (book : Book)
    → own_open_position user i book ≡ failure position_already_closed
    → manual_close_position settings m now class_of user i price book
      ≡ failure position_already_closed
unfolding manual_close_position
refused_when_closed settings m now class_of user i price book shut =
    rw (manual_close_position, shut) refl

-- The parts of a closing by hand that went through.
pub manual_close-parts :
    (settings : BrokerSettings) (m : Market) (now : ℕ) (class_of : Position → Option Classification)
    (user i : ℕ) (exit_price : Option ℕ) (book : Book) {book' : Book}
    → manual_close_position settings m now class_of user i exit_price book ≡ success book'
    → (p : Position) × ((get_position i book.positions ≡ some p)
        × ((p.user_id ≡ user)
            × ((closing : Closing) × ((close_position settings m now
                      (class_of p)
                      exit_price
                      manual
                      p
                    ≡ some closing)
                  × (book' ≡ book_closing i closing book)))))
unfolding manual_close_position
manual_close-parts settings m now class_of user i exit_price book h =
    let (p, (found, k)) = bind-success (own_open_position user i book) _ h in
    let (row, (mine, live)) = own_open_position-success user i book found in
    let (closing, (made, done)) = bind-success (closing_or_raise _) _ k in
    (p, (row, (mine, (closing, (closing_or_raise-success _ made, sym (success_inj done))))))

-- The book after a stop was moved by hand
pub update_stop_loss_parts :
    (user i new_sl : ℕ) (book : Book) {book' : Book}
    → update_stop_loss user i new_sl book ≡ success book'
    → (p : Position) × (book'
        ≡ record book { positions = change_position i (with_stop new_sl) book.positions })
unfolding update_stop_loss
update_stop_loss_parts user i new_sl book h =
    let (p, (found, k)) = bind-success (own_open_position user i book) _ h in
    let (u, (checked, done)) =
      bind-success (raise_if stop_beyond_entry (beyond_entry p.side new_sl p.avg_entry_price)) _
        k in
    (p, sym (success_inj done))
