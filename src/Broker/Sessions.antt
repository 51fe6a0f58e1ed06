-- ===== src/Broker/Sessions.antt =====
-- Orders and scans in any order, one after another, each a whole transaction: what reaches the
-- positions table, step by step.
use ln_trading_app.Prelude.{
  Bool, Bool-cases, List, Option, [], ap, arith, inl, inr, keep, length, map, refl, sym, true, ℕ,
  ◌&&◌, ◌==◌, ◌∙◌, ◌∷◌, ◌≡◌, ◌≤◌,
}
use ln_trading_app.Broker.Book.{
  Book, BrokerSettings, Market, Position, Signal, User, is_open, open_for, same_side,
}
use ln_trading_app.Broker.Monitor.{Lookup, scan_positions}
use ln_trading_app.Broker.Monitor.History.{next_row, next_row-Held, scan-rows}
use ln_trading_app.Broker.Monitor.Hold.{Held}
use ln_trading_app.Broker.Monitor.Scan.{Moment}
use ln_trading_app.Broker.Paper.{ok, place_paper_order}
use ln_trading_app.Broker.Paper.Rows.{OneOpen, place_paper_order-OneOpen}
use ln_trading_app.Money.{OrderSide, Side}

-- One committed transaction: an order that went through, or a run of the monitor
pub data Step (settings : BrokerSettings) : Book → Book → Type 0 where
  ordered :
      (m : Market) (now : ℕ) (user : User) (signal : Signal) (side : OrderSide)
      (quantity : Option ℕ) {book book' : Book}
      → place_paper_order settings m now user signal side quantity book ≡ ok book'
      → Step settings book book'
  scanned :
      (db : Lookup) (w : Moment) {book book' : Book}
      → (scan_positions db settings w.market w.at book).0 ≡ book'
      → Step settings book book'

keep-map_fewer :
    (test : Position → Bool) (f : Position → Position)
    → ((p : Position) → test (f p) ≡ true → test p ≡ true)
    → (ps : List Position) → length (keep test (map f ps)) ≤ length (keep test ps)
keep-map_fewer test f back [] = omega arith
keep-map_fewer test f back (p ∷ ps) =
    let rest = keep-map_fewer test f back ps in
    elim (Bool-cases (test (f p))) [
      | inl hit ↦ rw (hit, back p hit) (omega arith)
      | inr miss ↦ rw miss (ground arith)
    ]

open_for-Held :
    (user stock : ℕ) (side : Side) (p q : Position)
    → Held p q
    → open_for user stock side q ≡ open_for user stock side p
open_for-Held user stock side p q h =
    rw (h.same_owner.0, h.same_owner.1, h.same_owner.2, h.same_books.0) refl

open_of : (a b c d : Bool) → (a && (b && (c && d))) ≡ true → d ≡ true
open_of a b c d h = ground arith

-- What is open for a name after a task was open for it before.
next_row-open_for :
    (db : Lookup) (settings : BrokerSettings) (w : Moment) (user stock : ℕ) (side : Side)
    (p : Position)
    → open_for user stock side (next_row db settings w p) ≡ true
    → open_for user stock side p ≡ true
next_row-open_for db settings w user stock side p h =
    let q : Position = next_row db settings w p in
    let held : is_open q ≡ true =
      open_of (q.user_id == user) (q.stock_id == stock) (same_side q.side side) (is_open q) h in
    sym (open_for-Held user stock side p q (next_row-Held db settings w p held)) ∙ h

-- A step keeps at most one open row for each name.
pub Step-OneOpen :
    (settings : BrokerSettings) (book book' : Book)
    → Step settings book book'
    → OneOpen book
    → OneOpen book'
Step-OneOpen settings book book' (ordered m now user signal side quantity went) inv =
    place_paper_order-OneOpen settings m now user signal side quantity book inv went
Step-OneOpen settings book book' (scanned db w written) inv = λ u stock side.
    let fewer =
      keep-map_fewer (open_for u stock side) (next_row db settings w)
        (next_row-open_for db settings w u stock side) book.positions in
    let rows : map (next_row db settings w) book.positions ≡ book'.positions =
      sym (scan-rows db settings w book) ∙ ap (λ (b : Book). b.positions) written in
    omega (arith, rw rows at fewer, inv u stock side)
