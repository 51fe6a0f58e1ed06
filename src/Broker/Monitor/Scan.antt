-- ===== src/Broker/Monitor/Scan.antt =====
-- What scans do to the table of positions.
use ln_trading_app.Prelude.{
  Bool, Bool-cases, List, Option, Option-cases, [], ap, arith, false, if◌then◌else◌, inl, inr, keep,
  length, map, refl, sym, true, ℕ, ◌&&◌, ◌+◌, ◌==◌, ◌∙◌, ◌∷◌, ◌≡◌,
}
use ln_trading_app.Broker.Book.{
  Book, BrokerSettings, Market, Order, Position, Reason, is_open, open_for, same_side, sl_hit,
  tp_hit,
}
use ln_trading_app.Broker.Monitor.{
  Beat, Lookup, Tally, act, beat, classification_of, closed, closed_or_raised, count_beat,
  empty_tally, is_better, raised, row_after, scan_positions, scan_row, scan_rows, skipped,
  stop_reached, stopped_at, target_reached, track_peak, updated,
}
use ln_trading_app.Broker.Monitor.Exits.{beat-quiet, beat-tick, some-of-closed}
use ln_trading_app.Broker.Monitor.Hold.{beat-Held}
use ln_trading_app.Broker.Paper.{Closing, close_position, closing_at}
use ln_trading_app.Broker.Paper.Close.{close-opened}
use ln_trading_app.Money.{Classification, OrderSide, Side, buy, closing_side, long, sell, short}
use ln_trading_app.Trading.MarketHours.{is_market_session}

abbrev pub one : Bool → ℕ
one true = 1
one false = 0

-- The row of a closing is closed and keeps its id, and its order is one of the row's name.
abbrev pub Shuts : Position → Closing → Type 0
Shuts p closing =
    (is_open closing.closed_position ≡ false)
    × ((closing.closed_position.position_id ≡ p.position_id)
        × ((closing.close_order.order_user ≡ p.user_id)
            × ((closing.close_order.order_stock ≡ p.stock_id)
                × (closing.close_order.order_side ≡ closing_side p.side))))

closed_or_raised-shut :
    (settings : BrokerSettings) (m : Market) (now : ℕ) (c : Option Classification) (exit : Option ℕ)
    (why : Reason) (p : Position) {closing : Closing}
    → closed_or_raised (close_position settings m now c exit why p) ≡ closed closing
    → Shuts p closing
unfolding closing_at
closed_or_raised-shut settings m now c exit why p k =
    rw (← (close-opened settings m now c exit why p (some-of-closed _ k)).1)
      (refl, (refl, (refl, (refl, refl))))

closed-of : {A : Type 0} {q : Position} {closing : Closing} → updated q ≡ closed closing → A
closed-of e = ground arith

act-shut :
    (db : Lookup) (settings : BrokerSettings) (m : Market) (now price : ℕ) (p : Position)
    {closing : Closing}
    → act db settings m now price p ≡ closed closing
    → Shuts p closing
unfolding act
act-shut db settings m now price p e = elim (Bool-cases (stop_reached p.side price p.current_sl)) [
  | inl stop ↦
      closed_or_raised-shut settings m now (classification_of db p)
        (stopped_at p.side price p.current_sl) sl_hit p (rw (act, stop) at e)
  | inr safe ↦ elim (Bool-cases (target_reached p.side price p.current_tp)) [
    | inl target ↦
        closed_or_raised-shut settings m now (classification_of db p) p.current_tp tp_hit p
          (rw (act, target) at (rw (act, safe) at e))
    | inr between ↦ closed-of (rw (act, between) at (rw (act, safe) at e))
  ]
]

skipped-of : {A : Type 0} {closing : Closing} → skipped ≡ closed closing → A
skipped-of e = ground arith

track_peak-Shuts :
    (price : ℕ) (p : Position) (closing : Closing)
    → Shuts (track_peak price p) closing
    → Shuts p closing
unfolding track_peak
track_peak-Shuts price p closing h = elim (Bool-cases (is_better p.side price p.peak_price)) [
  | inl better ↦ simp better at h
  | inr no_better ↦ simp no_better at h
]

pub beat-shut :
    (db : Lookup) (settings : BrokerSettings) (m : Market) (now : ℕ) (p : Position)
    {closing : Closing}
    → beat db settings m now p ≡ closed closing
    → Shuts p closing
beat-shut db settings m now p {closing} e = elim (Option-cases (m.live_ltp p.stock_id)) [
  | inl quiet ↦ skipped-of (sym (beat-quiet db settings m now p quiet) ∙ e)
  | inr (price, ticked) ↦ track_peak-Shuts price p closing (
      act-shut db settings m now price (track_peak price p)
        (sym (beat-tick db settings m now price p ticked) ∙ e))
]

row_after-id :
    (db : Lookup) (settings : BrokerSettings) (m : Market) (now : ℕ) (p : Position) (b : Beat)
    → beat db settings m now p ≡ b
    → (row_after p b).position_id ≡ p.position_id
row_after-id db settings m now p skipped e = refl
row_after-id db settings m now p raised e = refl
row_after-id db settings m now p (closed closing) e = (beat-shut db settings m now p e).1.0
row_after-id db settings m now p (updated q) e = (beat-Held db settings m now p e).same_id

pub scan_row-id :
    (db : Lookup) (settings : BrokerSettings) (m : Market) (now : ℕ) (p : Position)
    → (scan_row db settings m now p).position_id ≡ p.position_id
unfolding scan_row
scan_row-id db settings m now p = elim (Bool-cases (is_open p)) [
  | inl held ↦ rw held (row_after-id db settings m now p _ refl)
  | inr shut ↦ rw shut refl
]

-- The scans of a history, in order: what the market shows at each, and the time
pub record Moment : Type 0 where
  pub market : Market
  pub at : ℕ

abbrev pub run_monitor : Lookup → BrokerSettings → List Moment → Book → Book
run_monitor db settings [] book = book
run_monitor db settings (w ∷ ws) book =
    run_monitor db settings ws (scan_positions db settings w.market w.at book).0

-- The order is a closing order of the user, the stock and the side.
abbrev pub closes_side : Side → OrderSide → Bool
closes_side long sell = true
closes_side long buy = false
closes_side short buy = true
closes_side short sell = false

abbrev pub closes_for : ℕ → ℕ → Side → Order → Bool
closes_for user stock side o =
    o.order_user == user && (o.order_stock == stock && closes_side side o.order_side)

-- What the name of a row has: its closing orders and its open rows
abbrev pub entries_of : ℕ → ℕ → Side → List Order → List Position → ℕ
entries_of user stock side orders ps =
    length (keep (closes_for user stock side) orders) + length (keep (open_for user stock side) ps)

same_side-closing : (p side : Side) → closes_side side (closing_side p) ≡ same_side p side
same_side-closing long long = refl
same_side-closing long short = refl
same_side-closing short long = refl
same_side-closing short short = refl

-- The tally after one row
abbrev pub tallied : Lookup → BrokerSettings → Market → ℕ → Tally → Position → Tally
tallied db settings m now t p = if is_open p then count_beat t (beat db settings m now p) else t

one_row :
    (k : Bool) (p q : Position)
    → length (if k then p ∷ [] else []) ≡ length (if k then q ∷ [] else [])
one_row true p q = refl
one_row false p q = refl

and_true : (a b c : Bool) → (a && (b && (c && true))) ≡ (a && (b && c))
and_true a b c = ground arith

and_false : (a b c : Bool) → (a && (b && (c && false))) ≡ false
and_false a b c = ground arith

module _ (user stock : ℕ) (side : Side) where
  closing-entries :
      (p : Position) (closing : Closing) (orders : List Order)
      → is_open p ≡ true
      → Shuts p closing
      → entries_of user stock side (closing.close_order ∷ orders) (closing.closed_position ∷ [])
        ≡ entries_of user stock side orders (p ∷ [])
  closing-entries p closing orders live (shut, (id, (u, (st, sd)))) =
      let named : Bool = p.user_id == user && (p.stock_id == stock && same_side p.side side) in
      let q : Position = closing.closed_position in
      let order_is : closes_for user stock side closing.close_order ≡ named =
        rw (u, st, sd, same_side-closing p.side side) refl in
      let row_is : open_for user stock side p ≡ named =
        rw live (and_true (p.user_id == user) (p.stock_id == stock) (same_side p.side side)) in
      let row_gone : open_for user stock side q ≡ false =
        rw shut (and_false (q.user_id == user) (q.stock_id == stock) (same_side q.side side)) in
      rw (row_gone, row_is, order_is)
        (elim (Bool-cases named) [ inl hit ↦ rw hit (omega arith) | inr miss ↦ rw miss refl ])

  beat-entries :
      (db : Lookup) (settings : BrokerSettings) (m : Market) (now : ℕ) (t : Tally) (p : Position)
      (b : Beat)
      → is_open p ≡ true
      → beat db settings m now p ≡ b
      → entries_of user stock side (count_beat t b).tally_orders (row_after p b ∷ [])
        ≡ entries_of user stock side t.tally_orders (p ∷ [])
  unfolding count_beat
  beat-entries db settings m now t p skipped live e = refl
  beat-entries db settings m now t p raised live e = refl
  beat-entries db settings m now t p (closed closing) live e =
      closing-entries p closing t.tally_orders live (beat-shut db settings m now p e)
  beat-entries db settings m now t p (updated q) live e =
      let held = beat-Held db settings m now p e in
      let same : open_for user stock side q ≡ open_for user stock side p =
        rw (held.same_owner.0, held.same_owner.1, held.same_owner.2, held.same_books.0) refl in
      ap (λ k. length (keep (closes_for user stock side) t.tally_orders) + k)
        (rw same (one_row (open_for user stock side p) q p))

  row-entries :
      (db : Lookup) (settings : BrokerSettings) (m : Market) (now : ℕ) (t : Tally) (p : Position)
      → entries_of user stock side
          (tallied db settings m now t p).tally_orders
          (scan_row db settings m now p ∷ [])
        ≡ entries_of user stock side t.tally_orders (p ∷ [])
  unfolding scan_row
  row-entries db settings m now t p = elim (Bool-cases (is_open p)) [
    | inl held ↦ simp held (simp held at (beat-entries db settings m now t p _ held refl))
    | inr shut ↦ simp shut refl
  ]

  keep-cons :
      (p : Position) (ps : List Position)
      → length (keep (open_for user stock side) (p ∷ ps))
        ≡ length (keep (open_for user stock side) (p ∷ []))
          + length (keep (open_for user stock side) ps)
  keep-cons p ps = elim (Bool-cases (open_for user stock side p)) [
    | inl hit ↦ rw hit (omega arith)
    | inr miss ↦ rw miss (omega arith)
  ]

  scan_rows-entries :
      (db : Lookup) (settings : BrokerSettings) (m : Market) (now : ℕ) (t : Tally)
      (ps : List Position)
      → entries_of user stock side
          (scan_rows db settings m now t ps).tally_orders
          (map (scan_row db settings m now) ps)
        ≡ entries_of user stock side t.tally_orders ps
  unfolding scan_rows
  scan_rows-entries db settings m now t [] = refl
  scan_rows-entries db settings m now t (p ∷ ps) = omega (
    arith,
    row-entries db settings m now t p,
    scan_rows-entries db settings m now (tallied db settings m now t p) ps,
    keep-cons p ps,
    keep-cons (scan_row db settings m now p) (map (scan_row db settings m now) ps),
  )

  scan_positions-entries :
      (db : Lookup) (settings : BrokerSettings) (m : Market) (now : ℕ) (book : Book)
      → let book' = (scan_positions db settings m now book).0 in
        entries_of user stock side book'.orders book'.positions
        ≡ entries_of user stock side book.orders book.positions
  unfolding scan_positions
  scan_positions-entries db settings m now book = elim (Bool-cases (is_market_session now)) [
    | inl session ↦
        simp session (scan_rows-entries db settings m now (empty_tally book) book.positions)
    | inr off ↦ simp off refl
  ]

abbrev pub ids_of : List Position → List ℕ
ids_of ps = map (λ (p : Position). p.position_id) ps

scan_rows-ids :
    (db : Lookup) (settings : BrokerSettings) (m : Market) (now : ℕ) (ps : List Position)
    → ids_of (map (scan_row db settings m now) ps) ≡ ids_of ps
scan_rows-ids db settings m now [] = refl
scan_rows-ids db settings m now (p ∷ ps) =
    rw (scan_row-id db settings m now p, scan_rows-ids db settings m now ps) refl

scan_positions-ids :
    (db : Lookup) (settings : BrokerSettings) (m : Market) (now : ℕ) (book : Book)
    → ids_of (scan_positions db settings m now book).0.positions ≡ ids_of book.positions
unfolding scan_positions
scan_positions-ids db settings m now book = elim (Bool-cases (is_market_session now)) [
  | inl session ↦ simp session (scan_rows-ids db settings m now book.positions)
  | inr off ↦ simp off refl
]

-- Over any history of scans the table keeps its rows, by their ids and in their order, and for each
-- user, stock and side the closing orders and the open rows together stay the same in number: for
-- each open row of the name that is closed there is one order more that closes that side, and
-- without one there is none.
pub run_monitor_conserves :
    (db : Lookup) (settings : BrokerSettings) (ws : List Moment) (book : Book)
    → let book' = run_monitor db settings ws book in
      (ids_of book'.positions ≡ ids_of book.positions)
      × ((user stock : ℕ) (side : Side)
          → entries_of user stock side book'.orders book'.positions
            ≡ entries_of user stock side book.orders book.positions)
run_monitor_conserves db settings [] book = (refl, λ user stock side. refl)
run_monitor_conserves db settings (w ∷ ws) book =
    let (ids, entries) =
      run_monitor_conserves db settings ws (scan_positions db settings w.market w.at book).0 in
    (
      ids ∙ scan_positions-ids db settings w.market w.at book,
      λ user stock side.
          entries user stock side
          ∙ scan_positions-entries user stock side db settings w.market w.at book,
    )
