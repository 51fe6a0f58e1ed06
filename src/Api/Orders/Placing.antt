-- ===== src/Api/Orders/Placing.antt =====
-- The steps of an order that goes through the API.
use ln_trading_app.Prelude.{Option, ap, arith, map, none, refl, some, sym, ◌∙◌, ◌≡◌}
use ln_trading_app.Api.{
  ApiError, SignalRow, SignalStatus, active_signal, or_raise, signal_not_found, success,
}
use ln_trading_app.Api.Orders.{
  Account, Around, PlaceOrderRequest, PlacedOrder, Verdicts, apply_eligibility_overlays, limits_of,
  must_be_active, overlay_stamps, pass_breaker, place_order, placing, pnl_row,
}
use ln_trading_app.Api.Orders.Overlays.{bind-success}
use ln_trading_app.Broker.Book.{Book}
use ln_trading_app.Broker.Paper.{Attempt, ok, place_paper_order}
use ln_trading_app.Trading.CircuitBreaker.{BreakerReason, check_circuit_breaker}

-- The conditions of an order that goes through
abbrev pub GoesThrough : Around → Account → PlaceOrderRequest → Book → PlacedOrder → Type 0
GoesThrough w account req book answer =
    (check_circuit_breaker w.now (limits_of account) (map pnl_row book.positions) ≡ none)
    × ((row : SignalRow) × ((w.signals req.signal_id ≡ some row)
          × ((row.status ≡ active_signal)
              × ((v : Verdicts) × ((apply_eligibility_overlays w.gates w.reads row req.side
                      ≡ success v)
                    × ((place_paper_order w.broker w.market w.now account.user row.levels req.side
                            req.quantity book
                          ≡ ok answer.placed_book)
                        × (answer.stamps ≡ overlay_stamps v)))))))

pass_breaker-none : (o : Option BreakerReason) {u : Unit} → pass_breaker o ≡ success u → o ≡ none
pass_breaker-none o h = ground arith

must_be_active-success :
    (t : SignalStatus) {u : Unit} → must_be_active t ≡ success u → t ≡ active_signal
must_be_active-success t h = ground arith

or_raise-success :
    {A : Type 0} (e : ApiError) (o : Option A) {a : A} → or_raise e o ≡ success a → o ≡ some a
or_raise-success e o h = ground arith

placing-success : (a : Attempt Book) {b : Book} → placing a ≡ success b → a ≡ ok b
placing-success a h = ground arith

pub success_inj : {A : Type 0} {a b : A} → success a ≡ success b → a ≡ b
success_inj h = ground arith

-- The steps of an order that went through.
pub place_order-GoesThrough :
    (w : Around) (account : Account) (req : PlaceOrderRequest) (book : Book) (answer : PlacedOrder)
    → place_order w account req book ≡ success answer
    → GoesThrough w account req book answer
unfolding place_order
place_order-GoesThrough w account req book answer h =
    let (a, (safe, h)) = bind-success (pass_breaker _) _ h in
    let (row, (found, h)) =
      bind-success (or_raise signal_not_found (w.signals req.signal_id)) _ h in
    let (b, (live, h)) = bind-success (must_be_active row.status) _ h in
    let (v, (through, h)) =
      bind-success (apply_eligibility_overlays w.gates w.reads row req.side) _ h in
    let (booked, (filled, h)) = bind-success (placing _) _ h in
    (
      pass_breaker-none _ safe,
      (
        row,
        (
          or_raise-success signal_not_found (w.signals req.signal_id) found,
          (
            must_be_active-success row.status live,
            (
              v,
              (
                through,
                (
                  placing-success _ filled
                      ∙ ap (λ (p : PlacedOrder). ok p.placed_book) (success_inj h),
                  sym (ap (λ (p : PlacedOrder). p.stamps) (success_inj h)),
                ),
              ),
            ),
          ),
        ),
      ),
    )

-- An order with these conditions goes through.
pub GoesThrough-place_order :
    (w : Around) (account : Account) (req : PlaceOrderRequest) (book : Book) (answer : PlacedOrder)
    → GoesThrough w account req book answer
    → place_order w account req book ≡ success answer
unfolding place_order
GoesThrough-place_order w account req book answer
      (safe, (row, (found, (live, (v, (through, (filled, stamped))))))) =
    rw (place_order, safe, found, live, through, filled, ← stamped) refl
