-- ===== src/Api/Orders/Effects.antt =====
-- What an order through the API leaves unchanged, and the limit on trades that it respects.
use ln_trading_app.Prelude.{List, map, refl, ℕ, ◌≡◌, ◌≢◌}
use ln_trading_app.Api.{GateSettings, faulted, success}
use ln_trading_app.Api.Orders.{
  Account, Around, PlaceOrderRequest, PlacedOrder, overlay_stamps, place_order, pnl_row,
}
use ln_trading_app.Api.Orders.Overlays.{NoneActive, apply_eligibility_overlays_quiet}
use ln_trading_app.Api.Orders.Placing.{GoesThrough-place_order, place_order-GoesThrough}
use ln_trading_app.Broker.Book.{Book, Position}
use ln_trading_app.Trading.CircuitBreaker.{get_trades_taken_today}

-- The same request under other settings of the gates
abbrev pub with_gates : GateSettings → Around → Around
with_gates s w = record w { gates = s }

-- An order that goes through under some settings of the gates goes through under all settings in
-- which no gate is active, and leaves the same book, if the ATR could be read.
pub place_order_shadow :
    (w : Around) (s : GateSettings) (account : Account) (req : PlaceOrderRequest) (book : Book)
    (answer : PlacedOrder)
    → NoneActive s
    → w.reads.latest_atr_of_signal ≢ faulted
    → place_order w account req book ≡ success answer
    → (answer' : PlacedOrder) × ((place_order (with_gates s w) account req book ≡ success answer')
        × (answer'.placed_book ≡ answer.placed_book))
place_order_shadow w s account req book answer quiet read h =
    let (safe, (row, (found, (live, (v, (through, (filled, stamped))))))) =
      place_order-GoesThrough w account req book answer h in
    let (v', through') = apply_eligibility_overlays_quiet s w.reads row req.side quiet read in
    let answer' : PlacedOrder = record {
      placed_book = answer.placed_book;
      stamps = overlay_stamps v';
    } in
    (
      answer',
      (
        GoesThrough-place_order (with_gates s w) account req book answer'
            (safe, (row, (found, (live, (v', (through', (filled, refl))))))),
        refl,
      ),
    )

-- The trades of a user that count for the day of an instant
abbrev pub trades_of : ℕ → ℕ → List Position → ℕ
trades_of now user ps = get_trades_taken_today now user (map pnl_row ps)
