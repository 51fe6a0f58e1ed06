-- ===== src/Trading/Fees/RoundTrip.antt =====
-- The charges of a round trip.
use ln_trading_app.Prelude.{arith, ℕ, ◌*◌, ◌+◌, ◌≡◌, ◌≤◌}
use ln_trading_app.Money.{Side, closing_side, long, short}
use ln_trading_app.Trading.Fees.{
  FeeSchedule, Product, entry_side, roundtrip_charges, zerodha_equity,
}
use ln_trading_app.Trading.Fees.Bounds.{leg_charges-le}

-- A short is a long mirrored: selling at `a` and buying back at `b` costs what buying at `b` and
-- selling at `a` does.
pub roundtrip_charges_mirror :
    (schedule : FeeSchedule) (a b quantity : ℕ) (product : Product)
    → roundtrip_charges schedule short a b quantity product
      ≡ roundtrip_charges schedule long b a quantity product
unfolding roundtrip_charges
roundtrip_charges_mirror schedule a b quantity product = omega arith

-- Under the Zerodha schedule a round trip costs at most 0.12 percent of the turnover of its two
-- legs and one paisa, whichever the side and the product.
pub roundtrip_charges-le :
    (side : Side) (entry exit quantity : ℕ) (product : Product)
    → roundtrip_charges zerodha_equity side entry exit quantity product * 1_000_000 * 10_000
      ≤ (entry * quantity + exit * quantity) * 12 + 1_000_000 * 10_000
unfolding roundtrip_charges
roundtrip_charges-le side entry exit quantity product = omega (
  arith,
  leg_charges-le (entry_side side) product entry quantity,
  leg_charges-le (closing_side side) product exit quantity,
)
