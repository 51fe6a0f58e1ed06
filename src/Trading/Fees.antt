-- ===== src/Trading/Fees.antt =====
-- The cost model of a cash-equity trade (backend/app/trading/fees.py). A turnover is in units of
-- 1e-8 rupee and a percentage in units of 1e-5 percent, so that a charge is an exact whole number
-- of units of 1e-17 rupee; only the total of a leg is rounded, to paise.
pub mod RoundTrip
pub mod Bounds
use ln_trading_app.Prelude.{ℕ, ◌*◌, ◌+◌, ◌/◌}
use ln_trading_app.Money.{
  Classification, OrderSide, Side, buy, closing_side, intraday, long, scalp, sell, short,
}
use ln_trading_app.Prelude.Round.{minimum, round_half_up}

-- Percentages are whole percents, in units of 1e-5.
pub record FeeSchedule : Type 0 where
  pub delivery_brokerage_pct : ℕ
  pub delivery_stt_pct : ℕ
  pub delivery_stamp_pct : ℕ
  pub intraday_brokerage_pct : ℕ
  pub intraday_brokerage_cap : ℕ  -- rupees per order
  pub intraday_stt_pct : ℕ
  pub intraday_stamp_pct : ℕ
  pub exchange_txn_pct : ℕ
  pub sebi_per_cr : ℕ  -- rupees per crore
  pub gst_pct : ℕ  -- whole percents

abbrev pub zerodha_equity : FeeSchedule
zerodha_equity = record {
  delivery_brokerage_pct = 0;
  delivery_stt_pct = 10_000;
  delivery_stamp_pct = 1_500;
  intraday_brokerage_pct = 3_000;
  intraday_brokerage_cap = 20;
  intraday_stt_pct = 2_500;
  intraday_stamp_pct = 300;
  exchange_txn_pct = 297;
  sebi_per_cr = 10;
  gst_pct = 18;
}

-- `PRODUCTS`
pub data Product : Type 0 where
  delivery intraday_product : Product

unfoldable pub product_for_classification : Classification → Product
product_for_classification scalp = intraday_product
product_for_classification intraday = intraday_product
product_for_classification _ = delivery

-- Components in units of 1e-17 rupee, the total in paise.
pub record ChargeBreakdown : Type 0 where
  pub brokerage : ℕ
  pub stt : ℕ
  pub exchange_txn : ℕ
  pub sebi : ℕ
  pub gst : ℕ
  pub stamp_duty : ℕ
  pub total : ℕ

-- One paisa, and one rupee, in units of 1e-17 rupee
abbrev pub paisa : ℕ
paisa = 1_000_000_000_000_000

-- `turnover * whole_pct / 100`: 1e-8 * 1e-5 / 100 is 1e-15, a hundred units.
abbrev pub pct : ℕ → ℕ → ℕ
pct turnover whole_pct = turnover * whole_pct * 100

unfoldable pub brokerage_of : FeeSchedule → Product → ℕ → ℕ
brokerage_of schedule delivery turnover = 0
brokerage_of schedule intraday_product turnover =
    minimum (pct turnover schedule.intraday_brokerage_pct)
      (schedule.intraday_brokerage_cap * 100 * paisa)

unfoldable pub stt_of : FeeSchedule → Product → OrderSide → ℕ → ℕ
stt_of schedule delivery side turnover = pct turnover schedule.delivery_stt_pct
stt_of schedule intraday_product sell turnover = pct turnover schedule.intraday_stt_pct
stt_of schedule intraday_product buy turnover = 0

unfoldable pub stamp_of : FeeSchedule → Product → OrderSide → ℕ → ℕ
stamp_of schedule delivery buy turnover = pct turnover schedule.delivery_stamp_pct
stamp_of schedule intraday_product buy turnover = pct turnover schedule.intraday_stamp_pct
stamp_of schedule _ sell turnover = 0

-- One leg. GST, a percentage of an amount in units of 1e-17, is rounded down to that unit;
-- `sebi_per_cr` divides by a crore.
unfoldable pub leg_charges : FeeSchedule → OrderSide → Product → ℕ → ℕ → ChargeBreakdown
leg_charges schedule side product price qty =
    let turnover : ℕ = price * qty in
    let brokerage : ℕ = brokerage_of schedule product turnover in
    let stt : ℕ = stt_of schedule product side turnover in
    let stamp : ℕ = stamp_of schedule product side turnover in
    let exchange_txn : ℕ = pct turnover schedule.exchange_txn_pct in
    let sebi : ℕ = turnover * schedule.sebi_per_cr * 100 in
    let gst_hundredths : ℕ = (brokerage + exchange_txn + sebi) * schedule.gst_pct in
    record {
      brokerage = brokerage;
      stt = stt;
      exchange_txn = exchange_txn;
      sebi = sebi;
      gst = gst_hundredths / 100;
      stamp_duty = stamp;
      total =
          round_half_up (brokerage + stt + exchange_txn + sebi + gst_hundredths / 100 + stamp)
            paisa;
    }

-- The order sides of the two legs.
abbrev pub entry_side : Side → OrderSide
entry_side long = buy
entry_side short = sell

-- The total of both legs in paise. Both are whole paise, so `_paise` leaves the sum alone.
unfoldable pub roundtrip_charges : FeeSchedule → Side → ℕ → ℕ → ℕ → Product → ℕ
roundtrip_charges schedule side entry_price exit_price quantity product =
    (leg_charges schedule (entry_side side) product entry_price quantity).total
    + (leg_charges schedule (closing_side side) product exit_price quantity).total
