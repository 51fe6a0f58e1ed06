-- ===== src/Trading/Fees/Bounds.antt =====
-- Bounds of the charges of one leg and of a round trip.
use ln_trading_app.Prelude.{arith, refl, ℕ, ◌*◌, ◌+◌, ◌/◌, ◌≡◌, ◌≤◌}
use ln_trading_app.Money.{OrderSide, buy, sell}
use ln_trading_app.Prelude.Round.{
  mul_mono_right, round_half_up, round_half_up_mono, round_half_up_bounds,
}
use ln_trading_app.Trading.Fees.{
  FeeSchedule, Product, brokerage_of, delivery, intraday_product, leg_charges, paisa, pct, stamp_of,
  stt_of, zerodha_equity,
}

-- The unrounded charges of a leg, in units of 1e-17 rupee, as a function of its turnover.
abbrev exact_charges : FeeSchedule → OrderSide → Product → ℕ → ℕ
exact_charges schedule side product turnover =
    brokerage_of schedule product turnover
    + stt_of schedule product side turnover
    + pct turnover schedule.exchange_txn_pct
    + turnover * schedule.sebi_per_cr * 100
    + (brokerage_of schedule product turnover
        + pct turnover schedule.exchange_txn_pct
        + turnover * schedule.sebi_per_cr * 100)
      * schedule.gst_pct
      / 100
    + stamp_of schedule product side turnover

leg_charges-total :
    (schedule : FeeSchedule) (side : OrderSide) (product : Product) (price qty : ℕ)
    → (leg_charges schedule side product price qty).total
      ≡ round_half_up (exact_charges schedule side product (price * qty)) paisa
unfolding leg_charges
leg_charges-total schedule side product price qty = refl

pct_mono : (a b p : ℕ) → a ≤ b → pct a p ≤ pct b p
pct_mono a b p h = omega (arith, mul_mono_right p a b h)

brokerage_of_mono :
    (s : FeeSchedule) (product : Product) (a b : ℕ)
    → a ≤ b
    → brokerage_of s product a ≤ brokerage_of s product b
unfolding brokerage_of
brokerage_of_mono s delivery a b h = omega arith
brokerage_of_mono s intraday_product a b h = ground (arith, pct_mono a b s.intraday_brokerage_pct h)

stt_of_mono :
    (s : FeeSchedule) (product : Product) (side : OrderSide) (a b : ℕ)
    → a ≤ b
    → stt_of s product side a ≤ stt_of s product side b
unfolding stt_of
stt_of_mono s delivery side a b h = pct_mono a b s.delivery_stt_pct h
stt_of_mono s intraday_product sell a b h = pct_mono a b s.intraday_stt_pct h
stt_of_mono s intraday_product buy a b h = omega arith

stamp_of_mono :
    (s : FeeSchedule) (product : Product) (side : OrderSide) (a b : ℕ)
    → a ≤ b
    → stamp_of s product side a ≤ stamp_of s product side b
unfolding stamp_of
stamp_of_mono s delivery buy a b h = pct_mono a b s.delivery_stamp_pct h
stamp_of_mono s intraday_product buy a b h = pct_mono a b s.intraday_stamp_pct h
stamp_of_mono s delivery sell a b h = omega arith
stamp_of_mono s intraday_product sell a b h = omega arith

div_mono : (a b : ℕ) → a ≤ b → a / 100 ≤ b / 100
div_mono a b h = omega arith

exact_charges_mono :
    (s : FeeSchedule) (side : OrderSide) (product : Product) (a b : ℕ)
    → a ≤ b
    → exact_charges s side product a ≤ exact_charges s side product b
exact_charges_mono s side product a b h =
    let base : ℕ → ℕ =
      λ t. brokerage_of s product t + pct t s.exchange_txn_pct + t * s.sebi_per_cr * 100 in
    let broker = brokerage_of_mono s product a b h in
    let txn = pct_mono a b s.exchange_txn_pct h in
    let sebi : a * s.sebi_per_cr * 100 ≤ b * s.sebi_per_cr * 100 =
      omega (arith, mul_mono_right s.sebi_per_cr a b h) in
    let taxed : base a ≤ base b = omega arith in
    omega (
      arith,
      stt_of_mono s product side a b h,
      stamp_of_mono s product side a b h,
      div_mono (base a * s.gst_pct) (base b * s.gst_pct)
          (mul_mono_right s.gst_pct (base a) (base b) taxed),
    )

-- Under any schedule a leg of larger turnover never costs less, whatever its price and quantity.
pub leg_charges_mono :
    (schedule : FeeSchedule) (side : OrderSide) (product : Product) (price qty price' qty' : ℕ)
    → price * qty ≤ price' * qty'
    → (leg_charges schedule side product price qty).total
      ≤ (leg_charges schedule side product price' qty').total
leg_charges_mono schedule side product price qty price' qty' h =
    rw
      (
        leg_charges-total schedule side product price qty,
        leg_charges-total schedule side product price' qty',
      )
      (round_half_up_mono _ _ paisa (omega arith)
        (exact_charges_mono schedule side product (price * qty) (price' * qty') h))

-- Under the Zerodha schedule a delivery leg costs at least what the same intraday leg does.
pub intraday-le-delivery :
    (side : OrderSide) (price qty : ℕ)
    → (leg_charges zerodha_equity side intraday_product price qty).total
      ≤ (leg_charges zerodha_equity side delivery price qty).total
unfolding brokerage_of stt_of stamp_of
intraday-le-delivery buy price qty =
    rw (leg_charges-total _ _ intraday_product price qty, leg_charges-total _ _ delivery price qty)
      (round_half_up_mono _ _ paisa (omega arith) (ground arith))
intraday-le-delivery sell price qty =
    rw (leg_charges-total _ _ intraday_product price qty, leg_charges-total _ _ delivery price qty)
      (round_half_up_mono _ _ paisa (omega arith) (ground arith))

exact_charges-le :
    (side : OrderSide) (product : Product) (turnover : ℕ)
    → exact_charges zerodha_equity side product turnover * 10_000 ≤ turnover * 12 * 1_000_000_000
unfolding brokerage_of stt_of stamp_of
exact_charges-le buy delivery turnover = omega arith
exact_charges-le sell delivery turnover = omega arith
exact_charges-le buy intraday_product turnover = ground arith
exact_charges-le sell intraday_product turnover = ground arith

-- A leg costs at most 0.12 percent of its turnover and half a paisa.
pub leg_charges-le :
    (side : OrderSide) (product : Product) (price qty : ℕ)
    → (leg_charges zerodha_equity side product price qty).total * 1_000_000 * 20_000
      ≤ price * qty * 24 + 1_000_000 * 10_000
leg_charges-le side product price qty =
    rw (leg_charges-total zerodha_equity side product price qty) (
      omega (
        arith,
        round_half_up_bounds (exact_charges zerodha_equity side product (price * qty)) paisa
            (omega arith),
        exact_charges-le side product (price * qty),
      ))
