-- ===== src/Broker/Fill/Adverse.antt =====
-- How a fill compares with its reference, with the flat model and with that of a larger order.
use ln_trading_app.Prelude.{
  Bool-cases, Option, arith, false, inl, inr, none, refl, some, ℕ, ◌*◌, ◌+◌, ◌-◌, ◌<◌, ◌==◌, ◌≡◌,
  ◌≤◌,
}
use ln_trading_app.Broker.Depth.{Depth}
use ln_trading_app.Broker.Fill.{
  FillSettings, bps_one, impact_of, price_after_bps, round_tick, simulate_fill, spread_aware_bps,
  taken_qty,
}
use ln_trading_app.Money.{OrderSide, buy, quantize4, sell, tick4}
use ln_trading_app.Prelude.Round.{
  maximum, mul_mono, mul_mono_right, round_half_even_mono, round_half_even_exact,
  round_half_up_mono, round_half_up_exact,
}

-- `a` is at least as bad a fill as `b` for an order of that side.
abbrev pub NoBetter : OrderSide → ℕ → ℕ → Type 0
NoBetter buy a b = b ≤ a
NoBetter sell a b = a ≤ b

price_after_bps_mono :
    (side : OrderSide) (price b b' : ℕ)
    → b ≤ b'
    → NoBetter side (price_after_bps price side b') (price_after_bps price side b)
unfolding price_after_bps
price_after_bps_mono buy price b b' h = mul_mono price (bps_one + b) (bps_one + b') (omega arith)
price_after_bps_mono sell price b b' h = mul_mono price (bps_one - b') (bps_one - b) (omega arith)

quantize4_mono : (a b : ℕ) → a ≤ b → quantize4 a ≤ quantize4 b
unfolding quantize4
quantize4_mono a b h = mul_mono_right tick4 _ _ (round_half_even_mono a b tick4 (omega arith) h)

round_tick_mono : (s : FillSettings) (a b : ℕ) → a ≤ b → round_tick s a ≤ round_tick s b
unfolding round_tick
round_tick_mono s a b h = elim (Bool-cases (s.paper_tick_size == 0)) [
  | inl off ↦
      rw off (mul_mono_right tick4 _ _ (round_half_even_mono a b (bps_one * tick4) (omega arith) h))
  | inr grid ↦ rw grid (
      quantize4_mono _ _ (
        mul_mono_right s.paper_tick_size _ _
          (round_half_up_mono a b (s.paper_tick_size * bps_one) (ground arith) h)))
]

fill_mono :
    (s : FillSettings) (side : OrderSide) (price b b' : ℕ)
    → b ≤ b'
    → NoBetter side
        (round_tick s (price_after_bps price side b'))
        (round_tick s (price_after_bps price side b))
fill_mono s buy price b b' h = round_tick_mono s _ _ (price_after_bps_mono buy price b b' h)
fill_mono s sell price b b' h = round_tick_mono s _ _ (price_after_bps_mono sell price b b' h)

-- The slippage charged lies between the flat baseline and the larger of it and the ceiling: the
-- excess over the baseline is never negative.
pub simulate_fill_bps :
    (s : FillSettings) (price : ℕ) (side : OrderSide) (depth : Option Depth) (quantity : Option ℕ)
    → let f = simulate_fill s price side depth quantity in
      (f.baseline_bps ≤ f.slippage_bps)
      × (f.slippage_bps ≤ maximum s.paper_slippage_bps s.paper_slippage_max_bps)
unfolding simulate_fill spread_aware_bps
simulate_fill_bps s price side none quantity = ground arith
simulate_fill_bps s price side (some depth) quantity = ground arith

-- Every fill is the reference moved by the slippage that it reports.
fill-slippage :
    (s : FillSettings) (price : ℕ) (side : OrderSide) (depth : Option Depth) (quantity : Option ℕ)
    → let f = simulate_fill s price side depth quantity in
      (f.fill ≡ round_tick s (price_after_bps price side f.slippage_bps))
      × (f.baseline_bps ≡ s.paper_slippage_bps)
unfolding simulate_fill
fill-slippage s price side none quantity = (refl, refl)
fill-slippage s price side (some depth) quantity = ground arith

-- A fill priced off a live book is never better for the trader than the flat fill of the same
-- order, on either side and whatever the book, the tick grid and the size.
pub simulate_fill-NoBetter :
    (s : FillSettings) (price : ℕ) (side : OrderSide) (depth : Option Depth) (quantity : Option ℕ)
    → NoBetter side
        (simulate_fill s price side depth quantity).fill
        (simulate_fill s price side none quantity).fill
unfolding simulate_fill
simulate_fill-NoBetter s price side depth quantity =
    let (priced, base) = fill-slippage s price side depth quantity in
    rw priced (
      fill_mono s side price s.paper_slippage_bps _
        (omega (arith, simulate_fill_bps s price side depth quantity, base)))

impact_of_mono :
    (s : FillSettings) (depth : Depth) (side : OrderSide) (q q' : ℕ)
    → q ≤ q'
    → impact_of s depth side (some q) ≤ impact_of s depth side (some q')
unfolding impact_of
impact_of_mono s depth side q q' h = ground (
  arith,
  round_half_even_mono (s.paper_impact_k_bps * q) (s.paper_impact_k_bps * q')
      (taken_qty depth side),
  mul_mono s.paper_impact_k_bps q q' h,
)

slippage_mono :
    (s : FillSettings) (price : ℕ) (side : OrderSide) (depth : Option Depth) (q q' : ℕ)
    → q ≤ q'
    → (simulate_fill s price side depth (some q)).slippage_bps
      ≤ (simulate_fill s price side depth (some q')).slippage_bps
unfolding simulate_fill spread_aware_bps
slippage_mono s price side none q q' h = omega arith
slippage_mono s price side (some depth) q q' h = ground (arith, impact_of_mono s depth side q q' h)

-- A larger order never fills better.
pub simulate_fill_size :
    (s : FillSettings) (price : ℕ) (side : OrderSide) (depth : Option Depth) (q q' : ℕ)
    → q ≤ q'
    → NoBetter side
        (simulate_fill s price side depth (some q')).fill
        (simulate_fill s price side depth (some q)).fill
simulate_fill_size s price side depth q q' h =
    rw
      (
        (fill-slippage s price side depth (some q)).0,
        (fill-slippage s price side depth (some q')).0,
      )
      (fill_mono s side price _ _ (slippage_mono s price side depth q q' h))

quantize4_grid : (k : ℕ) → quantize4 (k * tick4) ≡ k * tick4
unfolding quantize4
quantize4_grid k = rw (round_half_even_exact k tick4 (omega arith))

round_tick_grid :
    (s : FillSettings) (ticks grid : ℕ)
    → 0 < grid
    → s.paper_tick_size ≡ grid * tick4
    → round_tick s (ticks * (grid * tick4) * bps_one) ≡ ticks * (grid * tick4)
unfolding round_tick
round_tick_grid s ticks grid h e =
    let on : (s.paper_tick_size == 0) ≡ false = ground arith in
    let assoc : ticks * (grid * tick4) * bps_one ≡ ticks * (grid * tick4 * bps_one) = omega arith in
    let regroup : ticks * (grid * tick4) ≡ ticks * grid * tick4 = omega arith in
    rw on (
      rw e (
        rw assoc (
          rw (round_half_up_exact ticks (grid * tick4 * bps_one) (omega arith))
            (rw regroup (quantize4_grid (ticks * grid))))))

price_after_bps_pays :
    (side : OrderSide) (price b : ℕ)
    → NoBetter side (price_after_bps price side b) (price * bps_one)
unfolding price_after_bps
price_after_bps_pays buy price b = mul_mono price bps_one (bps_one + b) (omega arith)
price_after_bps_pays sell price b = mul_mono price (bps_one - b) bps_one (omega arith)

round_tick_pays :
    (s : FillSettings) (side : OrderSide) (price on_grid raw : ℕ)
    → round_tick s raw ≡ on_grid
    → NoBetter side price raw
    → NoBetter side (round_tick s price) on_grid
round_tick_pays s buy price on_grid raw e h = rw e at (round_tick_mono s raw price h)
round_tick_pays s sell price on_grid raw e h = rw e at (round_tick_mono s price raw h)

-- On the tick grid the trader always pays: a reference on a grid of whole ten-thousandths is
-- filled at or above by a buy, and at or below by a sell.
pub simulate_fill_pays :
    (s : FillSettings) (ticks grid : ℕ) (side : OrderSide) (depth : Option Depth)
    (quantity : Option ℕ)
    → 0 < grid
    → s.paper_tick_size ≡ grid * tick4
    → NoBetter side
        (simulate_fill s (ticks * (grid * tick4)) side depth quantity).fill
        (ticks * (grid * tick4))
simulate_fill_pays s ticks grid side depth quantity h e =
    let price : ℕ = ticks * (grid * tick4) in
    rw (fill-slippage s price side depth quantity).0 (
      round_tick_pays s side _ price (price * bps_one) (round_tick_grid s ticks grid h e)
        (price_after_bps_pays side price _))
