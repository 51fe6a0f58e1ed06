-- ===== src/Broker/Fill.antt =====
-- How a simulated fill is priced (backend/app/broker/paper_broker.py). A price after slippage is
-- exact, in units of 1e-20 rupee, until it is rounded to the tick grid.
pub mod Adverse
use ln_trading_app.Prelude.{
  Bool, Option, if◌then◌else◌, none, some, true, ℕ, ◌*◌, ◌+◌, ◌-◌, ◌/◌, ◌==◌,
}
use ln_trading_app.Broker.Depth.{Depth, spread_bps}
use ln_trading_app.Money.{OrderSide, buy, quantize4, rupee, sell, tick4}
use ln_trading_app.Prelude.Round.{maximum, minimum, round_half_even, round_half_up}

-- The settings of backend/app/core/config.py that the fill model reads.
pub record FillSettings : Type 0 where
  pub paper_slippage_bps : ℕ
  pub paper_tick_size : ℕ
  pub paper_spread_fill_enabled : Bool
  pub paper_impact_k_bps : ℕ
  pub paper_impact_cap_bps : ℕ
  pub paper_slippage_max_bps : ℕ

-- The defaults: 2 bps, a tick of 0.05, 5 bps of impact, capped at 50, and 500 in all.
abbrev pub default_fill_settings : FillSettings
default_fill_settings = record {
  paper_slippage_bps = 2 * rupee;
  paper_tick_size = 5_000_000;
  paper_spread_fill_enabled = true;
  paper_impact_k_bps = 5 * rupee;
  paper_impact_cap_bps = 50 * rupee;
  paper_slippage_max_bps = 500 * rupee;
}

-- `_BPS`, with the eight places of a basis point
abbrev pub bps_one : ℕ
bps_one = 1_000_000_000_000

-- `price * (1 ± bps / 10000)`; at zero bps it is the price itself.
unfoldable pub price_after_bps : ℕ → OrderSide → ℕ → ℕ
price_after_bps price buy bps = price * (bps_one + bps)
price_after_bps price sell bps = price * (bps_one - bps)

-- `_round_tick`, of a price in units of 1e-20
unfoldable pub round_tick : FillSettings → ℕ → ℕ
round_tick settings price =
    if settings.paper_tick_size == 0
    then round_half_even price (bps_one * tick4) * tick4
    else quantize4
        (round_half_up price (settings.paper_tick_size * bps_one) * settings.paper_tick_size)

pub data Model : Type 0 where
  spread flat : Model

pub record FillModel : Type 0 where
  pub model : Model
  pub reference : ℕ
  pub fill : ℕ
  pub slippage_bps : ℕ
  pub baseline_bps : ℕ
  pub half_spread_bps : ℕ
  pub impact_bps : ℕ
  pub fill_bid : Option ℕ
  pub fill_ask : Option ℕ
  pub top_qty : Option ℕ
  pub fill_quantity : Option ℕ

-- The size resting on the side that the order takes
abbrev pub taken_qty : Depth → OrderSide → ℕ
taken_qty depth buy = depth.ask_qty
taken_qty depth sell = depth.bid_qty

unfoldable pub impact_of : FillSettings → Depth → OrderSide → Option ℕ → ℕ
impact_of settings depth side none = 0
impact_of settings depth side (some quantity) =
    if quantity == 0
    then 0
    else if taken_qty depth side == 0
    then settings.paper_impact_cap_bps
    else minimum (round_half_even (settings.paper_impact_k_bps * quantity) (taken_qty depth side))
        settings.paper_impact_cap_bps

-- The total of `spread_aware_bps`; its other two results are `spread_bps / 2` and `impact_of`.
unfoldable pub spread_aware_bps : FillSettings → Depth → OrderSide → Option ℕ → ℕ
unfolding impact_of
spread_aware_bps settings depth side quantity = maximum settings.paper_slippage_bps (
    minimum (spread_bps depth / 2 + impact_of settings depth side quantity)
      settings.paper_slippage_max_bps)

abbrev pub flat_fill : FillSettings → ℕ → OrderSide → Option ℕ → FillModel
flat_fill settings base_price side quantity = record {
  model = flat;
  reference = base_price;
  fill = round_tick settings (price_after_bps base_price side settings.paper_slippage_bps);
  slippage_bps = settings.paper_slippage_bps;
  baseline_bps = settings.paper_slippage_bps;
  half_spread_bps = 0;
  impact_bps = 0;
  fill_bid = none;
  fill_ask = none;
  top_qty = none;
  fill_quantity = quantity;
}

abbrev pub spread_fill : FillSettings → ℕ → OrderSide → Depth → Option ℕ → FillModel
spread_fill settings base_price side depth quantity = record {
  model = spread;
  reference = base_price;
  fill =
      round_tick settings
        (price_after_bps base_price side (spread_aware_bps settings depth side quantity));
  slippage_bps = spread_aware_bps settings depth side quantity;
  baseline_bps = settings.paper_slippage_bps;
  half_spread_bps = spread_bps depth / 2;
  impact_bps = impact_of settings depth side quantity;
  fill_bid = some depth.bid;
  fill_ask = some depth.ask;
  top_qty = some (taken_qty depth side);
  fill_quantity = quantity;
}

unfoldable pub simulate_fill : FillSettings → ℕ → OrderSide → Option Depth → Option ℕ → FillModel
simulate_fill settings base_price side none quantity = flat_fill settings base_price side quantity
simulate_fill settings base_price side (some depth) quantity =
    if settings.paper_spread_fill_enabled
    then spread_fill settings base_price side depth quantity
    else flat_fill settings base_price side quantity
