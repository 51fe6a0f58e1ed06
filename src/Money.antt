-- ===== src/Money.antt =====
-- Money and the enumerations that every part shares (backend/app/models/trading.py,
-- backend/app/models/signal.py). A `Decimal` amount is a whole number of units of 1e-8 rupee, and
-- a `Numeric(_, 4)` column holds multiples of `tick4`.
use ln_trading_app.Prelude.{ℕ, ◌*◌}
use ln_trading_app.Prelude.Round.{round_half_even}

-- One rupee, and also 1 as a fixed-point ratio.
abbrev pub rupee : ℕ
rupee = 100_000_000

-- 0.0001 rupee
abbrev pub tick4 : ℕ
tick4 = 10_000

-- `x.quantize(Decimal("0.0001"))`, in the default rounding
unfoldable pub quantize4 : ℕ → ℕ
quantize4 x = round_half_even x tick4 * tick4

-- "LONG" | "SHORT"
pub data Side : Type 0 where
  long short : Side

-- "BUY" | "SELL"
pub data OrderSide : Type 0 where
  buy sell : OrderSide

-- `signal.classification`; `other` is any further string
pub data Classification : Type 0 where
  scalp intraday swing positional investment other : Classification

-- `"LONG" if side == "BUY" else "SHORT"`
abbrev pub position_side : OrderSide → Side
position_side buy = long
position_side sell = short

-- `"SELL" if position.side == "LONG" else "BUY"`
abbrev pub closing_side : Side → OrderSide
closing_side long = sell
closing_side short = buy
