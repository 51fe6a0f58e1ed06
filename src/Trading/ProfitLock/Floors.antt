-- ===== src/Trading/ProfitLock/Floors.antt =====
-- The order of stops by how much they protect.
use ln_trading_app.Prelude.{arith, ℕ}
use ln_trading_app.Money.{Side, long, short}
use ln_trading_app.Trading.TrailSl.{NoLooser}

pub NoLooser-refl : (side : Side) (a : ℕ) → NoLooser side a a
NoLooser-refl long a = omega arith
NoLooser-refl short a = omega arith

pub NoLooser-trans :
    (side : Side) (a b c : ℕ) → NoLooser side a b → NoLooser side b c → NoLooser side a c
NoLooser-trans long a b c h k = omega arith
NoLooser-trans short a b c h k = omega arith
