-- ===== src/Trading/CircuitBreaker.antt =====
-- The daily-loss circuit breaker (backend/app/trading/circuit_breaker.py), over the rows of the
-- positions table that it reads. The breaker is generic in the row.
pub mod Limits
use ln_trading_app.Prelude.{
  Bool, List, Option, [], false, if◌then◌else◌, keep, leb, length, none, some, ℕ, ◌&&◌, ◌*◌, ◌+◌,
  ◌-◌, ◌==◌, ◌∷◌,
}
use ln_trading_app.Clock.{day, ist_date, ist_offset}
use ln_trading_app.Prelude.Int.{neg_part, pos, pos_part, ℤ, ◌+ℤ◌}

-- `_ist_date_window()[0]`, the start of the Indian day in UTC
unfoldable pub day_start_utc : ℕ → ℕ
day_start_utc now = ist_date now * day - ist_offset

abbrev pub in_window : ℕ → ℕ → Bool
in_window now t = leb (day_start_utc now) t && leb t now

-- What the breaker reads of a position.
pub record PnlRow : Type 0 where
  pub user_id : ℕ
  pub opened_at : ℕ
  pub closed_at : Option ℕ
  pub realized_pnl : ℤ

pub record RiskLimits : Type 0 where
  pub id : ℕ
  pub capital_inr : ℕ
  pub daily_loss_limit_pct : ℕ  -- in units of 0.01 percent
  pub max_trades_per_day : ℕ

abbrev pub closed_today : ℕ → ℕ → PnlRow → Bool
closed_today now user_id row =
    row.user_id == user_id && elim row.closed_at [ none ↦ false | some t ↦ in_window now t ]

abbrev pub opened_today : ℕ → ℕ → PnlRow → Bool
opened_today now user_id row = row.user_id == user_id && in_window now row.opened_at

unfoldable pub get_daily_realized_pnl : ℕ → ℕ → List PnlRow → ℤ
get_daily_realized_pnl now user_id [] = pos 0
get_daily_realized_pnl now user_id (row ∷ rows) =
    (if closed_today now user_id row then row.realized_pnl else pos 0)
    +ℤ get_daily_realized_pnl now user_id rows

unfoldable pub get_trades_taken_today : ℕ → ℕ → List PnlRow → ℕ
get_trades_taken_today now user_id rows = length (keep (opened_today now user_id) rows)

pub data BreakerReason : Type 0 where
  daily_loss_limit max_trades : BreakerReason

-- `limit_inr` is minus this over 10_000.
abbrev pub limit_scaled : RiskLimits → ℕ
limit_scaled user = user.capital_inr * user.daily_loss_limit_pct

-- `daily_pnl <= limit_inr`, multiplied by 10_000
unfoldable pub loss_reached : RiskLimits → ℤ → Bool
loss_reached user daily_pnl =
    leb (pos_part daily_pnl * 10_000 + limit_scaled user) (neg_part daily_pnl * 10_000)

unfoldable pub check_circuit_breaker : ℕ → RiskLimits → List PnlRow → Option BreakerReason
check_circuit_breaker now user rows =
    if loss_reached user (get_daily_realized_pnl now user.id rows)
    then some daily_loss_limit
    else if leb user.max_trades_per_day (get_trades_taken_today now user.id rows)
    then some max_trades
    else none
