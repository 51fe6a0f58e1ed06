-- ===== src/Trading/CircuitBreaker/Limits.antt =====
-- What a user who passes the breaker has left, and which rows count.
use ln_trading_app.Prelude.{List, arith, none, true, ℕ, ◌*◌, ◌+◌, ◌<◌, ◌≡◌, ◌≤◌}
use ln_trading_app.Clock.{day, ist_date}
use ln_trading_app.Prelude.Int.{neg_part, pos_part}
use ln_trading_app.Trading.CircuitBreaker.{
  PnlRow, RiskLimits, check_circuit_breaker, day_start_utc, get_daily_realized_pnl,
  get_trades_taken_today, in_window, limit_scaled, loss_reached,
}

-- The window is the part of the Indian day that has passed: it starts at most a day ago, and an
-- instant up to now lies in it exactly if it has the Indian date of now, from the second day of 1970 on.
pub in_window_iff :
    (now t : ℕ)
    → day ≤ now
    → t ≤ now
    → (in_window now t ≡ true → ist_date t ≡ ist_date now)
      × (ist_date t ≡ ist_date now → in_window now t ≡ true)
unfolding day_start_utc
in_window_iff now t h k = (λ e. ground arith, λ e. ground arith)

-- The breaker passes a user exactly if the day's result lies above the negative limit and there is
-- a trade left.
pub check_circuit_breaker_passes :
    (now : ℕ) (user : RiskLimits) (rows : List PnlRow)
    → let pnl = get_daily_realized_pnl now user.id rows in
      let passes = check_circuit_breaker now user rows ≡ none in
      let above =
        (neg_part pnl * 10_000 < limit_scaled user + pos_part pnl * 10_000)
        × (get_trades_taken_today now user.id rows < user.max_trades_per_day) in
      (passes → above) × (above → passes)
unfolding check_circuit_breaker loss_reached
check_circuit_breaker_passes now user rows = (λ h. ground arith, λ h. ground arith)
