-- ===== src/Trading/MarketHours.antt =====
-- The regular session that the position monitor acts in (backend/app/trading/market_hours.py).
use ln_trading_app.Prelude.{
  Bool, arith, false, if◌then◌else◌, leb, ltb, true, ℕ, ◌&&◌, ◌*◌, ◌≡◌, ◌≤◌,
}
use ln_trading_app.Clock.{ist_date, ist_time, minute, utc_date, weekday}

abbrev pub session_open : ℕ
session_open = 555 * minute

abbrev pub session_close : ℕ
session_close = 930 * minute

unfoldable pub is_market_session : ℕ → Bool
is_market_session now =
    if ltb 4 (weekday (ist_date now))
    then false
    else leb session_open (ist_time now) && leb (ist_time now) session_close

-- Inside the session the Indian date is the UTC date, and it is no weekend.
pub session-date :
    (now : ℕ)
    → is_market_session now ≡ true
    → (ist_date now ≡ utc_date now) × (weekday (utc_date now) ≤ 4)
unfolding is_market_session
session-date now h = ground arith
