-- ===== src/Clock.antt =====
-- Instants and the Indian trading day. An instant is a count of microseconds since
-- 1970-01-01T00:00Z, an aware `datetime`; IST is five and a half hours ahead with no daylight
-- saving. A date is its number of days since 1970-01-01, which was a Thursday.
use ln_trading_app.Prelude.{ℕ, ◌%◌, ◌+◌, ◌/◌}

abbrev pub second : ℕ
second = 1_000_000

abbrev pub minute : ℕ
minute = 60_000_000

abbrev pub day : ℕ
day = 86_400_000_000

-- `ZoneInfo("Asia/Kolkata")`
abbrev pub ist_offset : ℕ
ist_offset = 19_800_000_000

-- `now.astimezone(_IST).date()`
abbrev pub ist_date : ℕ → ℕ
ist_date now = (now + ist_offset) / day

-- The wall time in IST, as microseconds past midnight
abbrev pub ist_time : ℕ → ℕ
ist_time now = (now + ist_offset) % day

abbrev pub utc_date : ℕ → ℕ
utc_date now = now / day

-- `date.weekday()`: Monday is 0.
abbrev pub weekday : ℕ → ℕ
weekday date = (date + 3) % 7
