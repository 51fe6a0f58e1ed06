-- ===== src/Signals/Calendar.antt =====
-- Trading-day arithmetic (backend/app/services/market_calendar.py) and the validity of a signal
-- (backend/app/signals/expiry.py). `holiday` is the holidays table; a query for a window sees the
-- holidays in it. A loop over days has fuel.
pub mod LastDays
pub mod Back
pub mod Validity
pub mod Walk
use ln_trading_app.Prelude.{
  Bool, List, Option, [], false, if◌then◌else◌, leb, ltb, none, not, some, suc, zero, ℕ, ◌%◌, ◌&&◌,
  ◌*◌, ◌+◌, ◌-◌, ◌∷◌,
}
use ln_trading_app.Clock.{day, minute, utc_date, weekday}
use ln_trading_app.Money.{Classification, intraday, positional, scalp, swing}

-- `_holidays_between`
abbrev pub holidays_between : (ℕ → Bool) → ℕ → ℕ → ℕ → Bool
holidays_between holiday first last d = holiday d && (leb first d && leb d last)

-- `d.weekday() <= 4 and d not in holidays`
abbrev pub trades : (ℕ → Bool) → ℕ → Bool
trades holidays d = leb (weekday d) 4 && not (holidays d)

unfoldable pub is_trading_day : (ℕ → Bool) → ℕ → Bool
is_trading_day holiday d = if ltb 4 (weekday d) then false else not (holiday d)

-- `while remaining > 0`; `none` is a loop that did not end in time.
unfoldable pub walk : (ℕ → Bool) → ℕ → ℕ → ℕ → Option ℕ
walk holidays fuel zero d = some d
walk holidays zero (suc remaining) d = none
walk holidays (suc fuel) (suc remaining) d =
    let rest : ℕ = if trades holidays (d + 1) then remaining else suc remaining in
    walk holidays fuel rest (d + 1)

-- The days of the holiday query
abbrev pub span : ℕ → ℕ
span n = n * 3 + 10

-- Past the window only weekends stop the loop, and of three days in a row one is no weekend.
abbrev pub walk_fuel : ℕ → ℕ
walk_fuel n = span n + 3 * n

-- The date `n` trading days after a date
unfoldable pub trading_date_after : (ℕ → Bool) → ℕ → ℕ → Option ℕ
unfolding walk
trading_date_after holiday date n =
    walk (holidays_between holiday date (date + span n)) (walk_fuel n) n date

-- `n < 1` is a ValueError, and `none` too.
unfoldable pub add_trading_days : (ℕ → Bool) → ℕ → ℕ → Option ℕ
unfolding trading_date_after
add_trading_days holiday start zero = none
add_trading_days holiday start (suc n) =
    elim (trading_date_after holiday (utc_date start) (suc n)) [
      | none ↦ none
      | some d ↦ some (d * day + start % day)
    ]

-- `next_trading_day`: the date one trading day after midnight UTC of a date
unfoldable pub next_trading_day : (ℕ → Bool) → ℕ → Option ℕ
unfolding add_trading_days
next_trading_day holiday d = elim (add_trading_days holiday (d * day) 1) [
  | none ↦ none
  | some target ↦ some (utc_date target)
]

-- `while cur.weekday() > 4 or cur in holidays`, back from a day; `none` is a loop that did not end in
-- time.
unfoldable pub walk_back : (ℕ → Bool) → ℕ → ℕ → Option ℕ
walk_back holidays zero cur = none
walk_back holidays (suc fuel) cur =
    let earlier = walk_back holidays fuel (cur - 1) in
    if trades holidays cur then some cur else earlier

-- The thirty days of the query, and three more, of which one is no weekend
abbrev pub back_fuel : ℕ
back_fuel = 33

unfoldable pub prev_trading_day : (ℕ → Bool) → ℕ → Option ℕ
prev_trading_day holiday d = walk_back (holidays_between holiday (d - 30) d) back_fuel (d - 1)

-- `while len(days) < n`, back from a day; the list is in the order that `days.reverse()` gives.
unfoldable pub collect_back : (ℕ → Bool) → ℕ → ℕ → ℕ → List ℕ → Option (List ℕ)
collect_back holidays fuel zero cur days = some days
collect_back holidays zero (suc remaining) cur days = none
collect_back holidays (suc fuel) (suc remaining) cur days =
    let rest : ℕ = if trades holidays cur then remaining else suc remaining in
    let found : List ℕ = if trades holidays cur then cur ∷ days else days in
    collect_back holidays fuel rest (cur - 1) found

unfoldable pub last_n_trading_days : (ℕ → Bool) → ℕ → ℕ → Option (List ℕ)
last_n_trading_days holiday end n =
    collect_back (holidays_between holiday (end - span n) end) (walk_fuel n + 1) n end []

-- The trading days among `count` days from a day on, and those of `[start, end]`
unfoldable pub trading_days_from : (ℕ → Bool) → ℕ → ℕ → List ℕ
trading_days_from holidays zero cur = []
trading_days_from holidays (suc count) cur =
    let rest = trading_days_from holidays count (cur + 1) in
    if trades holidays cur then cur ∷ rest else rest

unfoldable pub trading_days_between : (ℕ → Bool) → ℕ → ℕ → List ℕ
unfolding trading_days_from
trading_days_between holiday start end =
    trading_days_from (holidays_between holiday start end) (end + 1 - start) start

-- `VALIDITY_TRADING_DAYS`
abbrev pub validity_trading_days : Classification → Option ℕ
validity_trading_days swing = some 5
validity_trading_days positional = some 30
validity_trading_days _ = none

unfoldable pub validity_offset_days : (ℕ → Bool) → Classification → ℕ → Option ℕ
unfolding add_trading_days
validity_offset_days holiday c created_at = elim (validity_trading_days c) [
  | none ↦ some 0
  | some n ↦ elim (add_trading_days holiday created_at n) [
    | none ↦ none
    | some target ↦ some (utc_date target - utc_date created_at)
  ]
]

-- 09:45 UTC of the date
abbrev pub intraday_cutoff : ℕ → ℕ
intraday_cutoff created_at = utc_date created_at * day + 585 * minute

-- `none` is the ValueError of an unknown classification.
unfoldable pub compute_validity_until : Classification → ℕ → ℕ → Option ℕ
compute_validity_until scalp created_at offset = some (created_at + 30 * minute)
compute_validity_until intraday created_at offset = some (
    if ltb (intraday_cutoff created_at) created_at
    then intraday_cutoff created_at + day
    else intraday_cutoff created_at)
compute_validity_until swing created_at offset =
    some (created_at + (if ltb 0 offset then offset else 7) * day)
compute_validity_until positional created_at offset =
    some (created_at + (if ltb 0 offset then offset else 42) * day)
compute_validity_until _ created_at offset = none

abbrev pub is_expired : ℕ → ℕ → Bool
is_expired validity_until now = leb validity_until now
