-- ===== src/Signals/Calendar/Back.antt =====
-- The loop that looks for the trading day before a date.
use ln_trading_app.Prelude.{
  Bool, Bool-cases, arith, false, inl, inr, leb, refl, some, suc, true, zero, ℕ, ◌+◌, ◌-◌, ◌<◌,
  ◌==◌, ◌≡◌, ◌≢◌, ◌≤◌, ◌⊎◌,
}
use ln_trading_app.Clock.{weekday}
use ln_trading_app.Signals.Calendar.{
  back_fuel, holidays_between, prev_trading_day, trades, walk_back,
}

-- No day strictly between two trades.
abbrev pub NoneBetween : (ℕ → Bool) → ℕ → ℕ → Type 0
NoneBetween holidays p d = (q : ℕ) → p < q → q < d → trades holidays q ≡ false

-- With fuel down to a day that trades, the loop finds the last trading day up to where it starts.
walk_back_finds :
    (holidays : ℕ → Bool) (fuel cur t : ℕ)
    → t ≤ cur
    → cur < t + fuel
    → trades holidays t ≡ true
    → (p : ℕ) × ((walk_back holidays fuel cur ≡ some p)
        × ((t ≤ p) × ((p ≤ cur) × ((trades holidays p ≡ true) × NoneBetween holidays p (cur + 1)))))
unfolding walk_back
walk_back_finds holidays zero cur t h k open_day = absurd (omega arith)
walk_back_finds holidays (suc fuel) cur t h k open_day = elim (Bool-cases (trades holidays cur)) [
  | inl here ↦
      rw (walk_back, here) (cur, (refl, (h, (omega arith, (here, λ q a b. absurd (omega arith))))))
  | inr shut ↦
      let apart : t ≢ cur = λ same. absurd (differ (rw same at open_day) shut) in
      let (p, (found, (low, (high, (good, barren))))) =
        walk_back_finds holidays fuel (cur - 1) t (omega arith) (omega arith) open_day in
      (
        p,
        (
          rw (walk_back, shut) found,
          (
            low,
            (
              omega arith,
              (
                good,
                λ q a b. elim (Bool-cases (q == cur)) [
                  | inl same ↦ let e : q ≡ cur = ground arith in rw e shut
                  | inr differs ↦ barren q a (ground arith)
                ],
              ),
            ),
          ),
        ),
      )
]
  where
    differ : {b : Bool} → b ≡ true → b ≡ false → ⊥
    differ x y = ground arith

-- One of three days in a row is a weekday.
weekday_in_three :
    (d : ℕ)
    → (leb (weekday d) 4 ≡ true)
      ⊎ ((leb (weekday (d + 1)) 4 ≡ true) ⊎ (leb (weekday (d + 2)) 4 ≡ true))
weekday_in_three d = ground arith

outside-trades :
    (holiday : ℕ → Bool) (d t : ℕ)
    → t < d - 30
    → leb (weekday t) 4 ≡ true
    → trades (holidays_between holiday (d - 30) d) t ≡ true
outside-trades holiday d t h wd = ground arith

-- From the 34th day of 1970 on, and whatever the holidays table holds, the loop for the previous
-- trading day ends within the fuel given, on an earlier day that trades by the holidays of its query
-- and after which no day before the date does.
pub prev_trading_day_ends :
    (holiday : ℕ → Bool) (d : ℕ)
    → 33 ≤ d
    → (p : ℕ) × ((prev_trading_day holiday d ≡ some p)
        × ((p < d)
            × ((trades (holidays_between holiday (d - 30) d) p ≡ true)
                × NoneBetween (holidays_between holiday (d - 30) d) p d)))
unfolding prev_trading_day
prev_trading_day_ends holiday d h = elim (weekday_in_three (d - 33)) [
  | inl wd ↦ from_day (d - 33) (omega arith) (omega arith) wd
  | inr (inl wd) ↦ from_day (d - 33 + 1) (omega arith) (omega arith) wd
  | inr (inr wd) ↦ from_day (d - 33 + 2) (omega arith) (omega arith) wd
]
  where
    from_day :
        (t : ℕ)
        → d ≤ t + 33
        → t < d - 30
        → leb (weekday t) 4 ≡ true
        → (p : ℕ) × ((prev_trading_day holiday d ≡ some p)
            × ((p < d)
                × ((trades (holidays_between holiday (d - 30) d) p ≡ true)
                    × NoneBetween (holidays_between holiday (d - 30) d) p d)))
    from_day t near early wd =
        let (p, (found, (low, (high, (good, barren))))) =
          walk_back_finds (holidays_between holiday (d - 30) d) back_fuel (d - 1) t (omega arith)
            (omega arith) (outside-trades holiday d t early wd) in
        (p, (found, (omega arith, (good, λ q a b. barren q a (omega arith)))))
