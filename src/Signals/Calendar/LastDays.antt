-- ===== src/Signals/Calendar/LastDays.antt =====
-- The loop that collects the last trading days up to a date.
use ln_trading_app.Prelude.{
  All, Bool, Bool-cases, List, [], arith, false, if◌then◌else◌, inl, inr, leb, length, refl, some,
  suc, true, zero, ℕ, ◌*◌, ◌+◌, ◌-◌, ◌<◌, ◌==◌, ◌∷◌, ◌≡◌, ◌≤◌,
}
use ln_trading_app.Clock.{weekday}
use ln_trading_app.Signals.Calendar.{
  collect_back, holidays_between, last_n_trading_days, span, trades, walk_fuel,
}

-- Days back to the nearest weekday, the day itself included
abbrev gap_back : ℕ → ℕ
gap_back d = if weekday d == 6 then 3 else if weekday d == 5 then 2 else 1

-- The days that the loop has added trade, and there are as many as it was to find.
abbrev pub Collected : (ℕ → Bool) → ℕ → List ℕ → List ℕ → Type 0
Collected holidays remaining days found =
    (length found ≡ length days + remaining)
    × (All (λ (d : ℕ). trades holidays d ≡ true) days
        → All (λ (d : ℕ). trades holidays d ≡ true) found)

module _ (holidays : ℕ → Bool) (first : ℕ)
    (none_before : (d : ℕ) → d < first → holidays d ≡ false) where
  collect_past :
      (fuel remaining cur : ℕ) (days : List ℕ)
      → cur < first
      → fuel ≤ cur + 1
      → 3 * remaining + gap_back cur ≤ fuel + 3
      → (found : List ℕ) × ((collect_back holidays fuel remaining cur days ≡ some found)
          × Collected holidays remaining days found)
  unfolding collect_back
  collect_past fuel zero cur days a b c = (days, (refl, (omega arith, λ all. all)))
  collect_past zero (suc remaining) cur days a b c = absurd (ground arith)
  collect_past (suc fuel) (suc remaining) cur days a b c = elim (Bool-cases (trades holidays cur)) [
    | inl trading ↦
        let (found, (made, (size, good))) =
          collect_past fuel remaining (cur - 1) (cur ∷ days) (omega arith) (omega arith)
            (ground arith) in
        (found, (rw (collect_back, trading) made, (omega arith, λ all. good (trading, all))))
    | inr idle ↦
        let (found, (made, (size, good))) =
          collect_past fuel (suc remaining) (cur - 1) days (omega arith) (omega arith)
            (ground (arith, none_before cur a)) in
        (found, (rw (collect_back, idle) made, (size, good)))
  ]

  collect_ends :
      (fuel remaining cur : ℕ) (days : List ℕ)
      → fuel ≤ cur + 1
      → cur + 3 * remaining < first + fuel
      → 3 * remaining ≤ fuel
      → (found : List ℕ) × ((collect_back holidays fuel remaining cur days ≡ some found)
          × Collected holidays remaining days found)
  unfolding collect_back
  collect_ends fuel zero cur days a b c = (days, (refl, (omega arith, λ all. all)))
  collect_ends zero (suc remaining) cur days a b c = absurd (omega arith)
  collect_ends (suc fuel) (suc remaining) cur days a b c = elim (Bool-cases (leb first cur)) [
    | inr past ↦
        collect_past (suc fuel) (suc remaining) cur days (ground arith) (omega arith) (ground arith)
    | inl inside ↦ elim (Bool-cases (trades holidays cur)) [
      | inl trading ↦
          let (found, (made, (size, good))) =
            collect_ends fuel remaining (cur - 1) (cur ∷ days) (omega arith) (ground arith)
              (omega arith) in
          (found, (rw (collect_back, trading) made, (omega arith, λ all. good (trading, all))))
      | inr idle ↦
          let (found, (made, (size, good))) =
            collect_ends fuel (suc remaining) (cur - 1) days (omega arith) (ground arith)
              (ground arith) in
          (found, (rw (collect_back, idle) made, (size, good)))
    ]
  ]

-- If the date lies far enough after 1970, and whatever the holidays table holds, the loop for the
-- last trading days up to it ends within the fuel given, with as many days as were asked for, all of
-- which trade by the holidays of its query.
pub last_n_trading_days_ends :
    (holiday : ℕ → Bool) (end n : ℕ)
    → walk_fuel n ≤ end
    → (found : List ℕ) × ((last_n_trading_days holiday end n ≡ some found)
        × ((length found ≡ n)
            × All (λ (d : ℕ). trades (holidays_between holiday (end - span n) end) d ≡ true) found))
unfolding last_n_trading_days
last_n_trading_days_ends holiday end n h =
    let (found, (made, (size, good))) =
      collect_ends (holidays_between holiday (end - span n) end) (end - span n)
        (λ d e. ground arith) (walk_fuel n + 1) n end [] (omega arith) (omega arith)
        (omega arith) in
    (found, (made, (omega arith, good tt)))
