-- ===== src/Signals/Calendar/Walk.antt =====
-- The loop over calendar days.
use ln_trading_app.Prelude.{
  Bool, Bool-cases, ap, arith, false, if◌then◌else◌, inl, inr, leb, leb→le, length, refl, some, suc,
  sym, zero, ℕ, ◌%◌, ◌*◌, ◌+◌, ◌-◌, ◌/◌, ◌<◌, ◌==◌, ◌∙◌, ◌≡◌, ◌≤◌,
}
use ln_trading_app.Clock.{day, utc_date, weekday}
use ln_trading_app.Signals.Calendar.{
  add_trading_days, holidays_between, span, trades, trading_date_after, trading_days_between,
  trading_days_from, walk, walk_fuel,
}

-- Days up to the next weekday
abbrev gap : ℕ → ℕ
gap d = if weekday d == 4 then 3 else if weekday d == 5 then 2 else 1

module _ (holidays : ℕ → Bool) (last : ℕ)
    (none_after : (d : ℕ) → last < d → holidays d ≡ false) where
  walk_past :
      (fuel remaining d : ℕ)
      → last ≤ d
      → 3 * remaining + gap d ≤ fuel + 3
      → (e : ℕ) × (walk holidays fuel remaining d ≡ some e)
  unfolding walk
  walk_past fuel zero d h k = (d, refl)
  walk_past zero (suc remaining) d h k = absurd (ground arith)
  walk_past (suc fuel) (suc remaining) d h k = elim (Bool-cases (trades holidays (d + 1))) [
    | inl trading ↦
        rw (walk, trading) (walk_past fuel remaining (d + 1) (omega arith) (ground arith))
    | inr idle ↦
        rw (walk, idle)
          (walk_past fuel (suc remaining) (d + 1) (omega arith)
            (ground (arith, none_after (d + 1) (omega arith))))
  ]

  -- With a step for each day of the window and three for each trading day, the loop ends.
  walk_ends :
      (fuel remaining d : ℕ)
      → last + 3 * remaining ≤ fuel + d
      → 3 * remaining ≤ fuel
      → (e : ℕ) × (walk holidays fuel remaining d ≡ some e)
  unfolding walk
  walk_ends fuel zero d h k = (d, refl)
  walk_ends zero (suc remaining) d h k = absurd (omega arith)
  walk_ends (suc fuel) (suc remaining) d h k = elim (Bool-cases (leb last d)) [
    | inl past ↦ walk_past (suc fuel) (suc remaining) d (leb→le last d past) (ground arith)
    | inr before ↦ elim (Bool-cases (trades holidays (d + 1))) [
      | inl trading ↦
          rw (walk, trading) (walk_ends fuel remaining (d + 1) (omega arith) (omega arith))
      | inr idle ↦
          rw (walk, idle) (walk_ends fuel (suc remaining) (d + 1) (omega arith) (ground arith))
    ]
  ]

-- The loop that ends has passed as many trading days as it was asked for.
walk_counts :
    (holidays : ℕ → Bool) (fuel remaining d e : ℕ)
    → walk holidays fuel remaining d ≡ some e
    → (count : ℕ) × (e ≡ d + count)
      × (length (trading_days_from holidays count (d + 1)) ≡ remaining)
unfolding walk trading_days_from
walk_counts holidays fuel zero d e h = (0, ground arith, refl)
walk_counts holidays zero (suc remaining) d e h = absurd (ground arith)
walk_counts holidays (suc fuel) (suc remaining) d e h =
    elim (Bool-cases (trades holidays (d + 1))) [
      | inl trading ↦
          let (count, sum, len) =
            walk_counts holidays fuel remaining (d + 1) e (rw (walk, trading) at h) in
          (suc count, omega arith, rw (trading_days_from, trading) (ap suc len))
      | inr idle ↦
          let (count, sum, len) =
            walk_counts holidays fuel (suc remaining) (d + 1) e (rw (walk, idle) at h) in
          (suc count, omega arith, rw (trading_days_from, idle) len)
    ]

-- Windows that agree on the days counted count the same.
days_same :
    (a b : ℕ → Bool) (count cur : ℕ)
    → ((d : ℕ) → cur ≤ d → d < cur + count → a d ≡ b d)
    → trading_days_from a count cur ≡ trading_days_from b count cur
unfolding trading_days_from
days_same a b zero cur same = refl
days_same a b (suc count) cur same =
    let rest = days_same a b count (cur + 1) (λ d h k. same d (omega arith) (omega arith)) in
    rw (trading_days_from, same cur (omega arith) (omega arith)) (rw rest refl)

-- The calendar never loops for ever: whatever the holidays table holds, the date that lies some
-- trading days after a date is found with the fuel given.
pub trading_date_after_ends :
    (holiday : ℕ → Bool) (date n : ℕ) → (e : ℕ) × (trading_date_after holiday date n ≡ some e)
unfolding trading_date_after
trading_date_after_ends holiday date n =
    walk_ends (holidays_between holiday date (date + span n)) (date + span n) (λ d h. ground arith)
      (walk_fuel n) n date (omega arith) (omega arith)

holidays_in :
    (holiday : ℕ → Bool) (first last d : ℕ)
    → first ≤ d
    → d ≤ last
    → holidays_between holiday first last d ≡ holiday d
holidays_in holiday first last d h k = elim (Bool-cases (holiday d)) [
  | inl closed_day ↦ rw closed_day (ground arith)
  | inr open_day ↦ rw open_day refl
]

-- Inside the window of its holiday query, the date found is as many trading days later as was
-- asked: counted by `trading_days_between`, over the days after the first date up to it.
pub trading_date_after-trading_days_between :
    (holiday : ℕ → Bool) (date n e : ℕ)
    → trading_date_after holiday date n ≡ some e
    → e ≤ date + span n
    → length (trading_days_between holiday (date + 1) e) ≡ n
unfolding trading_date_after trading_days_between
trading_date_after-trading_days_between holiday date n e h within =
    let (count, sum, len) =
      walk_counts (holidays_between holiday date (date + span n)) (walk_fuel n) n date e h in
    let exact : e + 1 - (date + 1) ≡ count = omega arith in
    rw exact (
      rw
        (days_same (holidays_between holiday (date + 1) e)
          (holidays_between holiday date (date + span n)) count (date + 1)
          (λ d low high.
            holidays_in holiday (date + 1) e d low (omega arith)
            ∙ sym (holidays_in holiday date (date + span n) d (omega arith) (omega arith))))
        len)

counted_later :
    (holidays : ℕ → Bool) (date e count n : ℕ)
    → e ≡ date + count
    → length (trading_days_from holidays count (date + 1)) ≡ suc n
    → date < e
unfolding trading_days_from
counted_later holidays date e zero n sum len = absurd (ground arith)
counted_later holidays date e (suc count) n sum len = omega arith

-- The instant that `add_trading_days` gives: a later date, at the same time of day.
pub add_trading_days_later :
    (holiday : ℕ → Bool) (start n : ℕ)
    → (e : ℕ) × (utc_date start < e)
      × (add_trading_days holiday start (suc n) ≡ some (e * day + start % day))
unfolding add_trading_days trading_date_after trading_days_from
add_trading_days_later holiday start n =
    let date : ℕ = start / day in
    let (e, found) = trading_date_after_ends holiday date (suc n) in
    let window : ℕ → Bool = holidays_between holiday date (date + span (suc n)) in
    let (count, sum, len) = walk_counts window (walk_fuel (suc n)) (suc n) date e found in
    (e, counted_later window date e count n sum len, rw (add_trading_days, found) refl)
