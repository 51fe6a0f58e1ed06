-- ===== src/Broker/OutcomeRecorder/Settled.antt =====
-- Tables on which a touch has nothing left to do.
use ln_trading_app.Prelude.{
  All, Bool-cases, List, Option, Option-cases, [], any, ap, arith, false, inl, inr, none, refl,
  some, sym, true, ℕ, ◌<◌, ◌==◌, ◌||◌, ◌∙◌, ◌∷◌, ◌≡◌, ◌⊎◌,
}
use ln_trading_app.Broker.OutcomeRecorder.{Touch, record_touch}
use ln_trading_app.Signals.Outcomes.{
  Outcome, TouchSource, apply_touch, can_resolve, ensure_outcome_row, entry_zone, has_signal,
  other_source, resolve, seed, sl_touch, touch_row, tp_touch,
}
use ln_trading_app.Signals.Outcomes.Settled.{
  IsLate, IsSettled, settled-touch_row, touch_row-IsLate, touch_row-IsSettled, touch_row-keeps,
}

abbrev pub touched_by : Touch → List Outcome → List Outcome
touched_by t rows = apply_touch t.touch_signal t.touch_source t.touch_ts t.touch_price rows

abbrev pub RowSettled : Touch → Outcome → Type 0
RowSettled t r =
    has_signal t.touch_signal r ≡ true → IsSettled t.touch_source t.touch_ts t.touch_price r

touch_row-signal :
    (source : TouchSource) (ts price : ℕ) (r : Outcome)
    → (touch_row source ts price r).of_signal ≡ r.of_signal
unfolding touch_row resolve
touch_row-signal entry_zone ts price r = refl
touch_row-signal sl_touch ts price r = elim (Bool-cases (can_resolve ts r)) [
  | inl ready ↦ simp ready refl
  | inr early ↦ simp early refl
]
touch_row-signal tp_touch ts price r = elim (Bool-cases (can_resolve ts r)) [
  | inl ready ↦ simp ready refl
  | inr early ↦ simp early refl
]
touch_row-signal other_source ts price r = refl

pub touched_by-signals :
    (t : Touch) (signal : ℕ) (rows : List Outcome)
    → any (has_signal signal) (touched_by t rows) ≡ any (has_signal signal) rows
unfolding apply_touch
touched_by-signals t signal [] = refl
touched_by-signals t signal (r ∷ rows) =
    let rest = touched_by-signals t signal rows in
    elim (Bool-cases (has_signal t.touch_signal r)) [
      | inl same ↦ rw same (
          ap (λ id. (id == signal) || any (has_signal signal) (touched_by t rows))
            (touch_row-signal t.touch_source t.touch_ts t.touch_price r)
          ∙ ap (λ b. (r.of_signal == signal) || b) rest)
      | inr different ↦ rw different (ap (λ b. (r.of_signal == signal) || b) rest)
    ]

pub touched_by-All : (t : Touch) (rows : List Outcome) → All (RowSettled t) (touched_by t rows)
unfolding apply_touch
touched_by-All t [] = tt
touched_by-All t (r ∷ rows) = elim (Bool-cases (has_signal t.touch_signal r)) [
  | inl same ↦
      rw same (
        λ own. touch_row-IsSettled t.touch_source t.touch_ts t.touch_price r,
        touched_by-All t rows,
      )
  | inr different ↦
      rw different (λ own. absurd (true_false (sym own ∙ different)), touched_by-All t rows)
]
  where
    true_false : ¬ (true ≡ false)
    true_false e = ground arith

pub touched_by-keeps :
    (t t' : Touch) (rows : List Outcome)
    → t.touch_ts < t'.touch_ts
    → All IsLate rows
    → All (RowSettled t) rows
    → All (RowSettled t) (touched_by t' rows)
unfolding apply_touch
touched_by-keeps t t' [] h late all = tt
touched_by-keeps t t' (r ∷ rows) h (r_late, late) (here, all) =
    let rest = touched_by-keeps t t' rows h late all in
    elim (Bool-cases (has_signal t'.touch_signal r)) [
      | inl same ↦ rw same (
        λ own.
            touch_row-keeps t.touch_source t'.touch_source t.touch_ts t'.touch_ts t.touch_price
              t'.touch_price r h r_late
              (here (
                ap (λ id. id == t.touch_signal)
                  (sym (touch_row-signal t'.touch_source t'.touch_ts t'.touch_price r))
                ∙ own)),
        rest,
      )
      | inr different ↦ rw different (here, rest)
    ]

pub touched_by-IsLate :
    (t : Touch) (rows : List Outcome) → All IsLate rows → All IsLate (touched_by t rows)
unfolding apply_touch
touched_by-IsLate t [] late = tt
touched_by-IsLate t (r ∷ rows) (r_late, late) = elim (Bool-cases (has_signal t.touch_signal r)) [
  | inl same ↦ rw same (
    touch_row-IsLate t.touch_source t.touch_ts t.touch_price r r_late,
    touched_by-IsLate t rows late,
  )
  | inr different ↦ rw different (r_late, touched_by-IsLate t rows late)
]

module _ (validity : ℕ → Option ℕ) where
  -- The signal has no row and is unknown, or its rows are settled.
  abbrev pub TableSettled : Touch → List Outcome → Type 0
  TableSettled t rows =
      (any (has_signal t.touch_signal) rows ≡ false → validity t.touch_signal ≡ none)
      × All (RowSettled t) rows

  change-same :
      (t : Touch) (rows : List Outcome) → All (RowSettled t) rows → touched_by t rows ≡ rows
  unfolding apply_touch
  change-same t [] all = refl
  change-same t (r ∷ rows) (here, all) =
      let rest = change-same t rows all in
      elim (Bool-cases (has_signal t.touch_signal r)) [
        | inl same ↦ rw same (
            ap (λ x. x ∷ touched_by t rows)
              (settled-touch_row t.touch_source t.touch_ts t.touch_price r (here same))
            ∙ ap (λ xs. r ∷ xs) rest)
        | inr different ↦ rw different (ap (λ xs. r ∷ xs) rest)
      ]

  -- What the call makes of the table, by the three ways it goes
  pub record_touch_cases :
      (t : Touch) (rows : List Outcome)
      → ((any (has_signal t.touch_signal) rows ≡ true)
          × (record_touch validity t rows ≡ touched_by t rows))
        ⊎ ((any (has_signal t.touch_signal) rows ≡ false)
            × (((validity t.touch_signal ≡ none) × (record_touch validity t rows ≡ rows))
                ⊎ ((until : ℕ) × ((validity t.touch_signal ≡ some until)
                      × (record_touch validity t rows
                          ≡ touched_by t (seed t.touch_signal until ∷ rows))))))
  unfolding record_touch ensure_outcome_row
  record_touch_cases t rows = elim (Bool-cases (any (has_signal t.touch_signal) rows)) [
    | inl there ↦ inl (there, rw there refl)
    | inr missing ↦ elim (Option-cases (validity t.touch_signal)) [
      | inl absent ↦ inr (missing, inl (absent, rw (missing, absent) refl))
      | inr (until, present) ↦ inr (missing, inr (until, (present, rw (missing, present) refl)))
    ]
  ]

  pub settled-record_touch :
      (t : Touch) (rows : List Outcome) → TableSettled t rows → record_touch validity t rows ≡ rows
  settled-record_touch t rows (absent, all) = elim (record_touch_cases t rows) [
    | inl (there, e) ↦ e ∙ change-same t rows all
    | inr (missing, inl (gone, e)) ↦ e
    | inr (missing, inr (until, (present, e))) ↦ absurd (clash (sym (absent missing) ∙ present))
  ]
    where
      clash : {x : ℕ} → ¬ (none ≡ some x)
      clash e = ground arith
