-- ===== src/Broker/OutcomeRecorder/Touches.antt =====
-- What recording a touch settles in the table, and what later touches leave of it.
use mathlib.Core.Path.{subst}
use ln_trading_app.Prelude.{
  All, Bool, List, Option, [], any, ap, arith, false, inl, inr, none, some, sym, true, ℕ, ◌<◌, ◌||◌,
  ◌∙◌, ◌∷◌, ◌≡◌,
}
use ln_trading_app.Broker.OutcomeRecorder.{Touch, record_touch}
use ln_trading_app.Broker.OutcomeRecorder.Settled.{
  RowSettled, TableSettled, record_touch_cases, touched_by-All, touched_by-IsLate, touched_by-keeps,
  touched_by-signals,
}
use ln_trading_app.Signals.Outcomes.{Outcome, has_signal, seed}
use ln_trading_app.Signals.Outcomes.Settled.{IsLate}

nothing_is_not : {x : ℕ} → ¬ (none ≡ some x)
nothing_is_not e = ground arith

sides_differ : ¬ (true ≡ false)
sides_differ e = ground arith

seed-signal : (signal until : ℕ) → has_signal signal (seed signal until) ≡ true
unfolding seed
seed-signal signal until = ground arith

seed-of :
    (signal signal' until : ℕ) → has_signal signal (seed signal' until) ≡ true → signal ≡ signal'
unfolding seed
seed-of signal signal' until h = ground arith

seed-IsLate : (signal until : ℕ) → IsLate (seed signal until)
unfolding seed
seed-IsLate signal until = tt

or_left : (b c : Bool) → b ≡ true → (b || c) ≡ false → c ≡ true
or_left b c e h = ground arith

module _ (validity : ℕ → Option ℕ) where
  no_rows-All :
      (t : Touch) (rows : List Outcome)
      → any (has_signal t.touch_signal) rows ≡ false
      → All (RowSettled t) rows
  no_rows-All t [] h = tt
  no_rows-All t (r ∷ rows) h =
      let (here, there) = both (has_signal t.touch_signal r) _ h in
      (λ own. absurd (sides_differ (sym own ∙ here)), no_rows-All t rows there)
    where
      both : (b c : Bool) → (b || c) ≡ false → (b ≡ false) × (c ≡ false)
      both b c e = ground arith

  -- After a touch is recorded there is nothing left to do for it.
  pub record_touch-TableSettled :
      (t : Touch) (rows : List Outcome) → TableSettled validity t (record_touch validity t rows)
  record_touch-TableSettled t rows = elim (record_touch_cases validity t rows) [
    | inl (there, e) ↦ subst (TableSettled validity t) (sym e) (
      λ missing.
          absurd
            (sides_differ (sym there ∙ sym (touched_by-signals t t.touch_signal rows) ∙ missing)),
      touched_by-All t rows,
    )
    | inr (missing, inl (gone, e)) ↦
        subst (TableSettled validity t) (sym e) (λ absent. gone, no_rows-All t rows missing)
    | inr (missing, inr (until, (present, e))) ↦ subst (TableSettled validity t) (sym e) (
      λ absent. absurd (
          sides_differ (
            sym (or_true _ _ (seed-signal t.touch_signal until))
            ∙ sym (touched_by-signals t t.touch_signal (seed t.touch_signal until ∷ rows))
            ∙ absent)),
      touched_by-All t (seed t.touch_signal until ∷ rows),
    )
  ]
    where
      or_true : (b c : Bool) → b ≡ true → (b || c) ≡ true
      or_true b c e = ground arith

  -- A later touch leaves it so.
  pub record_touch-keeps :
      (t t' : Touch) (rows : List Outcome)
      → t.touch_ts < t'.touch_ts
      → All IsLate rows
      → TableSettled validity t rows
      → TableSettled validity t (record_touch validity t' rows)
  record_touch-keeps t t' rows h late (absent, all) = elim (record_touch_cases validity t' rows) [
    | inl (there, e) ↦ subst (TableSettled validity t) (sym e) (
      λ missing. absent (sym (touched_by-signals t' t.touch_signal rows) ∙ missing),
      touched_by-keeps t t' rows h late all,
    )
    | inr (missing, inl (gone, e)) ↦ subst (TableSettled validity t) (sym e) (absent, all)
    | inr (missing, inr (until, (present, e))) ↦ subst (TableSettled validity t) (sym e) (
      λ none_left. absent (
          or_right _ _ (
            sym (touched_by-signals t' t.touch_signal (seed t'.touch_signal until ∷ rows))
            ∙ none_left)),
      touched_by-keeps t t' (seed t'.touch_signal until ∷ rows) h
          (seed-IsLate t'.touch_signal until, late)
          (
            λ own. absurd (
                nothing_is_not (
                  sym (absent (no_row until own missing))
                  ∙ ap validity (seed-of t.touch_signal t'.touch_signal until own)
                  ∙ present)),
            all,
          ),
    )
  ]
    where
      or_right : (b c : Bool) → (b || c) ≡ false → c ≡ false
      or_right b c e = ground arith

      no_row :
          (until : ℕ)
          → has_signal t.touch_signal (seed t'.touch_signal until) ≡ true
          → any (has_signal t'.touch_signal) rows ≡ false
          → any (has_signal t.touch_signal) rows ≡ false
      no_row until own missing =
          subst (λ signal. any (has_signal signal) rows ≡ false)
            (sym (seed-of t.touch_signal t'.touch_signal until own)) missing

  pub record_touch-IsLate :
      (t : Touch) (rows : List Outcome)
      → All IsLate rows
      → All IsLate (record_touch validity t rows)
  record_touch-IsLate t rows late = elim (record_touch_cases validity t rows) [
    | inl (there, e) ↦ subst (All IsLate) (sym e) (touched_by-IsLate t rows late)
    | inr (missing, inl (gone, e)) ↦ subst (All IsLate) (sym e) late
    | inr (missing, inr (until, (present, e))) ↦ subst (All IsLate) (sym e) (
        touched_by-IsLate t (seed t.touch_signal until ∷ rows)
          (seed-IsLate t.touch_signal until, late))
  ]
