-- ===== src/Signals/Outcomes/Sweep.antt =====
-- What the expiry sweep and the seeding do to the table of outcomes.
use ln_trading_app.Prelude.{
  Bool-cases, List, Option, Option-cases, [], any, arith, false, inl, inr, keep, length, refl, true,
  ℕ, ◌∷◌, ◌≡◌,
}
use ln_trading_app.Signals.Outcomes.{
  Outcome, Status, change, ensure_outcome_row, expired, finalize_expired_outcomes, finalize_row,
  has_signal, is_lapsed, lapses, seed, seed_missing,
}

abbrev pub lapsed_count : ℕ → List Outcome → ℕ
lapsed_count now rows = length (keep (is_lapsed now) rows)

finalize_row_done :
    (now now' : ℕ) (r : Outcome)
    → is_lapsed now r ≡ true
    → is_lapsed now' (finalize_row now r) ≡ false
unfolding finalize_row
finalize_row_done now now' r h = done r.status r.validity_until h
  where
    done :
        (s : Status) (until : ℕ) → lapses s until now ≡ true → lapses (expired s) until now' ≡ false
    done s until h = ground arith

swept_clean :
    (now : ℕ) (rows : List Outcome)
    → lapsed_count now (change (is_lapsed now) (finalize_row now) rows) ≡ 0
swept_clean now [] = refl
swept_clean now (r ∷ rows) = elim (Bool-cases (is_lapsed now r)) [
  | inl lapsed ↦ simp (lapsed, finalize_row_done now now r lapsed) (swept_clean now rows)
  | inr live ↦ simp live (swept_clean now rows)
]

-- After a sweep no row is live past its validity, so a second sweep at the same time moves none.
pub finalize_expired_outcomes_clean :
    (now : ℕ) (signals : List (ℕ × ℕ)) (rows : List Outcome)
    → lapsed_count now (finalize_expired_outcomes now signals rows).0 ≡ 0
unfolding finalize_expired_outcomes
finalize_expired_outcomes_clean now signals rows = swept_clean now (seed_missing now signals rows)

has_signal-seed : (signal until : ℕ) → has_signal signal (seed signal until) ≡ true
unfolding seed
has_signal-seed signal until = ground arith

-- The row is there after the call exactly when the call says so, and a second call changes nothing.
pub ensure_outcome_row_again :
    (validity : ℕ → Option ℕ) (signal : ℕ) (rows : List Outcome)
    → let (rows', found) = ensure_outcome_row validity signal rows in
      (any (has_signal signal) rows' ≡ found)
      × (ensure_outcome_row validity signal rows' ≡ (rows', found))
unfolding ensure_outcome_row seed
ensure_outcome_row_again validity signal rows = elim (Bool-cases (any (has_signal signal) rows)) [
  | inl there ↦ simp there (refl, refl)
  | inr missing ↦ elim (Option-cases (validity signal)) [
    | inl absent ↦ simp (missing, absent) (refl, refl)
    | inr (until, present) ↦ simp (missing, present, has_signal-seed signal until) (refl, refl)
  ]
]
