-- ===== src/Broker/OutcomeRecorder/CatchUp.antt =====
-- The recorder catches up with the stream.
use ln_trading_app.Prelude.{
  Bool, Bool-cases, List, Option, [], arith, false, inl, inr, refl, sym, ℕ, ◌||◌, ◌∙◌, ◌∷◌, ◌≡◌,
}
use ln_trading_app.Broker.OutcomeRecorder.{
  Alert, committed_table, record_entries, record_entry_of, record_touch,
}
use ln_trading_app.Signals.Outcomes.{Outcome, ensure_outcome_row}

module _ (faults : Alert → Bool) (validity : ℕ → Option ℕ) where
  -- The entries recorded one after the other
  abbrev pub record_all : List Alert → List Outcome → List Outcome
  record_all [] rows = rows
  record_all (a ∷ alerts) rows = record_all alerts (record_entry_of faults validity a rows).0

  entry-unwritten :
      (a : Alert) (rows : List Outcome)
      → (record_entry_of faults validity a rows).1 ≡ false
      → (record_entry_of faults validity a rows).0 ≡ rows
  unfolding record_entry_of record_touch ensure_outcome_row
  entry-unwritten a rows h = ground arith

  entries-record_all :
      (alerts : List Alert) (rows : List Outcome)
      → (record_entries faults validity alerts rows).0 ≡ record_all alerts rows
  unfolding record_entries
  entries-record_all [] rows = refl
  entries-record_all (a ∷ alerts) rows =
      entries-record_all alerts (record_entry_of faults validity a rows).0

  entries-unwritten :
      (alerts : List Alert) (rows : List Outcome)
      → (record_entries faults validity alerts rows).1 ≡ false
      → record_all alerts rows ≡ rows
  unfolding record_entries
  entries-unwritten [] rows h = refl
  entries-unwritten (a ∷ alerts) rows h =
      let (quiet, rest) = neither _ _ h in
      entries-unwritten alerts (record_entry_of faults validity a rows).0 rest
      ∙ entry-unwritten a rows quiet
    where
      neither : (b c : Bool) → (b || c) ≡ false → (b ≡ false) × (c ≡ false)
      neither b c e = ground arith

  -- Leaving out a commit of nothing leaves the table that recording all entries gives.
  pub committed_table_lem :
      (alerts : List Alert) (rows : List Outcome)
      → committed_table faults validity alerts rows ≡ record_all alerts rows
  unfolding committed_table
  committed_table_lem alerts rows =
      elim (Bool-cases (record_entries faults validity alerts rows).1) [
        | inl wrote ↦ rw wrote (entries-record_all alerts rows)
        | inr quiet ↦ rw quiet (sym (entries-unwritten alerts rows quiet))
      ]
