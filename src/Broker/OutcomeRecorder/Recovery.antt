-- ===== src/Broker/OutcomeRecorder/Recovery.antt =====
-- The loops of the recorder thread (run_outcome_recorder of backend/app/broker/outcome_recorder.py)
use mathlib.Core.Option.{map as map_option}
use ln_trading_app.Prelude.{
  Bool, List, Option, [], ap, arith, drop, false, length, refl, some, suc, sym, take, zero, ℕ, ◌*◌,
  ◌++◌, ◌+◌, ◌==◌, ◌∙◌, ◌∷◌, ◌≡◌, ◌≤◌,
}
use ln_trading_app.Broker.OutcomeRecorder.{
  Alert, Recorder, batch_size, committed_table, drain_once, drain_tail, record_entry_of, recover,
}
use ln_trading_app.Broker.OutcomeRecorder.CatchUp.{committed_table_lem, record_all}
use ln_trading_app.Signals.Outcomes.{Outcome}

take-drop {ℓ} : {A : Type ℓ} (n : ℕ) (xs : List A) → take n xs ++ drop n xs ≡ xs
take-drop zero xs = refl
take-drop (suc n) [] = refl
take-drop (suc n) (x ∷ xs) = ap (λ ys. x ∷ ys) (take-drop n xs)

length-drop {ℓ} : {A : Type ℓ} (n m : ℕ) (xs : List A) → length xs ≤ n + m → length (drop n xs) ≤ m
length-drop zero m xs h = omega arith
length-drop (suc n) m [] h = omega arith
length-drop (suc n) m (x ∷ xs) h = length-drop n m xs (omega arith)

suc_nonzero : (n : ℕ) → (suc n == 0) ≡ false
suc_nonzero n = ground arith

module _ (faults : Alert → Bool) (validity : ℕ → Option ℕ) where
  record_all-++ :
      (xs ys : List Alert) (rows : List Outcome)
      → record_all faults validity (xs ++ ys) rows
        ≡ record_all faults validity ys (record_all faults validity xs rows)
  record_all-++ [] ys rows = refl
  record_all-++ (x ∷ xs) ys rows = record_all-++ xs ys (record_entry_of faults validity x rows).0

  -- A batch and then the rest
  pub record_all-batch :
      (n : ℕ) (xs : List Alert) (rows : List Outcome)
      → record_all faults validity (drop n xs) (committed_table faults validity (take n xs) rows)
        ≡ record_all faults validity xs rows
  record_all-batch n xs rows =
      ap (record_all faults validity (drop n xs))
        (committed_table_lem faults validity (take n xs) rows)
      ∙ sym (record_all-++ (take n xs) (drop n xs) rows)
      ∙ ap (λ ys. record_all faults validity ys rows) (take-drop n xs)

  recover_ends :
      (fuel : ℕ) (later waiting : List Alert) (rows : List Outcome)
      → length waiting ≤ batch_size * fuel
      → recover faults validity
          (suc fuel)
          (record { fresh = later; pending = waiting; outcomes = rows })
        ≡ some (record {
          fresh = later;
          pending = [];
          outcomes = record_all faults validity waiting rows;
        })
  unfolding recover drain_once
  recover_ends fuel later [] rows h = refl
  recover_ends zero later (a ∷ waiting) rows h = ground arith
  recover_ends (suc fuel) later (a ∷ waiting) rows h =
      rw (suc_nonzero (length (take 199 waiting))) (
        recover_ends fuel later (drop batch_size (a ∷ waiting))
          (committed_table faults validity (take batch_size (a ∷ waiting)) rows)
          (length-drop batch_size (batch_size * fuel) (a ∷ waiting) (omega arith))
        ∙ ap (λ table. some (record { fresh = later; pending = []; outcomes = table }))
            (record_all-batch batch_size (a ∷ waiting) rows))

  drain_tail_ends :
      (rounds : ℕ) (later : List Alert) (rows : List Outcome)
      → length later ≤ batch_size * rounds
      → drain_tail faults validity rounds (record { fresh = later; pending = []; outcomes = rows })
        ≡ record { fresh = []; pending = []; outcomes = record_all faults validity later rows }
  unfolding drain_tail drain_once
  drain_tail_ends zero [] rows h = refl
  drain_tail_ends zero (a ∷ later) rows h = ground arith
  drain_tail_ends (suc rounds) later rows h =
      drain_tail_ends rounds (drop batch_size later)
        (committed_table faults validity (take batch_size later) rows)
        (length-drop batch_size (batch_size * rounds) later (omega arith))
      ∙ ap (λ table. record { fresh = []; pending = []; outcomes = table })
          (record_all-batch batch_size later rows)

  -- After a crash the thread ends its recovery loop and then works off the stream: with enough
  -- rounds for what is pending and for what is fresh, nothing is left of either, and the table is the
  -- one that recording each entry once, the pending ones first, gives.
  pub recorder_catches_up :
      (fuel rounds : ℕ) (s : Recorder)
      → length s.pending ≤ batch_size * fuel
      → length s.fresh ≤ batch_size * rounds
      → map_option (drain_tail faults validity rounds) (recover faults validity (suc fuel) s)
        ≡ some (record {
          fresh = [];
          pending = [];
          outcomes = record_all faults validity (s.pending ++ s.fresh) s.outcomes;
        })
  recorder_catches_up fuel rounds s few few_fresh =
      ap (map_option (drain_tail faults validity rounds))
        (recover_ends fuel s.fresh s.pending s.outcomes few)
      ∙ ap some (
          drain_tail_ends rounds s.fresh (record_all faults validity s.pending s.outcomes)
            few_fresh)
      ∙ ap (λ table. some (record { fresh = []; pending = []; outcomes = table }))
          (sym (record_all-++ s.pending s.fresh s.outcomes))
