-- ===== src/Broker/OutcomeRecorder/Redelivery.antt =====
-- A batch that is delivered again after a crash between the commit and the acknowledgement.
use ln_trading_app.Prelude.{
  All, Bool, List, Option, [], ap, arith, drop, if◌then◌else◌, none, refl, some, suc, sym, take,
  zero, ℕ, ◌++◌, ◌<◌, ◌∙◌, ◌∷◌, ◌≡◌,
}
use ln_trading_app.Broker.OutcomeRecorder.{
  Alert, Recorder, Touch, batch_size, before_ack, committed_table, completed, drain_once,
  record_entry_of, record_touch, recovery, tail, touch_of,
}
use ln_trading_app.Broker.OutcomeRecorder.CatchUp.{committed_table_lem, record_all}
use ln_trading_app.Broker.OutcomeRecorder.Settled.{TableSettled, settled-record_touch}
use ln_trading_app.Broker.OutcomeRecorder.Touches.{
  record_touch-IsLate, record_touch-TableSettled, record_touch-keeps,
}
use ln_trading_app.Signals.Outcomes.{Outcome}
use ln_trading_app.Signals.Outcomes.Settled.{IsLate}

module _ (faults : Alert → Bool) (validity : ℕ → Option ℕ) where
  -- The touch of an entry that is written
  unfoldable pub effect : Alert → Option Touch
  effect a = elim (touch_of a) [ none ↦ none | some t ↦ if faults a then none else some t ]

  abbrev effect_on : Option Touch → List Outcome → List Outcome
  effect_on none rows = rows
  effect_on (some t) rows = record_touch validity t rows

  entry-effect :
      (a : Alert) (rows : List Outcome)
      → (record_entry_of faults validity a rows).0 ≡ effect_on (effect a) rows
  unfolding record_entry_of effect touch_of
  entry-effect a rows = ground arith

  abbrev EffectSettled : Option Touch → List Outcome → Type 0
  EffectSettled none rows = Unit
  EffectSettled (some t) rows = TableSettled validity t rows

  -- Of two entries that are written the first has the smaller time.
  abbrev pub IsBefore : Option Touch → Option Touch → Type 0
  IsBefore (some t) (some t') = t.touch_ts < t'.touch_ts
  IsBefore _ _ = Unit

  abbrev pub IsRising : List Alert → Type 0
  IsRising [] = Unit
  IsRising (a ∷ alerts) = All (λ b. IsBefore (effect a) (effect b)) alerts × IsRising alerts

  effect-settles : (o : Option Touch) (rows : List Outcome) → EffectSettled o (effect_on o rows)
  effect-settles none rows = tt
  effect-settles (some t) rows = record_touch-TableSettled validity t rows

  effect-keeps :
      (o o' : Option Touch) (rows : List Outcome)
      → IsBefore o o'
      → All IsLate rows
      → EffectSettled o rows
      → EffectSettled o (effect_on o' rows)
  effect-keeps none o' rows h late settled = tt
  effect-keeps (some t) none rows h late settled = settled
  effect-keeps (some t) (some t') rows h late settled =
      record_touch-keeps validity t t' rows h late settled

  effect-IsLate :
      (o : Option Touch) (rows : List Outcome) → All IsLate rows → All IsLate (effect_on o rows)
  effect-IsLate none rows late = late
  effect-IsLate (some t) rows late = record_touch-IsLate validity t rows late

  effect-again :
      (o : Option Touch) (rows : List Outcome) → EffectSettled o rows → effect_on o rows ≡ rows
  effect-again none rows settled = refl
  effect-again (some t) rows settled = settled-record_touch validity t rows settled

  abbrev all_effects : List Alert → List Outcome → List Outcome
  all_effects [] rows = rows
  all_effects (a ∷ alerts) rows = all_effects alerts (effect_on (effect a) rows)

  record_all-effects :
      (alerts : List Alert) (rows : List Outcome)
      → record_all faults validity alerts rows ≡ all_effects alerts rows
  record_all-effects [] rows = refl
  record_all-effects (a ∷ alerts) rows =
      ap (record_all faults validity alerts) (entry-effect a rows)
      ∙ record_all-effects alerts (effect_on (effect a) rows)

  later-keep :
      (o : Option Touch) (alerts : List Alert) (rows : List Outcome)
      → All (λ b. IsBefore o (effect b)) alerts
      → All IsLate rows
      → EffectSettled o rows
      → EffectSettled o (all_effects alerts rows)
  later-keep o [] rows all late settled = settled
  later-keep o (b ∷ alerts) rows (h, all) late settled =
      later-keep o alerts (effect_on (effect b) rows) all (effect-IsLate (effect b) rows late)
        (effect-keeps o (effect b) rows h late settled)

  -- Once a rising batch is recorded, every entry of it is settled.
  batch-settles :
      (alerts : List Alert) (rows : List Outcome)
      → IsRising alerts
      → All IsLate rows
      → All (λ a. EffectSettled (effect a) (all_effects alerts rows)) alerts
  batch-settles [] rows rising late = tt
  batch-settles (a ∷ alerts) rows (first, rising) late =
      let next : List Outcome = effect_on (effect a) rows in
      let next_late : All IsLate next = effect-IsLate (effect a) rows late in
      (
        later-keep (effect a) alerts next first next_late (effect-settles (effect a) rows),
        batch-settles alerts next rising next_late,
      )

  settled-batch :
      (alerts : List Alert) (rows : List Outcome)
      → All (λ a. EffectSettled (effect a) rows) alerts
      → all_effects alerts rows ≡ rows
  settled-batch [] rows all = refl
  settled-batch (a ∷ alerts) rows (h, all) =
      ap (all_effects alerts) (effect-again (effect a) rows h) ∙ settled-batch alerts rows all

  recorded_again :
      (alerts : List Alert) (rows : List Outcome)
      → IsRising alerts
      → All IsLate rows
      → committed_table faults validity alerts (committed_table faults validity alerts rows)
        ≡ committed_table faults validity alerts rows
  recorded_again alerts rows rising late =
      let table : (os : List Outcome)
          → committed_table faults validity alerts os ≡ all_effects alerts os =
        λ os. committed_table_lem faults validity alerts os ∙ record_all-effects alerts os in
      ap (committed_table faults validity alerts) (table rows)
      ∙ table (all_effects alerts rows)
      ∙ settled-batch alerts (all_effects alerts rows) (batch-settles alerts rows rising late)
      ∙ sym (table rows)

  take-take : (n : ℕ) (xs : List Alert) → take n (take n xs) ≡ take n xs
  take-take zero xs = refl
  take-take (suc n) [] = refl
  take-take (suc n) (x ∷ xs) = ap (λ ys. x ∷ ys) (take-take n xs)

  drop-take : (n : ℕ) (xs : List Alert) → drop n (take n xs) ≡ []
  drop-take zero xs = refl
  drop-take (suc n) [] = refl
  drop-take (suc n) (x ∷ xs) = drop-take n xs

  -- A worker that dies between the commit and the acknowledgement, and whose successor drains the
  -- pending entries, ends where one that did not die ends, if nothing was pending before, the times
  -- of the entries of the batch that are written rise, and an entry stamp on a row that does not
  -- count as entered is one after validity.
  pub drain_once_again :
      (s : Recorder)
      → s.pending ≡ []
      → IsRising (take batch_size s.fresh)
      → All IsLate s.outcomes
      → drain_once faults validity recovery completed (drain_once faults validity tail before_ack s)
        ≡ drain_once faults validity tail completed s
  unfolding drain_once
  drain_once_again s idle rising late =
      let batch : List Alert = take batch_size s.fresh in
      let table : List Outcome = committed_table faults validity batch s.outcomes in
      let waiting : s.pending ++ batch ≡ batch = ap (λ xs. xs ++ batch) idle in
      let redelivered : take batch_size (s.pending ++ batch) ≡ batch =
        ap (take batch_size) waiting ∙ take-take batch_size s.fresh in
      state_of
        (ap (λ xs. committed_table faults validity xs table) redelivered
          ∙ recorded_again batch s.outcomes rising late)
        (ap (drop batch_size) waiting ∙ drop-take batch_size s.fresh ∙ sym idle)
    where
      left_over : List Alert → List Outcome → Recorder
      left_over left os = record { fresh = drop batch_size s.fresh; pending = left; outcomes = os }

      state_of :
          {left left' : List Alert} {os os' : List Outcome}
          → os ≡ os'
          → left ≡ left'
          → left_over left os ≡ left_over left' os'
      state_of e f = rw (e, f) refl
