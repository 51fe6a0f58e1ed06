-- ===== src/Broker/OutcomeRecorder/AtLeastOnce.antt =====
-- No alert is lost, over any history of publications, drains and crashes.
use ln_trading_app.Prelude.{Bool, List, Option, [], any, true, ℕ, ◌++◌, ◌||◌, ◌∷◌, ◌≡◌}
use ln_trading_app.Broker.OutcomeRecorder.{Alert, Recorder, Stage, StartId, drain_once}
use ln_trading_app.Broker.OutcomeRecorder.CatchUp.{record_all}
use ln_trading_app.Signals.Outcomes.{Outcome}

-- A drain that stops before its commit or before its acknowledgement is a crash there.
pub data RecorderEvent : Type 0 where
  published_alert : Alert → RecorderEvent
  drained : StartId → Stage → RecorderEvent

abbrev pub published_of : List RecorderEvent → List Alert
published_of [] = []
published_of (published_alert a ∷ events) = a ∷ published_of events
published_of (drained start stage ∷ events) = published_of events

module _ (faults : Alert → Bool) (validity : ℕ → Option ℕ) (rows : List Outcome) where
  abbrev pub happens : RecorderEvent → Recorder → Recorder
  happens (published_alert a) s = record s { fresh = s.fresh ++ a ∷ [] }
  happens (drained start stage) s = drain_once faults validity start stage s

  abbrev pub recorded_history : List RecorderEvent → Recorder → Recorder
  recorded_history [] s = s
  recorded_history (e ∷ events) s = recorded_history events (happens e s)

  -- Each alert seen was applied, or is pending, or is still fresh; the table is that of the applied.
  abbrev pub Accounts : List Alert → List Alert → Recorder → Type 0
  Accounts seen applied s =
      ((test : Alert → Bool)
        → any test seen ≡ true
        → (any test applied || (any test s.pending || any test s.fresh)) ≡ true)
      × (s.outcomes ≡ record_all faults validity applied rows)
