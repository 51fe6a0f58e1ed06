-- ===== src/Broker/OutcomeRecorder/Examples.antt =====
-- Runs of the outcome recorder.
use mathlib.Core.Option.{map as map_option}
use ln_trading_app.Prelude.{
  Bool, List, Option, [], arith, false, if◌then◌else◌, map, none, refl, some, ℕ, ◌++◌, ◌==◌, ◌∷◌,
  ◌≡◌,
}
use ln_trading_app.Broker.OutcomeRecorder.{
  Alert, Recorder, before_ack, committed_table, completed, drain_once, drain_tail, record_entries,
  record_entry_of, record_touch, recover, recovery, tail, touch_of,
}
use ln_trading_app.Broker.OutcomeRecorder.AtLeastOnce.{RecorderEvent, drained, published_alert}
use ln_trading_app.Broker.OutcomeRecorder.CatchUp.{record_all}
use ln_trading_app.Broker.OutcomeRecorder.Recovery.{recorder_catches_up}
use ln_trading_app.Broker.OutcomeRecorder.Redelivery.{drain_once_again, effect}
use ln_trading_app.Signals.Outcomes.{
  Status, TouchSource, apply_touch, ensure_outcome_row, entry_touched, entry_zone, other_source,
  resolve, seed, sl_first, sl_touch, touch_row, tp_touch,
}

abbrev no_faults : Alert → Bool
no_faults a = false

abbrev until_five_thousand : ℕ → Option ℕ
until_five_thousand signal = if signal == 7 then some 5_000 else none

abbrev alert_at : TouchSource → ℕ → Alert
alert_at source ts = record {
  alert_source = source;
  alert_signal = some 7;
  alert_ts = some ts;
  alert_price = some 1_000_000;
}

abbrev after_crash : Recorder
after_crash = record {
  fresh = alert_at tp_touch 300 ∷ [];
  pending = alert_at entry_zone 100 ∷ alert_at other_source 200 ∷ [];
  outcomes = [];
}

recorder_catches_up_example :
    map_option
      (drain_tail no_faults until_five_thousand 1)
      (recover no_faults until_five_thousand 2 after_crash)
    ≡ some (record {
      fresh = [];
      pending = [];
      outcomes =
          record_all no_faults until_five_thousand
            (after_crash.pending ++ after_crash.fresh)
            after_crash.outcomes;
    })
recorder_catches_up_example =
    recorder_catches_up no_faults until_five_thousand 1 1 after_crash (omega arith) (omega arith)

abbrev three_fresh : Recorder
three_fresh = record {
  fresh = alert_at entry_zone 100 ∷ alert_at other_source 150 ∷ alert_at sl_touch 200 ∷ [];
  pending = [];
  outcomes = [];
}

drain_once_again_example :
    drain_once no_faults until_five_thousand recovery completed
      (drain_once no_faults until_five_thousand tail before_ack three_fresh)
    ≡ drain_once no_faults until_five_thousand tail completed three_fresh
unfolding effect touch_of
drain_once_again_example =
    drain_once_again no_faults until_five_thousand three_fresh refl (omega arith) tt

-- A stop touched in the second of the entry, and before it in the stream
abbrev same_second : Recorder
same_second = record {
  fresh = alert_at sl_touch 100 ∷ alert_at entry_zone 100 ∷ [];
  pending = [];
  outcomes = [];
}

abbrev statuses : Recorder → List Status
statuses s = map (λ r. r.status) s.outcomes

drained_once :
    statuses (drain_once no_faults until_five_thousand tail completed same_second)
    ≡ entry_touched ∷ []
unfolding drain_once record_entries record_entry_of touch_of record_touch ensure_outcome_row
    apply_touch touch_row resolve seed committed_table
drained_once = refl

-- Delivered again, the stop is taken for the first resolution.
drained_twice :
    statuses (
      drain_once no_faults until_five_thousand recovery completed
        (drain_once no_faults until_five_thousand tail before_ack same_second))
    ≡ sl_first ∷ []
unfolding drain_once record_entries record_entry_of touch_of record_touch ensure_outcome_row
    apply_touch touch_row resolve seed committed_table
drained_twice = refl

-- Two alerts, a crash before the acknowledgement, a third alert and a recovery
abbrev eventful : List RecorderEvent
eventful =
    published_alert (alert_at entry_zone 100)
    ∷ published_alert (alert_at sl_touch 200)
    ∷ drained tail before_ack
    ∷ published_alert (alert_at tp_touch 300)
    ∷ drained recovery completed
    ∷ []
