-- ===== src/Broker/OutcomeRecorder.antt =====
-- The thread that records touches (backend/app/broker/outcome_recorder.py): a consumer group on the
-- stream of alerts, whose entries are acknowledged after the commit. An entry is known by its place
-- in a list. `faults` tells on which entries the database raises, and `validity` looks a signal up.
pub mod AtLeastOnce
pub mod Touches
pub mod Redelivery
pub mod Settled
mod Examples
pub mod Recovery
pub mod CatchUp
use ln_trading_app.Prelude.{
  Bool, List, Option, [], drop, false, if◌then◌else◌, length, none, some, suc, take, true, zero, ℕ,
  ◌++◌, ◌==◌, ◌||◌, ◌∷◌,
}
use ln_trading_app.Signals.Outcomes.{
  Outcome, TouchSource, apply_touch, ensure_outcome_row, entry_zone, other_source, sl_touch,
  tp_touch,
}

-- The fields of a stream entry; `none` is one that is missing or cannot be read.
pub record Alert : Type 0 where
  pub alert_source : TouchSource
  pub alert_signal : Option ℕ
  pub alert_ts : Option ℕ
  pub alert_price : Option ℕ

-- What is left of an alert that is outcome material
pub record Touch : Type 0 where
  pub touch_source : TouchSource
  pub touch_signal : ℕ
  pub touch_ts : ℕ
  pub touch_price : ℕ

-- `source in TOUCH_SOURCES`
abbrev pub is_touch_source : TouchSource → Bool
is_touch_source entry_zone = true
is_touch_source sl_touch = true
is_touch_source tp_touch = true
is_touch_source other_source = false

unfoldable pub touch_of : Alert → Option Touch
touch_of a =
    if is_touch_source a.alert_source
    then elim a.alert_signal [
      | none ↦ none
      | some signal ↦ elim a.alert_ts [
        | none ↦ none
        | some ts ↦ elim a.alert_price [
          | none ↦ none
          | some price ↦ some (record {
            touch_source = a.alert_source;
            touch_signal = signal;
            touch_ts = ts;
            touch_price = price;
          })
        ]
      ]
    ]
    else none

-- The row is there or seeded, and touched; an unknown signal is skipped.
unfoldable pub record_touch : (ℕ → Option ℕ) → Touch → List Outcome → List Outcome
record_touch validity t rows =
    let (seeded, found) = ensure_outcome_row validity t.touch_signal rows in
    if found
    then apply_touch t.touch_signal t.touch_source t.touch_ts t.touch_price seeded
    else seeded

-- One entry in its savepoint: the table, and whether something was written.
unfoldable pub record_entry_of :
    (Alert → Bool) → (ℕ → Option ℕ) → Alert → List Outcome → List Outcome × Bool
unfolding touch_of record_touch
record_entry_of faults validity a rows = elim (touch_of a) [
  | none ↦ (rows, false)
  | some t ↦
      if faults a
      then (rows, false)
      else (record_touch validity t rows, (ensure_outcome_row validity t.touch_signal rows).1)
]

unfoldable pub record_entries :
    (Alert → Bool) → (ℕ → Option ℕ) → List Alert → List Outcome → List Outcome × Bool
record_entries faults validity [] rows = (rows, false)
record_entries faults validity (a ∷ alerts) rows =
    let (next, wrote) = record_entry_of faults validity a rows in
    let (last, more) = record_entries faults validity alerts next in (last, wrote || more)

-- `if wrote: await db.commit()`
unfoldable pub committed_table :
    (Alert → Bool) → (ℕ → Option ℕ) → List Alert → List Outcome → List Outcome
committed_table faults validity alerts rows =
    let (last, wrote) = record_entries faults validity alerts rows in if wrote then last else rows

-- The stream behind the group, its list of pending entries, and the outcomes table.
pub record Recorder : Type 0 where
  pub fresh : List Alert
  pub pending : List Alert
  pub outcomes : List Outcome

-- ">" and "0"
pub data StartId : Type 0 where
  tail recovery : StartId

abbrev pub batch_size : ℕ
batch_size = 200

-- How far a drain got
pub data Stage : Type 0 where
  before_commit before_ack completed : Stage

abbrev pub batch_of : StartId → Recorder → List Alert
batch_of tail s = take batch_size s.fresh
batch_of recovery s = take batch_size s.pending

-- A read with ">" moves the batch to the pending entries.
abbrev pub delivered : StartId → Recorder → Recorder
delivered tail s = record s {
  fresh = drop batch_size s.fresh;
  pending = s.pending ++ take batch_size s.fresh;
}
delivered recovery s = s

abbrev pub committed : (Alert → Bool) → (ℕ → Option ℕ) → List Alert → Recorder → Recorder
committed faults validity batch s = record s {
  outcomes = committed_table faults validity batch s.outcomes;
}

-- The batch leaves the pending entries: those of a read with ">" stand last, of one with "0" first.
abbrev pub acknowledged : StartId → Recorder → Recorder → Recorder
acknowledged tail before s = record s { pending = before.pending }
acknowledged recovery before s = record s { pending = drop batch_size before.pending }

-- One drain, up to some stage
unfoldable pub drain_once : (Alert → Bool) → (ℕ → Option ℕ) → StartId → Stage → Recorder → Recorder
unfolding committed_table
drain_once faults validity start before_commit s = delivered start s
drain_once faults validity start before_ack s =
    committed faults validity (batch_of start s) (delivered start s)
drain_once faults validity start completed s =
    acknowledged start s (committed faults validity (batch_of start s) (delivered start s))

-- The recovery loop, until a drain has processed no entry; `none` is a loop that did not end in time.
unfoldable pub recover : (Alert → Bool) → (ℕ → Option ℕ) → ℕ → Recorder → Option Recorder
recover faults validity zero s = none
recover faults validity (suc fuel) s =
    let rest = recover faults validity fuel (drain_once faults validity recovery completed s) in
    if length (batch_of recovery s) == 0 then some s else rest

-- Some rounds of the tail loop
unfoldable pub drain_tail : (Alert → Bool) → (ℕ → Option ℕ) → ℕ → Recorder → Recorder
drain_tail faults validity zero s = s
drain_tail faults validity (suc rounds) s =
    drain_tail faults validity rounds (drain_once faults validity tail completed s)
