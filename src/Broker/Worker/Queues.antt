-- ===== src/Broker/Worker/Queues.antt =====
-- The queues between the live worker's threads (enqueue_ticks, _enqueue_committed, run_pulser and
-- _ffi_batch of backend/app/broker/live_worker.py). A queue is a list, its oldest item first.
pub mod Accounted
pub mod Bounded
use ln_trading_app.Prelude.{
  Bool, List, Option, [], drop, false, if◌then◌else◌, leb, length, ltb, none, some, suc, true, ℕ,
  ◌++◌, ◌+◌, ◌∷◌,
}
use ln_trading_app.Broker.Worker.Ltp.{FfiTick}
use ln_trading_app.Broker.Worker.Writer.{Minted}

abbrev pub queue_max : ℕ
queue_max = 10_000

module _ {ℓ} {A : Type ℓ} (maxsize : ℕ) where
  abbrev pub is_full : List A → Bool
  is_full q = leb maxsize (length q)

  -- `put_nowait`, with whether there was room
  unfoldable pub put_nowait : A → List A → List A × Bool
  put_nowait item q = if is_full q then (q, false) else (q ++ item ∷ [], true)

  -- The loop of enqueue_ticks: the queue, and how many items were dropped. `refills` is what other
  -- threads put between the get and the put of the first rounds that find the queue full.
  unfoldable pub enqueue_ticks : A → List A → List A → List A × ℕ
  unfolding put_nowait
  enqueue_ticks item [] q =
      if is_full q then ((put_nowait item (drop 1 q)).0, 1) else (q ++ item ∷ [], 0)
  enqueue_ticks item (refill ∷ refills) q =
      let (rest, dropped) = enqueue_ticks item refills (put_nowait refill (drop 1 q)).0 in
      if is_full q then (rest, suc dropped) else (q ++ item ∷ [], 0)

-- What a turn of the loop of _enqueue_committed finds: a dead writer, a full queue for a whole
-- second, or room.
pub data Turn : Type 0 where
  writer_dead queue_full room : Turn

-- An event of the book; `Minted` is a committed candle.
pub data BookEvent : Type 0 where
  candle_committed : Minted → BookEvent
  something_else : BookEvent

abbrev pub committed_of : List BookEvent → List Minted
committed_of [] = []
committed_of (candle_committed e ∷ events) = e ∷ committed_of events
committed_of (something_else ∷ events) = committed_of events

-- The worker has a stop event, as the state that its main builds has.
pub record Handover : Type 0 where
  pub writer_q : List (List Minted)
  pub committed_count : ℕ
  pub dropped_committed : ℕ
  pub stop_set : Bool

-- The `while True`; `none` is a call that still waits after these turns.
unfoldable pub hand_over : List Minted → List Turn → Handover → Option Handover
hand_over burst [] s = none
hand_over burst (writer_dead ∷ turns) s =
    some (record s { dropped_committed = s.dropped_committed + length burst; stop_set = true })
hand_over burst (queue_full ∷ turns) s = hand_over burst turns s
hand_over burst (room ∷ turns) s = some (record s { writer_q = s.writer_q ++ burst ∷ [] })

abbrev pub no_candles : List Minted → Bool
no_candles [] = true
no_candles (e ∷ burst) = false

unfoldable pub enqueue_committed : List BookEvent → List Turn → Handover → Option Handover
unfolding hand_over
enqueue_committed events turns s =
    let burst = committed_of events in
    if no_candles burst
    then some s
    else hand_over burst turns (record s { committed_count = s.committed_count + length burst })

-- What tick_to_ffi makes of a tick: nothing, or a tick with its time.
abbrev pub is_echo : ℕ → FfiTick → Bool
is_echo min_tick_ts tick = ltb tick.tick_ts min_tick_ts

-- The batch, and the counts of skipped and stale ticks
unfoldable pub ffi_batch : ℕ → List (Option FfiTick) → List FfiTick × (ℕ × ℕ)
ffi_batch min_tick_ts [] = ([], (0, 0))
ffi_batch min_tick_ts (none ∷ ticks) =
    let (batch, (unusable, echoes)) = ffi_batch min_tick_ts ticks in (batch, (suc unusable, echoes))
ffi_batch min_tick_ts (some tick ∷ ticks) =
    let (batch, (unusable, echoes)) = ffi_batch min_tick_ts ticks in
    if is_echo min_tick_ts tick
    then (batch, (unusable, suc echoes))
    else (tick ∷ batch, (unusable, echoes))
