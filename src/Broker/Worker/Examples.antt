-- ===== src/Broker/Worker/Examples.antt =====
-- Runs of the live worker's queues, writer, prices and histogram.
use ln_trading_app.Prelude.{
  All, Bool-cases, List, Option, [], arith, false, if◌then◌else◌, inl, inr, keep, none, refl, some,
  true, ℕ, ◌+◌, ◌<◌, ◌==◌, ◌∷◌, ◌≡◌,
}
use ln_trading_app.Broker.Worker.Latency.{bounds_us, bump, observe, quantile_bound, reach}
use ln_trading_app.Broker.Worker.Latency.Quantiles.{
  IsCovered, histogram_of, quantile_bound-IsCovered,
}
use ln_trading_app.Broker.Worker.Ltp.{FfiTick, LtpState, no_prices, publish_ltp, put}
use ln_trading_app.Broker.Worker.Ltp.Mirror.{Mirrors}
use ln_trading_app.Broker.Worker.Ltp.Publish.{Kept, publish_ltp-Mirrors, publish_ltp_lem}
use ln_trading_app.Broker.Worker.Queues.{
  Handover, candle_committed, enqueue_committed, enqueue_ticks, queue_full, writer_dead,
}
use ln_trading_app.Broker.Worker.Queues.Accounted.{Handed, enqueue_committed-Handed}
use ln_trading_app.Broker.Worker.Queues.Bounded.{Dropped, enqueue_ticks_lem}
use ln_trading_app.Broker.Worker.Writer.{
  Attempted, Minted, Tables, attempted, inserted, ohlcv_15m, ohlcv_1m, ohlcv_5m, persist_burst,
  persist_committed, persist_with_retry, returned, rolled_back, run_writer, table_of, tf_label,
  timeframe_table, upsert, upsert_into,
}
use ln_trading_app.Broker.Worker.Writer.Held.{HoldsIn, goes_to, persist_all-All, upsert_all}
use ln_trading_app.Broker.Worker.Writer.Retry.{gets_of, kept_of, persist_all, run_writer_lem}

abbrev minted_at : ℕ → ℕ → ℕ → ℕ → Minted
minted_at minutes time high volume = record {
  tf_minutes = minutes;
  minted_time = time;
  minted_stock = 3;
  minted_open = 1_000_000;
  minted_high = high;
  minted_low = 990_000;
  minted_close = 1_000_000;
  minted_volume = volume;
}

abbrev first_candle : Minted
first_candle = minted_at 1 60 1_010_000 500

abbrev echo : Minted
echo = minted_at 1 60 1_005_000 0

-- A candle of the same time and stock, of another timeframe
abbrev five_minute_candle : Minted
five_minute_candle = minted_at 5 60 1_020_000 900

abbrev no_candles_yet : Tables
no_candles_yet t = []

-- The first candle is committed on its second attempt, the echo never.
abbrev flaky : Minted → ℕ → Attempted
flaky e left =
    if e.minted_volume == 0 then rolled_back else if left == 2 then rolled_back else returned

run_writer_lem_example :
    run_writer flaky
      (gets_of flaky ((first_candle ∷ echo ∷ five_minute_candle ∷ []) ∷ []) true [])
      no_candles_yet
    ≡ (
      persist_all
          (kept_of flaky ((first_candle ∷ echo ∷ five_minute_candle ∷ []) ∷ []))
          no_candles_yet,
      [],
    )
run_writer_lem_example =
    run_writer_lem flaky ((first_candle ∷ echo ∷ five_minute_candle ∷ []) ∷ []) true []
      no_candles_yet

-- Each of the two candles is in its own table, and neither in the other's.
run_writer_tables_example :
    let tables =
      (run_writer flaky
        (gets_of flaky ((first_candle ∷ echo ∷ five_minute_candle ∷ []) ∷ []) false [])
        no_candles_yet).0 in
    (tables ohlcv_1m ≡ inserted first_candle ∷ [])
    × ((tables ohlcv_5m ≡ inserted five_minute_candle ∷ []) × (tables ohlcv_15m ≡ []))
unfolding run_writer persist_burst persist_with_retry persist_committed upsert_into attempted upsert
    table_of tf_label timeframe_table
run_writer_tables_example = (refl, (refl, refl))

persist_all-All_example :
    (persist_all (first_candle ∷ five_minute_candle ∷ echo ∷ []) no_candles_yet ohlcv_1m
      ≡ upsert_all (keep (goes_to ohlcv_1m) (first_candle ∷ five_minute_candle ∷ echo ∷ [])) [])
    × All
        (λ e.
          HoldsIn e
            (persist_all (first_candle ∷ five_minute_candle ∷ echo ∷ []) no_candles_yet ohlcv_1m))
        (keep (goes_to ohlcv_1m) (first_candle ∷ five_minute_candle ∷ echo ∷ []))
persist_all-All_example =
    persist_all-All (first_candle ∷ five_minute_candle ∷ echo ∷ []) no_candles_yet ohlcv_1m

histogram_example : quantile_bound 99 100 (histogram_of (1_500 ∷ 800 ∷ 700 ∷ [])) ≡ 2_000
unfolding quantile_bound reach histogram_of observe bump
histogram_example = refl

quantile_bound-IsCovered_example :
    let r = quantile_bound 99 100 (histogram_of (1_500 ∷ 800 ∷ 700 ∷ [])) in
    IsCovered 99 100 (1_500 ∷ 800 ∷ 700 ∷ []) r
    × All (λ bound. bound < r → ¬ IsCovered 99 100 (1_500 ∷ 800 ∷ 700 ∷ []) bound) bounds_us
quantile_bound-IsCovered_example =
    quantile_bound-IsCovered 99 100 (1_500 ∷ 800 ∷ 700 ∷ []) (omega arith)

-- A queue of two that another thread fills up again once
enqueue_ticks_lem_example :
    Dropped {A = ℕ} 2 9 (5 ∷ []) (1 ∷ 2 ∷ []) (enqueue_ticks {A = ℕ} 2 9 (5 ∷ []) (1 ∷ 2 ∷ []))
enqueue_ticks_lem_example =
    enqueue_ticks_lem {A = ℕ} 2 9 (5 ∷ []) (1 ∷ 2 ∷ []) (omega arith) (omega arith)

abbrev fresh_books : Handover
fresh_books = record { writer_q = []; committed_count = 0; dropped_committed = 0; stop_set = false }

enqueue_committed-Handed_example : Handed (
    enqueue_committed
      (candle_committed first_candle ∷ [])
      (queue_full ∷ writer_dead ∷ [])
      fresh_books)
enqueue_committed-Handed_example =
    enqueue_committed-Handed (candle_committed first_candle ∷ []) (queue_full ∷ writer_dead ∷ [])
      fresh_books (refl, λ e. refl)

abbrev tick_of : ℕ → ℕ → FfiTick
tick_of stock price = record { tick_stock = stock; tick_ts = 60; tick_price = price }

abbrev two_ticks : List FfiTick
two_ticks = tick_of 3 1_000_000 ∷ tick_of 3 1_000_500 ∷ []

abbrev token : ℕ → Option ℕ
token stock = some (stock + 100)

abbrev one_price : LtpState
one_price = record {
  ltp_cache = put 3 (1_000_000, 40) no_prices;
  pending_depth = [];
  ltp_keys = put 3 (1_000_000, 40) no_prices;
}

one_price-Mirrors : Mirrors one_price.ltp_cache one_price.ltp_keys
one_price-Mirrors stock = elim (Bool-cases (stock == 3)) [
  | inl same ↦ rw same refl
  | inr different ↦ rw different tt
]

publish_ltp_lem_example :
    Kept token none 45 two_ticks one_price (publish_ltp token none 45 none two_ticks one_price).0
publish_ltp_lem_example = publish_ltp_lem token none 45 two_ticks one_price one_price-Mirrors

publish_ltp-Mirrors_example :
    Mirrors
      (publish_ltp token none 45 (some no_prices) two_ticks one_price).0.ltp_cache
      (publish_ltp token none 45 (some no_prices) two_ticks one_price).0.ltp_keys
publish_ltp-Mirrors_example =
    publish_ltp-Mirrors token none 45 (some no_prices) two_ticks one_price one_price-Mirrors
