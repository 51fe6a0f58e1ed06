-- ===== src/Broker/HotSet/Examples.antt =====
-- A hot set of a few stocks.
use ln_trading_app.Prelude.{
  Bool, List, Option, [], arith, length, some, true, ℕ, ◌+◌, ◌∷◌, ◌≡◌, ◌≤◌,
}
use ln_trading_app.Broker.HotSet.{
  HotStock, StreamEntry, add_source, alert_entries_since, by_signal, by_trigger, by_watchlist, clip,
  hot_stock,
}
use ln_trading_app.Broker.HotSet.Clip.{Outranks, clip-Outranks, how_many}
use ln_trading_app.Broker.HotSet.Paging.{Complete, alert_entries_since-Complete}

abbrev entry_at : ℕ → ℕ → StreamEntry
entry_at ts sid = record { entry_ts = some ts; entry_sid = some sid; is_market_style = true }

abbrev stream : List StreamEntry
stream = entry_at 900 4 ∷ entry_at 800 5 ∷ entry_at 100 6 ∷ []

alert_entries_since-Complete_example : Complete 500 stream (alert_entries_since 1 500 stream)
alert_entries_since-Complete_example =
    alert_entries_since-Complete 1 500 stream (omega arith) (omega arith)

abbrev all_active : ℕ → Option ℕ
all_active sid = some (sid + 1_000)

abbrev three_stocks : List HotStock
three_stocks =
    add_source by_watchlist (hot_stock 1 1_001)
    ∷ add_source by_signal (hot_stock 9 1_009)
    ∷ add_source by_trigger (hot_stock 2 1_002)
    ∷ []

clip-Outranks_example :
    (length (clip 2 three_stocks) ≤ 2)
    × ((dropped : List HotStock) × (((test : HotStock → Bool)
            → how_many test (clip 2 three_stocks) + how_many test dropped
              ≡ how_many test three_stocks)
          × Outranks (clip 2 three_stocks) dropped))
clip-Outranks_example = clip-Outranks 2 three_stocks
