-- ===== src/Broker/HotSet.antt =====
-- Which stocks a provisional cycle scores (_alert_entries_since, _recent_alert_sids,
-- admit_market_tier and load_hot_set of backend/app/broker/provisional.py). The rows of the queries
-- and the stream of alerts, newest first, are arguments; a dictionary is a list in its order of
-- insertion; a symbol, a profile and a style are numbers.
mod Examples
pub mod Paging
pub mod Market
pub mod Clip
use ln_trading_app.Prelude.{
  Bool, List, Option, [], any, drop, false, if◌then◌else◌, keep, leb, length, ltb, none, some, suc,
  take, true, zero, ℕ, ◌&&◌, ◌++◌, ◌-◌, ◌==◌, ◌||◌, ◌∷◌,
}

-- The fields of a stream entry that are read; `none` is one that is missing or not a number.
pub record StreamEntry : Type 0 where
  pub entry_ts : Option ℕ
  pub entry_sid : Option ℕ
  pub is_market_style : Bool

abbrev pub page_size : ℕ
page_size = 500

-- `int(page[-1][1].get("ts", 0))`, or 0
abbrev pub ts_or_zero : StreamEntry → ℕ
ts_or_zero e = elim e.entry_ts [ none ↦ 0 | some ts ↦ ts ]

abbrev pub oldest_ts : List StreamEntry → ℕ
oldest_ts [] = 0
oldest_ts (e ∷ []) = ts_or_zero e
oldest_ts (e ∷ f ∷ page) = oldest_ts (f ∷ page)

-- The pages of the stream, newest first, up to one that is not full or that reaches back beyond the
-- cutoff; `none` is a loop that has not ended in time.
unfoldable pub alert_entries_since : ℕ → ℕ → List StreamEntry → Option (List StreamEntry)
alert_entries_since zero cutoff stream = none
alert_entries_since (suc fuel) cutoff stream =
    let page = take page_size stream in
    let more = alert_entries_since fuel cutoff (drop page_size stream) in
    if ltb (length page) page_size || ltb (oldest_ts page) cutoff
    then some page
    else elim more [ none ↦ none | some entries ↦ some (page ++ entries) ]

abbrev pub has_sid : ℕ → List ℕ → Bool
has_sid sid sids = any (λ s. s == sid) sids

-- The loop over the entries, oldest part first: signal-bound stocks, and market-level ones in order
-- of recency. An entry without a readable time is at 0, which is before every cutoff.
unfoldable pub recent_alert_sids : ℕ → List StreamEntry → List ℕ → List ℕ → List ℕ × List ℕ
recent_alert_sids cutoff [] sids market = (sids, market)
recent_alert_sids cutoff (e ∷ entries) sids market =
    let skip = recent_alert_sids cutoff entries sids market in
    elim e.entry_sid [
      | none ↦ skip
      | some sid ↦
          let bound = recent_alert_sids cutoff entries (sid ∷ sids) market in
          let breadth = recent_alert_sids cutoff entries sids (market ++ sid ∷ []) in
          if ltb (ts_or_zero e) cutoff
          then skip
          else if e.is_market_style
          then if has_sid sid market then skip else breadth
          else if has_sid sid sids
          then skip
          else bound
    ]

pub record HotStock : Type 0 where
  pub hot_sid : ℕ
  pub hot_symbol : ℕ
  pub from_signal : Bool
  pub from_trigger : Bool
  pub from_watchlist : Bool
  pub from_market : Bool

pub data HotSource : Type 0 where
  by_signal by_trigger by_watchlist by_market : HotSource

abbrev pub hot_stock : ℕ → ℕ → HotStock
hot_stock sid symbol = record {
  hot_sid = sid;
  hot_symbol = symbol;
  from_signal = false;
  from_trigger = false;
  from_watchlist = false;
  from_market = false;
}

-- `sources.add`
abbrev pub add_source : HotSource → HotStock → HotStock
add_source by_signal h = record h { from_signal = true }
add_source by_trigger h = record h { from_trigger = true }
add_source by_watchlist h = record h { from_watchlist = true }
add_source by_market h = record h { from_market = true }

abbrev pub is_hot : ℕ → List HotStock → Bool
is_hot sid hot = any (λ h. h.hot_sid == sid) hot

-- `hot.setdefault(...).sources.add(...)`
unfoldable pub admit_hot : HotSource → ℕ → ℕ → List HotStock → List HotStock
admit_hot source sid symbol [] = add_source source (hot_stock sid symbol) ∷ []
admit_hot source sid symbol (h ∷ hot) =
    let rest = admit_hot source sid symbol hot in
    if h.hot_sid == sid then add_source source h ∷ hot else h ∷ rest

-- The new dictionary and how many stocks were admitted; `left` is what remains of `market_max`.
unfoldable pub admit_market_tier : (ℕ → Option ℕ) → ℕ → List ℕ → List HotStock → List HotStock × ℕ
admit_market_tier active_symbols left [] hot = (hot, 0)
admit_market_tier active_symbols zero (sid ∷ market) hot = (hot, 0)
admit_market_tier active_symbols (suc left) (sid ∷ market) hot =
    let skip = admit_market_tier active_symbols (suc left) market hot in
    elim (active_symbols sid) [
      | none ↦ skip
      | some symbol ↦
          let (rest, admitted) =
            admit_market_tier active_symbols left market
              (hot ++ add_source by_market (hot_stock sid symbol) ∷ []) in
          if is_hot sid hot then skip else (rest, suc admitted)
    ]

-- `min(rank[s] for s in sources)`
abbrev pub rank_of : HotStock → ℕ
rank_of h =
    if h.from_signal then 0 else if h.from_trigger then 1 else if h.from_watchlist then 2 else 3

-- The order of the keys `(rank, sid)`
abbrev pub ranks_before : HotStock → HotStock → Bool
ranks_before a b =
    ltb (rank_of a) (rank_of b) || ((rank_of a == rank_of b) && leb a.hot_sid b.hot_sid)

abbrev pub insert_by {ℓ} : {A : Type ℓ} → (A → A → Bool) → A → List A → List A
insert_by before x [] = x ∷ []
insert_by before x (y ∷ ys) =
    let rest = insert_by before x ys in if before x y then x ∷ y ∷ ys else y ∷ rest

abbrev pub sort_by {ℓ} : {A : Type ℓ} → (A → A → Bool) → List A → List A
sort_by before [] = []
sort_by before (x ∷ xs) = insert_by before x (sort_by before xs)

-- The clip to the cap
unfoldable pub clip : ℕ → List HotStock → List HotStock
clip hotset_max hot =
    if ltb hotset_max (length hot) then take hotset_max (sort_by ranks_before hot) else hot

pub record HotSetStats : Type 0 where
  pub raw : ℕ
  pub kept_stocks : ℕ
  pub clipped : ℕ
  pub signal_stocks : ℕ
  pub trigger_stocks : ℕ
  pub watchlist_stocks : ℕ
  pub market_stocks : ℕ

-- A row of the query on active signals
pub record SignalPair : Type 0 where
  pub pair_stock : ℕ
  pub pair_signal : ℕ
  pub pair_profile : Option ℕ
  pub pair_timeframe : ℕ
  pub pair_style : ℕ
  pub pair_symbol : ℕ

abbrev pub admit_signals : List SignalPair → List HotStock → List HotStock
admit_signals [] hot = hot
admit_signals (p ∷ pairs) hot =
    admit_signals pairs (admit_hot by_signal p.pair_stock p.pair_symbol hot)

abbrev pub admit_triggers : (ℕ → Option ℕ) → List ℕ → List HotStock → List HotStock
admit_triggers active_symbols [] hot = hot
admit_triggers active_symbols (sid ∷ sids) hot =
    admit_triggers active_symbols sids
      (elim (active_symbols sid) [ none ↦ hot | some symbol ↦ admit_hot by_trigger sid symbol hot ])

abbrev pub admit_watchlist : List (ℕ × ℕ) → List HotStock → List HotStock
admit_watchlist [] hot = hot
admit_watchlist ((sid, symbol) ∷ items) hot =
    admit_watchlist items (admit_hot by_watchlist sid symbol hot)

-- Every source, before the clip
unfoldable pub gather_hot :
    (ℕ → Option ℕ) → ℕ → List SignalPair → List ℕ → List ℕ → List (ℕ × ℕ) → List HotStock
unfolding admit_hot admit_market_tier
gather_hot active_symbols market_max pairs signal_bound market items =
    (admit_market_tier active_symbols market_max market (
      admit_watchlist items
        (admit_triggers active_symbols (sort_by leb signal_bound) (admit_signals pairs [])))).0

unfoldable pub stats_of : List HotStock → List HotStock → HotSetStats
stats_of hot kept = record {
  raw = length hot;
  kept_stocks = length kept;
  clipped = length hot - length kept;
  signal_stocks = length (keep (λ h. h.from_signal) kept);
  trigger_stocks = length (keep (λ h. h.from_trigger) kept);
  watchlist_stocks = length (keep (λ h. h.from_watchlist) kept);
  market_stocks = length (keep (λ h. h.from_market) kept);
}

-- `none` is a stream that could not be read.
abbrev pub tiers_of : ℕ → Option (List StreamEntry) → List ℕ × List ℕ
tiers_of cutoff none = ([], [])
tiers_of cutoff (some entries) = recent_alert_sids cutoff entries [] []

unfoldable pub load_hot_set :
    ℕ
    → (ℕ → Option ℕ)
    → ℕ
    → ℕ
    → List SignalPair
    → Option (List StreamEntry)
    → List (ℕ × ℕ)
    → List HotStock × (List SignalPair × HotSetStats)
unfolding gather_hot clip stats_of
load_hot_set cutoff active_symbols market_max hotset_max pairs alerts items =
    let (signal_bound, market) = tiers_of cutoff alerts in
    let hot : List HotStock =
      gather_hot active_symbols market_max pairs signal_bound market items in
    (clip hotset_max hot, (pairs, stats_of hot (clip hotset_max hot)))
