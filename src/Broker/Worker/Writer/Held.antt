-- ===== src/Broker/Worker/Writer/Held.antt =====
-- What a committed candle leaves in its table for good.
use mathlib.Core.Path.{subst}
use ln_trading_app.Prelude.{
  All, Bool, Bool-cases, List, Option, [], ap, arith, inl, inr, keep, none, refl, some, sym, true,
  ℕ, ◌&&◌, ◌==◌, ◌∙◌, ◌∷◌, ◌≡◌, ◌≤◌,
}
use ln_trading_app.Broker.Worker.Writer.{
  CandleTable, Minted, StoredCandle, Tables, inserted, merged, ohlcv_15m, ohlcv_1h, ohlcv_1m,
  ohlcv_5m, table_minutes, table_of, tf_label, timeframe_table, upsert,
}
use ln_trading_app.Broker.Worker.Writer.Retry.{persist_all}
use ln_trading_app.Broker.Worker.Writer.Upsert.{
  is_into, merged_into, persisted, persisted_lem, stored_at, upsert_lem,
}

-- The statement for each event, on one table
abbrev pub upsert_all : List Minted → List StoredCandle → List StoredCandle
upsert_all [] rows = rows
upsert_all (e ∷ es) rows = upsert_all es (upsert e rows)

abbrev pub Covers : Minted → Option StoredCandle → Type 0
Covers e none = ⊥
Covers e (some row) =
    (e.minted_high ≤ row.stored_high)
    × ((row.stored_low ≤ e.minted_low) × (e.minted_volume ≤ row.stored_volume))

-- One table has a row for the event, with at least its range and volume.
abbrev pub HoldsIn : Minted → List StoredCandle → Type 0
HoldsIn e rows = Covers e (stored_at e.minted_time e.minted_stock rows)

merged_into-Covers :
    (e later : Minted) (o : Option StoredCandle)
    → Covers e o
    → Covers e (some (merged_into later o))
unfolding merged_into merged
merged_into-Covers e later none h = absurd h
merged_into-Covers e later (some row) h = ground arith

merged_into-Covers_self : (e : Minted) (o : Option StoredCandle) → Covers e (some (merged_into e o))
unfolding merged_into merged inserted
merged_into-Covers_self e none = ground arith
merged_into-Covers_self e (some row) = ground arith

upsert-HoldsIn :
    (e later : Minted) (rows : List StoredCandle) → HoldsIn e rows → HoldsIn e (upsert later rows)
upsert-HoldsIn e later rows h =
    subst (Covers e) (sym (upsert_lem later e.minted_time e.minted_stock rows))
      (elim (Bool-cases
        ((later.minted_time == e.minted_time) && (later.minted_stock == e.minted_stock))) [
          | inl same ↦
              rw same (merged_into-Covers e later (stored_at e.minted_time e.minted_stock rows) h)
          | inr different ↦ rw different h
        ])

same_key : (a b : ℕ) → ((a == a) && (b == b)) ≡ true
same_key a b = ground arith

upsert-HoldsIn_self : (e : Minted) (rows : List StoredCandle) → HoldsIn e (upsert e rows)
upsert-HoldsIn_self e rows =
    subst (Covers e) (sym (upsert_lem e e.minted_time e.minted_stock rows)) (
      rw (same_key e.minted_time e.minted_stock)
        (merged_into-Covers_self e (stored_at e.minted_time e.minted_stock rows)))

upsert_all-HoldsIn :
    (e : Minted) (es : List Minted) (rows : List StoredCandle)
    → HoldsIn e rows
    → HoldsIn e (upsert_all es rows)
upsert_all-HoldsIn e [] rows h = h
upsert_all-HoldsIn e (x ∷ es) rows h =
    upsert_all-HoldsIn e es (upsert x rows) (upsert-HoldsIn e x rows h)

upsert_all-All :
    (es : List Minted) (rows : List StoredCandle) → All (λ e. HoldsIn e (upsert_all es rows)) es
upsert_all-All [] rows = tt
upsert_all-All (e ∷ es) rows = (
  upsert_all-HoldsIn e es (upsert e rows) (upsert-HoldsIn_self e rows),
  upsert_all-All es (upsert e rows),
)

-- The events of the minutes that the table is for
abbrev pub goes_to : CandleTable → Minted → Bool
goes_to t e = table_minutes t == e.tf_minutes

is_into_lem : (t : CandleTable) (e : Minted) → is_into t (table_of e) ≡ goes_to t e
unfolding table_of tf_label timeframe_table
is_into_lem ohlcv_1m e = ground arith
is_into_lem ohlcv_5m e = ground arith
is_into_lem ohlcv_15m e = ground arith
is_into_lem ohlcv_1h e = ground arith

persist_all_lem :
    (es : List Minted) (tables : Tables) (t : CandleTable)
    → persist_all es tables t ≡ upsert_all (keep (goes_to t) es) (tables t)
unfolding persist_all
persist_all_lem [] tables t = refl
persist_all_lem (e ∷ es) tables t =
    persist_all_lem es (persisted e tables) t ∙ elim (Bool-cases (goes_to t e)) [
      | inl into ↦ rw into (
          ap (upsert_all (keep (goes_to t) es))
            (persisted_lem e tables t ∙ rw (is_into_lem t e) rw into refl))
      | inr apart ↦ rw apart (
          ap (upsert_all (keep (goes_to t) es))
            (persisted_lem e tables t ∙ rw (is_into_lem t e) rw apart refl))
    ]

-- Over the events of one run, whatever is in the tables: a table holds what the events of its own
-- timeframe, in order, make of it and nothing of any other timeframe; and each of those events has a
-- row in it at the end, which no later or repeated candle gives a smaller range or a lower volume.
pub persist_all-All :
    (es : List Minted) (tables : Tables) (t : CandleTable)
    → (persist_all es tables t ≡ upsert_all (keep (goes_to t) es) (tables t))
      × All (λ e. HoldsIn e (persist_all es tables t)) (keep (goes_to t) es)
persist_all-All es tables t = (
  persist_all_lem es tables t,
  subst (λ rows. All (λ e. HoldsIn e rows) (keep (goes_to t) es))
      (sym (persist_all_lem es tables t)) (upsert_all-All (keep (goes_to t) es) (tables t)),
)
