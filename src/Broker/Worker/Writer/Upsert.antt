-- ===== src/Broker/Worker/Writer/Upsert.antt =====
-- What the writer leaves in a table of candles, whatever fails and is retried.
use mathlib.Core.Path.{fun_ext}
use ln_trading_app.Prelude.{
  Bool, Bool-cases, List, Option, [], arith, false, if◌then◌else◌, inl, inr, none, refl, some, ℕ,
  ◌&&◌, ◌==◌, ◌∷◌, ◌≡◌,
}
use ln_trading_app.Broker.Worker.Writer.{
  CandleTable, Minted, StoredCandle, Tables, inserted, is_at, merged, persist_committed, same_table,
  table_of, upsert, upsert_into,
}

-- The row of a time and stock
unfoldable pub stored_at : ℕ → ℕ → List StoredCandle → Option StoredCandle
stored_at time stock [] = none
stored_at time stock (row ∷ rows) =
    let rest = stored_at time stock rows in if is_at time stock row then some row else rest

-- What an event makes of the row it falls on, or of no row
unfoldable pub merged_into : Minted → Option StoredCandle → StoredCandle
unfolding inserted merged
merged_into e none = inserted e
merged_into e (some row) = merged e row

-- The upsert changes the row of its time and stock and no other: it is the update of a map.
pub upsert_lem :
    (e : Minted) (time stock : ℕ) (rows : List StoredCandle)
    → stored_at time stock (upsert e rows) ≡ (
        if (e.minted_time == time) && (e.minted_stock == stock)
        then some (merged_into e (stored_at time stock rows))
        else stored_at time stock rows)
unfolding upsert stored_at merged_into inserted merged
upsert_lem e time stock [] = ground arith
upsert_lem e time stock (row ∷ rows) = let rest = upsert_lem e time stock rows in ground arith

-- The same candle once more leaves the table as it is.
pub upsert_again :
    (e : Minted) (rows : List StoredCandle) → upsert e (upsert e rows) ≡ upsert e rows
unfolding upsert inserted merged
upsert_again e [] = ground arith
upsert_again e (row ∷ rows) = let rest = upsert_again e rows in ground arith

-- What an event leaves, the tables as they were if its timeframe has none
abbrev pub or_unchanged : Tables → Option Tables → Tables
or_unchanged tables none = tables
or_unchanged tables (some written) = written

unfoldable pub persisted : Minted → Tables → Tables
unfolding persist_committed
persisted e tables = or_unchanged tables (persist_committed e tables)

abbrev pub is_into : CandleTable → Option CandleTable → Bool
is_into t none = false
is_into t (some table) = same_table t table

-- Each table takes the events of its own timeframe and no other.
pub persisted_lem :
    (e : Minted) (tables : Tables) (t : CandleTable)
    → persisted e tables t ≡ (if is_into t (table_of e) then upsert e (tables t) else tables t)
unfolding persisted persist_committed upsert_into
persisted_lem e tables t = upsert_into_lem (table_of e)
  where
    upsert_into_lem :
        (o : Option CandleTable)
        → or_unchanged tables (upsert_into o e tables) t
          ≡ (if is_into t o then upsert e (tables t) else tables t)
    upsert_into_lem none = refl
    upsert_into_lem (some table) = refl

-- A candle that was committed and is persisted once more, as after an error behind the commit,
-- leaves every table as it is.
pub persisted_again :
    (e : Minted) (tables : Tables) → persisted e (persisted e tables) ≡ persisted e tables
persisted_again e tables = fun_ext (λ t.
    let first = persisted_lem e tables t in
    let again = persisted_lem e (persisted e tables) t in
    let twice = upsert_again e (tables t) in
    elim (Bool-cases (is_into t (table_of e))) [
      | inl into ↦ ground arith
      | inr apart ↦ ground arith
    ])
