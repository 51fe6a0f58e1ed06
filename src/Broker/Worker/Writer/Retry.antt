-- ===== src/Broker/Worker/Writer/Retry.antt =====
-- The writer's retries, bursts and sentinel.
use ln_trading_app.Prelude.{
  Bool, Bool-cases, List, Option, [], ap, arith, false, if◌then◌else◌, inl, inr, keep, none, refl,
  some, suc, sym, true, zero, ℕ, ◌&&◌, ◌++◌, ◌||◌, ◌∙◌, ◌∷◌, ◌≡◌,
}
use ln_trading_app.Broker.Worker.Writer.{
  Attempted, CandleTable, Minted, QueueGet, Tables, attempted, attempts_per_candle,
  committed_then_raised, executor_shut_down, got_burst, got_sentinel, persist_burst,
  persist_committed, persist_with_retry, returned, rolled_back, run_writer, table_of, upsert_into,
}
use ln_trading_app.Broker.Worker.Writer.Upsert.{or_unchanged, persisted, persisted_again}

abbrev pub reaches : Attempted → Bool
reaches rolled_back = false
reaches committed_then_raised = true
reaches returned = true

-- Some attempt of the first few commits
abbrev pub lands : ℕ → (ℕ → Attempted) → Bool
lands zero attempts = false
lands (suc left) attempts = reaches (attempts left) || lands left attempts

-- Every event persisted once, with no faults
unfoldable pub persist_all : List Minted → Tables → Tables
persist_all [] tables = tables
persist_all (e ∷ es) tables = persist_all es (persisted e tables)

if_same {ℓ} : {A : Type ℓ} (b : Bool) (x : A) → (if b then x else x) ≡ x
if_same true x = refl
if_same false x = refl

-- One round, given what the rest of the rounds leave
attempted_lem :
    (how : Attempted) (again : Tables → Tables × Bool) (later : Bool) (tables : Tables)
    (o : Option Tables)
    → (again tables).0 ≡ (if later then or_unchanged tables o else tables)
    → (again (or_unchanged tables o)).0 ≡ or_unchanged tables o
    → (attempted how again tables o).0
      ≡ (if reaches how || later then or_unchanged tables o else tables)
unfolding attempted
attempted_lem how again later tables none old new =
    new ∙ sym (if_same (reaches how || later) tables)
attempted_lem rolled_back again later tables (some once) old new = old
attempted_lem committed_then_raised again later tables (some once) old new = new
attempted_lem returned again later tables (some once) old new = refl

-- However the attempts on a candle end, the tables are the ones that a single statement leaves if
-- some attempt commits, and the old ones if none does.
pub persist_with_retry_lem :
    (left : ℕ) (attempts : ℕ → Attempted) (e : Minted) (tables : Tables)
    → (persist_with_retry left attempts e tables).0
      ≡ (if lands left attempts then persisted e tables else tables)
unfolding persist_with_retry persisted
persist_with_retry_lem zero attempts e tables = refl
persist_with_retry_lem (suc left) attempts e tables =
    attempted_lem (attempts left) (persist_with_retry left attempts e) (lands left attempts) tables
      (persist_committed e tables) (persist_with_retry_lem left attempts e tables)
      (persist_with_retry_lem left attempts e (persisted e tables)
        ∙ (ap (λ x. if lands left attempts then x else persisted e tables)
              (persisted_again e tables)
            ∙ if_same (lands left attempts) (persisted e tables)))

-- Events whose timeframe has a table
abbrev pub has_table : Option CandleTable → Bool
has_table none = false
has_table (some table) = true

persisted_none :
    (e : Minted) (tables : Tables) → has_table (table_of e) ≡ false → persisted e tables ≡ tables
unfolding persisted persist_committed
persisted_none e tables h = nowhere (table_of e) h
  where
    nowhere :
        (o : Option CandleTable)
        → has_table o ≡ false
        → or_unchanged tables (upsert_into o e tables) ≡ tables
    nowhere none h = refl
    nowhere (some table) h = ground arith

module _ (faults : Minted → ℕ → Attempted) where
  -- The timeframe of the event has a table and one of its three attempts commits.
  abbrev pub is_kept : Minted → Bool
  is_kept e = has_table (table_of e) && lands attempts_per_candle (faults e)

  persisted_once :
      (e : Minted) (tables : Tables)
      → (persist_with_retry attempts_per_candle (faults e) e tables).0
        ≡ (if is_kept e then persisted e tables else tables)
  persisted_once e tables =
      persist_with_retry_lem attempts_per_candle (faults e) e tables
      ∙ elim (Bool-cases (has_table (table_of e))) [
        | inl found ↦ rw found refl
        | inr has_none ↦ rw has_none (
            ap (λ x. if lands attempts_per_candle (faults e) then x else tables)
              (persisted_none e tables has_none)
            ∙ if_same (lands attempts_per_candle (faults e)) tables)
      ]

  pub persist_burst_lem :
      (burst : List Minted) (tables : Tables)
      → persist_burst faults burst tables ≡ persist_all (keep is_kept burst) tables
  unfolding persist_burst persist_all
  persist_burst_lem [] tables = refl
  persist_burst_lem (e ∷ burst) tables =
      ap (persist_burst faults burst) (persisted_once e tables) ∙ elim (Bool-cases (is_kept e)) [
        | inl kept ↦ rw kept (persist_burst_lem burst (persisted e tables))
        | inr dropped ↦ rw dropped (persist_burst_lem burst tables)
      ]

  persist_all-++ :
      (xs ys : List Minted) (tables : Tables)
      → persist_all (xs ++ ys) tables ≡ persist_all ys (persist_all xs tables)
  unfolding persist_all
  persist_all-++ [] ys tables = refl
  persist_all-++ (x ∷ xs) ys tables = persist_all-++ xs ys (persisted x tables)

  -- The candles of all bursts that have a table and that some attempt could commit
  abbrev pub kept_of : List (List Minted) → List Minted
  kept_of [] = []
  kept_of (burst ∷ bursts) = keep is_kept burst ++ kept_of bursts

  -- What ends the loop: the sentinel, or the teardown of the executor
  abbrev pub ending : Bool → QueueGet
  ending false = got_sentinel
  ending true = executor_shut_down

  -- The bursts, what ends the loop behind them, and later reads
  abbrev pub gets_of : List (List Minted) → Bool → List QueueGet → List QueueGet
  gets_of [] torn_down later = ending torn_down ∷ later
  gets_of (burst ∷ bursts) torn_down later = got_burst burst ∷ gets_of bursts torn_down later

  -- The writer ends at the sentinel, or when the teardown shuts its executor down, with every burst
  -- read before that worked off: the tables are the ones that persisting each candle once, in order
  -- and into the table of its timeframe, gives, without the candles whose timeframe has no table and
  -- those none of whose three attempts commits; such a candle takes no other with it.
  pub run_writer_lem :
      (bursts : List (List Minted)) (torn_down : Bool) (later : List QueueGet) (tables : Tables)
      → run_writer faults (gets_of bursts torn_down later) tables
        ≡ (persist_all (kept_of bursts) tables, later)
  unfolding run_writer persist_all
  run_writer_lem [] false later tables = refl
  run_writer_lem [] true later tables = refl
  run_writer_lem (burst ∷ bursts) torn_down later tables =
      run_writer_lem bursts torn_down later (persist_burst faults burst tables)
      ∙ ap (λ all. (all, later))
          (ap (persist_all (kept_of bursts)) (persist_burst_lem burst tables)
            ∙ sym (persist_all-++ (keep is_kept burst) (kept_of bursts) tables))
