-- ===== src/Broker/LiveLevels/Directory.antt =====
-- The directory of levels and how its changes reach the engine (LevelDirectory of
-- backend/app/broker/live_levels.py, _apply_levels of backend/app/broker/live_worker.py). The zones of
-- support and resistance of a stock and timeframe are an argument, what the detector finds at that
-- moment; a dictionary is a list, in its order of insertion but for the acknowledged levels, whose
-- order decides nothing. What alerts say of the levels is left out.
pub mod Settle
pub mod Changes
pub mod Cycle
use ln_trading_app.Prelude.{
  Bool, List, Option, [], any, if◌then◌else◌, keep, map, none, not, some, true, ℕ, ◌&&◌, ◌++◌, ◌==◌,
  ◌∷◌,
}
use ln_trading_app.Broker.LiveLevels.{
  Level, LevelSettings, LevelSignal, levels_or_empty, same_levels, signal_levels,
}

-- A dictionary from stocks to levels
abbrev pub StockLevels : Type 0
StockLevels = List (ℕ × List Level)

abbrev pub lookup : ℕ → StockLevels → Option (List Level)
lookup sid [] = none
lookup sid ((key, levels) ∷ dict) =
    let rest = lookup sid dict in if key == sid then some levels else rest

-- `setdefault(sid, []).extend(more)`
unfoldable pub extend : ℕ → List Level → StockLevels → StockLevels
extend sid more [] = (sid, more) ∷ []
extend sid more ((key, levels) ∷ dict) =
    let rest = extend sid more dict in
    if key == sid then (key, levels ++ more) ∷ dict else (key, levels) ∷ rest

abbrev pub is_done : ℕ → ℕ → List (ℕ × ℕ) → Bool
is_done sid timeframe done = any (λ pair. (pair.0 == sid) && (pair.1 == timeframe)) done

-- The loop of refresh over the active signals; `none` is a stock whose zones could not be loaded.
unfoldable pub merge_signals :
    LevelSettings
    → (ℕ → ℕ → Option (List Level))
    → List LevelSignal
    → List (ℕ × ℕ)
    → StockLevels
    → StockLevels
unfolding signal_levels extend
merge_signals settings sr [] done joined = joined
merge_signals settings sr (sig ∷ sigs) done joined =
    let own = extend sig.live_stock (signal_levels settings sig).0 joined in
    let key : ℕ × ℕ = (sig.live_stock, sig.live_timeframe) in
    let again = merge_signals settings sr sigs done own in
    let failed = merge_signals settings sr sigs (key ∷ done) own in
    let zones = levels_or_empty (sr sig.live_stock sig.live_timeframe) in
    let first = merge_signals settings sr sigs (key ∷ done) (extend sig.live_stock zones own) in
    if is_done sig.live_stock sig.live_timeframe done
    then again
    else elim (sr sig.live_stock sig.live_timeframe) [ none ↦ failed | some loaded ↦ first ]

unfoldable pub is_unsent : StockLevels → ℕ × List Level → Bool
is_unsent last_sent (sid, levels) = elim (lookup sid last_sent) [
  | none ↦ true
  | some sent ↦ not (same_levels sent levels)
]

abbrev pub has_stock : ℕ → StockLevels → Bool
has_stock sid dict = any (λ entry. entry.0 == sid) dict

-- What changed against what was acknowledged
unfoldable pub changes : StockLevels → StockLevels → List (ℕ × List Level)
unfolding is_unsent
changes joined last_sent =
    keep (is_unsent last_sent) joined
    ++ map (λ entry. (entry.0, [])) (keep (λ entry. not (has_stock entry.0 joined)) last_sent)

unfoldable pub refresh :
    LevelSettings
    → (ℕ → ℕ → Option (List Level))
    → List LevelSignal
    → StockLevels
    → StockLevels
    → List (ℕ × List Level)
unfolding merge_signals changes
refresh settings sr sigs static_levels last_sent =
    changes (merge_signals settings sr sigs [] static_levels) last_sent

abbrev pub remove : ℕ → StockLevels → StockLevels
remove sid dict = keep (λ entry. not (entry.0 == sid)) dict

-- The acknowledgement of the consumer
unfoldable pub mark_sent : ℕ → List Level → StockLevels → StockLevels
mark_sent sid [] last_sent = remove sid last_sent
mark_sent sid (l ∷ levels) last_sent = (sid, l ∷ levels) ∷ remove sid last_sent

-- What the engine holds for each stock, and what was acknowledged
pub record LevelState : Type 0 where
  pub engine : ℕ → List Level
  pub last_sent : StockLevels

abbrev pub set_levels : ℕ → List Level → (ℕ → List Level) → ℕ → List Level
set_levels sid levels engine stock = if sid == stock then levels else engine stock

-- `accepts` is the validation of the engine; a stock that it rejects is not acknowledged.
unfoldable pub apply_levels :
    (ℕ → List Level → Bool) → List (ℕ × List Level) → LevelState → LevelState
unfolding mark_sent
apply_levels accepts [] s = s
apply_levels accepts ((sid, levels) ∷ payload) s = apply_levels accepts payload (
    if accepts sid levels
    then record {
      engine = set_levels sid levels s.engine;
      last_sent = mark_sent sid levels s.last_sent;
    }
    else s)
