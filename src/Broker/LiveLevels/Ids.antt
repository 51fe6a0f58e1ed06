-- ===== src/Broker/LiveLevels/Ids.antt =====
-- The ids of the levels of signals.
use ln_trading_app.Prelude.{
  All, All-++, All-map, Bool-cases, Option, Option-cases, arith, inl, inr, none, refl, some, ℕ, ◌<◌,
  ◌≡◌, ◌≢◌, ◌⊎◌,
}
use ln_trading_app.Broker.LiveLevels.{
  LevelSettings, LevelSignal, level_id, positive, signal_level_id, signal_levels, sl_levels,
  tp_levels,
}

-- 2 to the power of 48, and of 53
abbrev pub hash_span : ℕ
hash_span = 281_474_976_710_656

abbrev pub json_safe : ℕ
json_safe = 9_007_199_254_740_992

-- The id is one of a slot of the hash.
abbrev pub IsOf : ℕ → ℕ → Type 0
IsOf hash id = (slot : ℕ) × ((slot < 8) × (id ≡ signal_level_id hash slot))

positive_cases : (o : Option ℕ) → (positive o ≡ none) ⊎ ((price : ℕ) × (positive o ≡ some price))
positive_cases o = Option-cases (positive o)

sl_levels-IsOf :
    (settings : LevelSettings) (sig : LevelSignal)
    → All (λ l. IsOf sig.live_hash (level_id l)) (sl_levels settings sig).0
sl_levels-IsOf settings sig = elim (positive_cases sig.live_sl) [
  | inl absent ↦ rw (All, absent) tt
  | inr (price, present) ↦ elim (Bool-cases sig.is_buy) [
    | inl buys ↦ rw (All, present, buys) ((1, (omega arith, refl)), ((3, (omega arith, refl)), tt))
    | inr sells ↦
        rw (All, present, sells) ((1, (omega arith, refl)), ((3, (omega arith, refl)), tt))
  ]
]

tp_levels-IsOf :
    (settings : LevelSettings) (sig : LevelSignal)
    → All (λ l. IsOf sig.live_hash (level_id l)) (tp_levels settings sig).0
tp_levels-IsOf settings sig = elim (positive_cases sig.live_tp) [
  | inl absent ↦ rw (All, absent) tt
  | inr (price, present) ↦ elim (Bool-cases sig.is_buy) [
    | inl buys ↦ rw (All, present, buys) ((2, (omega arith, refl)), ((4, (omega arith, refl)), tt))
    | inr sells ↦
        rw (All, present, sells) ((2, (omega arith, refl)), ((4, (omega arith, refl)), tt))
  ]
]

signal_levels-IsOf :
    (settings : LevelSettings) (sig : LevelSignal)
    → All (λ l. IsOf sig.live_hash (level_id l)) (signal_levels settings sig).0
unfolding signal_levels
signal_levels-IsOf settings sig = (
  (0, (omega arith, refl)),
  All-++ (λ l. IsOf sig.live_hash (level_id l)) (sl_levels settings sig).0
      (tp_levels settings sig).0 (sl_levels-IsOf settings sig) (tp_levels-IsOf settings sig),
)

IsOf-apart : (h h' i j : ℕ) → h ≢ h' → IsOf h i → IsOf h' j → i ≢ j
unfolding signal_level_id
IsOf-apart h h' i j differ (slot, (low, e)) (slot', (low', e')) same = differ (omega arith)

id_below : (h i : ℕ) → h < hash_span → IsOf h i → i < json_safe
unfolding signal_level_id
id_below h i low (slot, (few, e)) = omega arith

-- Two signals with different hashes have no level id in common, and while the hash has 48 bits every
-- id is a number that JSON keeps exact.
pub signal_levels_apart :
    (settings : LevelSettings) (sig sig' : LevelSignal)
    → sig.live_hash < hash_span
    → sig.live_hash ≢ sig'.live_hash
    → All
        (λ l.
          (level_id l < json_safe)
          × All (λ m. level_id l ≢ level_id m) (signal_levels settings sig').0)
        (signal_levels settings sig).0
signal_levels_apart settings sig sig' low differ =
    All-map (signal_levels settings sig).0
      (λ l own. (
        id_below sig.live_hash (level_id l) low own,
        All-map (signal_levels settings sig').0
            (λ m its.
              IsOf-apart sig.live_hash sig'.live_hash (level_id l) (level_id m) differ own its)
            (signal_levels-IsOf settings sig'),
      ))
      (signal_levels-IsOf settings sig)
