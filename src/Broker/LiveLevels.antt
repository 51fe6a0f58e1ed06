-- ===== src/Broker/LiveLevels.antt =====
-- The levels that the engine watches for a signal (backend/app/broker/live_levels.py). The hash of a
-- signal is a field of it. Of what alerts say of a level the style is left out.
mod Examples
pub mod Ids
pub mod Directory
use ln_trading_app.Prelude.{
  Bool, List, Option, [], false, if◌then◌else◌, none, some, suc, true, zero, ℕ, ◌%◌, ◌&&◌, ◌*◌,
  ◌++◌, ◌+◌, ◌-◌, ◌==◌, ◌∷◌,
}
use ln_trading_app.Clock.{second}
use ln_trading_app.Prelude.Round.{round_half_even}

-- A level as the engine takes it
pub data Level : Type 0 where
  zone : ℕ → ℕ → ℕ → Level
  near : ℕ → ℕ → ℕ → Level
  cross_up : ℕ → ℕ → ℕ → Level
  cross_down : ℕ → ℕ → ℕ → Level
  vburst : ℕ → ℕ → ℕ → Level

abbrev pub level_id : Level → ℕ
level_id (zone id low high) = id
level_id (near id price within) = id
level_id (cross_up id price rearm) = id
level_id (cross_down id price rearm) = id
level_id (vburst id baseline mult) = id

-- `==` on the dictionaries of two levels
abbrev pub same_level : Level → Level → Bool
same_level (zone i a b) (zone j c d) = (i == j) && ((a == c) && (b == d))
same_level (near i a b) (near j c d) = (i == j) && ((a == c) && (b == d))
same_level (cross_up i a b) (cross_up j c d) = (i == j) && ((a == c) && (b == d))
same_level (cross_down i a b) (cross_down j c d) = (i == j) && ((a == c) && (b == d))
same_level (vburst i a b) (vburst j c d) = (i == j) && ((a == c) && (b == d))
same_level _ _ = false

abbrev pub same_levels : List Level → List Level → Bool
same_levels [] [] = true
same_levels (a ∷ first) (b ∷ second) = same_level a b && same_levels first second
same_levels _ _ = false

pub data LevelSource : Type 0 where
  entry_source sl_near sl_touched tp_near tp_touched : LevelSource

pub record LevelMeta : Type 0 where
  pub meta_id : ℕ
  pub meta_source : LevelSource
  pub meta_signal : ℕ
  pub meta_shadow : Bool

abbrev pub signal_base_id : ℕ
signal_base_id = 1_000

abbrev pub sr_base_id : ℕ
sr_base_id = 100

abbrev pub sr_id_span : ℕ
sr_id_span = 1_048_576

-- The id of one of the slots 0 to 4 of a signal with a hash
unfoldable pub signal_level_id : ℕ → ℕ → ℕ
signal_level_id hash slot = signal_base_id + hash * 8 + slot

-- The id of a zone of support or resistance with a hash
unfoldable pub sr_level_id : ℕ → ℕ
sr_level_id hash = sr_base_id + hash % sr_id_span

pub record LevelSignal : Type 0 where
  pub live_id : ℕ
  pub live_hash : ℕ
  pub live_stock : ℕ
  pub live_timeframe : ℕ
  pub live_entry : ℕ
  pub live_sl : Option ℕ
  pub live_tp : Option ℕ
  pub is_buy : Bool
  pub is_shadow : Bool

-- The entry zone as a fraction of the entry, and the two settings in basis points
pub record LevelSettings : Type 0 where
  pub zone_num : ℕ
  pub zone_den : ℕ
  pub within_bp : ℕ
  pub rearm_bp : ℕ

abbrev pub levels_or_empty : Option (List Level) → List Level
levels_or_empty none = []
levels_or_empty (some levels) = levels

abbrev pub positive : Option ℕ → Option ℕ
positive none = none
positive (some zero) = none
positive (some (suc price)) = some (suc price)

-- `_q4` of a price times `num / den`, in ten-thousandths
abbrev pub q4 : ℕ → ℕ → ℕ → ℕ
q4 price num den = round_half_even (price * num) (den * 10_000)

abbrev pub meta_of : LevelSignal → ℕ → LevelSource → LevelMeta
meta_of sig id source = record {
  meta_id = id;
  meta_source = source;
  meta_signal = sig.live_id;
  meta_shadow = sig.is_shadow;
}

-- The approach and the touch of a stop
abbrev pub sl_levels : LevelSettings → LevelSignal → List Level × List LevelMeta
sl_levels settings sig = elim (positive sig.live_sl) [
  | none ↦ ([], [])
  | some price ↦
      let near_id = signal_level_id sig.live_hash 1 in
      let touch_id = signal_level_id sig.live_hash 3 in
      (
        near near_id (q4 price 1 1) settings.within_bp
            ∷ (if sig.is_buy
                then cross_down touch_id (q4 price 1 1) settings.rearm_bp
                else cross_up touch_id (q4 price 1 1) settings.rearm_bp)
            ∷ [],
        meta_of sig near_id sl_near ∷ meta_of sig touch_id sl_touched ∷ [],
      )
]

-- The approach and the touch of a target
abbrev pub tp_levels : LevelSettings → LevelSignal → List Level × List LevelMeta
tp_levels settings sig = elim (positive sig.live_tp) [
  | none ↦ ([], [])
  | some price ↦
      let near_id = signal_level_id sig.live_hash 2 in
      let touch_id = signal_level_id sig.live_hash 4 in
      (
        near near_id (q4 price 1 1) settings.within_bp
            ∷ (if sig.is_buy
                then cross_up touch_id (q4 price 1 1) settings.rearm_bp
                else cross_down touch_id (q4 price 1 1) settings.rearm_bp)
            ∷ [],
        meta_of sig near_id tp_near ∷ meta_of sig touch_id tp_touched ∷ [],
      )
]

-- The levels of one active signal, and what alerts say of each
unfoldable pub signal_levels : LevelSettings → LevelSignal → List Level × List LevelMeta
unfolding signal_level_id
signal_levels settings sig =
    let id = signal_level_id sig.live_hash 0 in
    let (sl, sl_meta) = sl_levels settings sig in
    let (tp, tp_meta) = tp_levels settings sig in
    (
      zone id (q4 sig.live_entry (settings.zone_den - settings.zone_num) settings.zone_den)
              (q4 sig.live_entry (settings.zone_den + settings.zone_num) settings.zone_den)
            ∷ sl
          ++ tp,
      meta_of sig id entry_source ∷ sl_meta ++ tp_meta,
    )
