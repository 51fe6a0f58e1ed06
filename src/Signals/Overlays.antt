-- ===== src/Signals/Overlays.antt =====
-- What the eligibility overlays of the order path share (backend/app/signals/*_guard.py and their
-- siblings): the mode of a gate (backend/app/core/config.py) and the reading of a series from its
-- end. A setting in percent is in units of 0.01 percent; a ratio that is only compared is compared
-- as a product, without rounding. The texts of reasons and the displayed percentages are left out.
pub mod Regime
pub mod LiquidityGuard
pub mod MarketRegime
pub mod SectorRs
pub mod EntryQuality
pub mod CircuitGuard
use ln_trading_app.Prelude.{Bool, List, Option, drop, false, get_elem?, length, true, ℕ, ◌&&◌, ◌-◌}

-- `Literal["off", "shadow", "active"]`
pub data Mode : Type 0 where
  mode_off mode_shadow mode_active : Mode

-- `mode != "off"`
abbrev pub is_on : Mode → Bool
is_on mode_off = false
is_on mode_shadow = true
is_on mode_active = true

-- `mode == "active"`
abbrev pub is_active : Mode → Bool
is_active mode_off = false
is_active mode_shadow = false
is_active mode_active = true

-- `order_block_reason` of an overlay: only an active mode rejects.
abbrev pub block_if : Mode → Bool → Bool
block_if mode blocked = is_active mode && blocked

module _ {ℓ} {A : Type ℓ} where
  -- `xs[-n:]` for a positive `n`
  abbrev pub last_n : ℕ → List A → List A
  last_n n xs = drop (length xs - n) xs

  -- `xs[-n]` for a positive `n` up to the length
  abbrev pub from_end : ℕ → List A → Option A
  from_end n xs = get_elem? xs (length xs - n)
