-- ===== src/Signals/Overlays/CircuitGuard.antt =====
-- The circuit-band overlay (backend/app/signals/circuit_guard.py) and the reading of a band
-- (backend/app/broker/circuit_bands.py). A quoted limit is an integer of money units, or `none` if
-- it is not a number.
use ln_trading_app.Prelude.{
  Bool, Option, false, if◌then◌else◌, leb, none, some, suc, true, ℕ, ◌*◌, ◌+◌,
}
use ln_trading_app.Money.{Side, long, short}
use ln_trading_app.Prelude.Int.{pos, ℤ}
use ln_trading_app.Signals.Overlays.{Mode, block_if}

pub record CircuitBand : Type 0 where
  pub lower : ℕ
  pub upper : ℕ

-- The limits of one quote, or of one cached envelope
pub record QuotedBand : Type 0 where
  pub lower_circuit_limit : Option ℤ
  pub upper_circuit_limit : Option ℤ

-- `lower <= 0 or upper <= 0 or upper <= lower` is no band.
abbrev pub usable_band : ℤ → ℤ → Option CircuitBand
usable_band (pos (suc a)) (pos (suc b)) =
    if leb (suc b) (suc a) then none else some (record { lower = suc a; upper = suc b })
usable_band _ _ = none

unfoldable pub parse_quote_band : Option QuotedBand → Option CircuitBand
parse_quote_band none = none
parse_quote_band (some quoted) = elim quoted.lower_circuit_limit [
  | none ↦ none
  | some low ↦ elim quoted.upper_circuit_limit [ none ↦ none | some high ↦ usable_band low high ]
]

pub record CircuitVerdict : Type 0 where
  pub circuit_blocked : Bool
  pub has_band : Bool
  pub circuit_side : Side
  pub circuit_entry : ℕ
  pub band : Option CircuitBand
  pub proximity_pct : ℕ  -- in units of 0.01 percent

-- `distance_pct <= proximity_pct`, to the lower band for a long and to the upper one for a short
abbrev pub too_near : Side → ℕ → CircuitBand → ℕ → Bool
too_near long entry b proximity = leb (entry * 10_000) (proximity * entry + b.lower * 10_000)
too_near short entry b proximity = leb (b.upper * 10_000) (proximity * entry + entry * 10_000)

unfoldable pub evaluate_circuit : ℕ → Side → Option CircuitBand → ℕ → CircuitVerdict
evaluate_circuit entry side none proximity = record {
  circuit_blocked = false;
  has_band = false;
  circuit_side = side;
  circuit_entry = entry;
  band = none;
  proximity_pct = proximity;
}
evaluate_circuit entry side (some b) proximity = record {
  circuit_blocked = if leb entry 0 then false else too_near side entry b proximity;
  has_band = true;
  circuit_side = side;
  circuit_entry = entry;
  band = some b;
  proximity_pct = proximity;
}

abbrev pub circuit_block_reason : CircuitVerdict → Mode → Bool
circuit_block_reason verdict mode = block_if mode verdict.circuit_blocked
