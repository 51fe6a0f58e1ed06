-- ===== src/Broker/Sizing.antt =====
-- Risk-first sizing from the actual fill (`size_for_fill` in backend/app/broker/paper_broker.py).
-- Budgets are compared in units of 1e-4 of a money unit, so that they are whole.
use ln_trading_app.Prelude.{
  Bool-cases, Option, arith, if◌then◌else◌, inl, inr, leb, none, some, true, ℕ, ◌*◌, ◌+◌, ◌-◌, ◌<◌,
  ◌==◌, ◌≡◌, ◌≤◌,
}
use ln_trading_app.Prelude.Round.{
  distance, mul_mono_right, round_down, round_down_anti, round_down_bounds, round_down_zero,
}
use ln_trading_app.Signals.Levels.{compute_quantity}

-- What is open on the same name: its quantity and its average entry.
pub record Existing : Type 0 where
  pub existing_qty : ℕ
  pub existing_entry : ℕ

-- `budget - used`, scaled by 10,000 and stopped at zero
abbrev pub used_risk : Option Existing → ℕ → ℕ
used_risk none stop_loss = 0
used_risk (some e) stop_loss = e.existing_qty * distance e.existing_entry stop_loss * 10_000

abbrev pub quantity_or_zero : Option ℕ → ℕ
quantity_or_zero none = 0
quantity_or_zero (some qty) = qty

-- The first branch is `compute_quantity` with its ValueError caught.
unfoldable pub size_for_fill : ℕ → ℕ → ℕ → ℕ → Option Existing → ℕ
size_for_fill capital risk_pct fill stop_loss none =
    if distance fill stop_loss == 0
    then 0
    else quantity_or_zero (compute_quantity capital risk_pct fill stop_loss)
size_for_fill capital risk_pct fill stop_loss (some e) =
    if distance fill stop_loss == 0
    then 0
    else if e.existing_qty == 0
    then quantity_or_zero (compute_quantity capital risk_pct fill stop_loss)
    else if leb (capital * risk_pct) (used_risk (some e) stop_loss)
    then 0
    else round_down (capital * risk_pct - used_risk (some e) stop_loss)
        (10_000 * distance fill stop_loss)

-- Whatever is open, the size is the budget that is left over the risk per share.
size_for_fill_lem :
    (capital risk_pct fill stop_loss : ℕ) (existing : Option Existing)
    → 0 < distance fill stop_loss
    → size_for_fill capital risk_pct fill stop_loss existing
      ≡ round_down
          (capital * risk_pct - used_risk existing stop_loss)
          (10_000 * distance fill stop_loss)
unfolding size_for_fill compute_quantity
size_for_fill_lem capital risk_pct fill stop_loss none h = ground arith
size_for_fill_lem capital risk_pct fill stop_loss (some e) h =
    ground (arith, round_down_zero (10_000 * distance fill stop_loss))

size_for_fill_touching :
    (capital risk_pct fill stop_loss : ℕ) (existing : Option Existing)
    → (distance fill stop_loss == 0) ≡ true
    → size_for_fill capital risk_pct fill stop_loss existing ≡ 0
unfolding size_for_fill
size_for_fill_touching capital risk_pct fill stop_loss none h = ground arith
size_for_fill_touching capital risk_pct fill stop_loss (some e) h = ground arith

budget_left :
    (budget used risk : ℕ)
    → 0 < risk
    → let qty = round_down (budget - used) risk in
      (0 < qty → qty * risk + used ≤ budget) × (0 < risk → budget < (qty + 1) * risk + used)
budget_left budget used risk h =
    let qty : ℕ = round_down (budget - used) risk in
    let (low, high) = round_down_bounds (budget - used) risk h in
    (λ some_bought. omega (arith, mul_mono_right risk 1 qty some_bought), λ _. omega arith)

-- The added risk and the risk on the book stay within the per-trade budget, unless nothing is
-- bought; and where the stop is apart from the fill, one more share would not fit.
pub size_for_fill_budget :
    (capital risk_pct fill stop_loss : ℕ) (existing : Option Existing)
    → let qty = size_for_fill capital risk_pct fill stop_loss existing in
      let risk = 10_000 * distance fill stop_loss in
      (0 < qty → qty * risk + used_risk existing stop_loss ≤ capital * risk_pct)
      × (0 < risk → capital * risk_pct < (qty + 1) * risk + used_risk existing stop_loss)
size_for_fill_budget capital risk_pct fill stop_loss existing =
    elim (Bool-cases (distance fill stop_loss == 0)) [
      | inl touching ↦
          let none_bought =
            size_for_fill_touching capital risk_pct fill stop_loss existing touching in
          (λ h. absurd (omega arith), λ h. ground arith)
      | inr apart ↦ rw (size_for_fill_lem capital risk_pct fill stop_loss existing (ground arith)) (
          budget_left (capital * risk_pct) (used_risk existing stop_loss)
            (10_000 * distance fill stop_loss) (ground arith))
    ]

-- A fill further from the stop never sizes larger.
pub size_for_fill_mono :
    (capital risk_pct fill fill' stop_loss : ℕ) (existing : Option Existing)
    → 0 < distance fill stop_loss
    → distance fill stop_loss ≤ distance fill' stop_loss
    → size_for_fill capital risk_pct fill' stop_loss existing
      ≤ size_for_fill capital risk_pct fill stop_loss existing
size_for_fill_mono capital risk_pct fill fill' stop_loss existing h le =
    rw
      (
        size_for_fill_lem capital risk_pct fill stop_loss existing h,
        size_for_fill_lem capital risk_pct fill' stop_loss existing (omega arith),
      )
      (round_down_anti _ (10_000 * distance fill stop_loss) (10_000 * distance fill' stop_loss)
        (omega arith) (omega arith))
