-- ===== src/Options/Chain/Payout.antt =====
-- The sums by strike against the options of the chain.
use ln_trading_app.Prelude.{
  Bool, List, [], arith, false, if◌then◌else◌, inl, inr, refl, true, ℕ, ◌*◌, ◌+◌, ◌-◌, ◌∷◌, ◌≡◌,
  ◌⊎◌,
}
use ln_trading_app.Broker.Worker.Ltp.{put}
use ln_trading_app.Options.Chain.{
  ChainRow, add_oi, call_pain, is_call, oi_by_strike, pain_at, put_pain,
}
use ln_trading_app.Options.Spreads.{OptionType, call_option, is_put, put_option}
use ln_trading_app.Signals.Overlays.EntryQuality.{total}

-- What the writers of one row pay at a price, and what all writers pay
abbrev pub row_payout : ChainRow → ℕ → ℕ
row_payout r price =
    (if is_put r.row_type then r.row_strike - price else price - r.row_strike) * r.open_interest

abbrev pub total_payout : List ChainRow → ℕ → ℕ
total_payout [] price = 0
total_payout (r ∷ rows) price = row_payout r price + total_payout rows price

call_pain-add_oi :
    (price strike oi : ℕ) (dict : List (ℕ × ℕ))
    → call_pain price (add_oi strike oi dict) ≡ (price - strike) * oi + call_pain price dict
unfolding add_oi
call_pain-add_oi price strike oi [] = grind arith
call_pain-add_oi price strike oi ((key, total) ∷ dict) =
    let rest = call_pain-add_oi price strike oi dict in grind arith

put_pain-add_oi :
    (price strike oi : ℕ) (dict : List (ℕ × ℕ))
    → put_pain price (add_oi strike oi dict) ≡ (strike - price) * oi + put_pain price dict
unfolding add_oi
put_pain-add_oi price strike oi [] = grind arith
put_pain-add_oi price strike oi ((key, total) ∷ dict) =
    let rest = put_pain-add_oi price strike oi dict in grind arith

type_cases :
    (t : OptionType)
    → ((is_call t ≡ true) × (is_put t ≡ false)) ⊎ ((is_call t ≡ false) × (is_put t ≡ true))
type_cases call_option = inl (refl, refl)
type_cases put_option = inr (refl, refl)

-- The two sides of one row
abbrev side_payout : List ChainRow → (OptionType → Bool) → ℕ → ℕ
side_payout [] side price = 0
side_payout (r ∷ rows) side price =
    (if side r.row_type then row_payout r price else 0) + side_payout rows side price

call_side :
    (price : ℕ) (rows : List ChainRow) (dict : List (ℕ × ℕ))
    → call_pain price (oi_by_strike is_call rows dict)
      ≡ side_payout rows is_call price + call_pain price dict
unfolding oi_by_strike
call_side price [] dict = omega arith
call_side price (r ∷ rows) dict =
    let added = call_side price rows (add_oi r.row_strike r.open_interest dict) in
    let passed = call_side price rows dict in
    let one_more = call_pain-add_oi price r.row_strike r.open_interest dict in
    elim (type_cases r.row_type) [
      | inl (call, not_put) ↦ rw (call, not_put) (omega arith)
      | inr (not_call, put) ↦ rw not_call (omega arith)
    ]

put_side :
    (price : ℕ) (rows : List ChainRow) (dict : List (ℕ × ℕ))
    → put_pain price (oi_by_strike is_put rows dict)
      ≡ side_payout rows is_put price + put_pain price dict
unfolding oi_by_strike
put_side price [] dict = omega arith
put_side price (r ∷ rows) dict =
    let added = put_side price rows (add_oi r.row_strike r.open_interest dict) in
    let passed = put_side price rows dict in
    let one_more = put_pain-add_oi price r.row_strike r.open_interest dict in
    elim (type_cases r.row_type) [
      | inl (call, not_put) ↦ rw not_put (omega arith)
      | inr (not_call, put) ↦ rw put (omega arith)
    ]

both_sides :
    (rows : List ChainRow) (price : ℕ)
    → side_payout rows is_call price + side_payout rows is_put price ≡ total_payout rows price
both_sides [] price = omega arith
both_sides (r ∷ rows) price =
    let rest = both_sides rows price in
    elim (type_cases r.row_type) [
      | inl (call, not_put) ↦ rw (call, not_put) (omega arith)
      | inr (not_call, put) ↦ rw (not_call, put) (omega arith)
    ]

-- The sums by strike are what the options of the chain pay.
pub pain_at-total :
    (rows : List ChainRow) (price : ℕ) → pain_at rows price ≡ total_payout rows price
unfolding pain_at
pain_at-total rows price =
    let both = both_sides rows price in
    omega (arith, call_side price rows [], put_side price rows [])
