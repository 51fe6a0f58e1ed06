-- ===== src/Options/Chain.antt =====
-- Analytics of an option chain (put_call_ratio, max_pain and atm_strike of
-- backend/app/services/fo_analytics.py). Strikes are in ten-thousandths; a ratio is the pair of its
-- terms.
pub mod Strikes
pub mod Payout
pub mod Pain
use ln_trading_app.Prelude.{
  Bool, List, Option, [], false, if◌then◌else◌, ltb, none, some, suc, true, zero, ℕ, ◌*◌, ◌+◌, ◌-◌,
  ◌==◌, ◌∷◌,
}
use ln_trading_app.Options.Spreads.{OptionType, call_option, is_put, put_option}
use ln_trading_app.Prelude.Round.{distance}
use ln_trading_app.Signals.Overlays.EntryQuality.{total}

pub record ChainRow : Type 0 where
  pub row_strike : ℕ
  pub row_type : OptionType
  pub open_interest : ℕ
  pub row_volume : ℕ

pub record PutCallRatio : Type 0 where
  pub pcr_oi : Option (ℕ × ℕ)
  pub pcr_volume : Option (ℕ × ℕ)
  pub total_ce_oi : ℕ
  pub total_pe_oi : ℕ

abbrev pub sum_of : (ChainRow → ℕ) → (OptionType → Bool) → List ChainRow → ℕ
sum_of field side [] = 0
sum_of field side (r ∷ rows) = (if side r.row_type then field r else 0) + sum_of field side rows

abbrev pub is_call : OptionType → Bool
is_call call_option = true
is_call put_option = false

-- `none` when the denominator is zero
abbrev pub ratio : ℕ → ℕ → Option (ℕ × ℕ)
ratio puts zero = none
ratio puts (suc calls) = some (puts, suc calls)

unfoldable pub put_call_ratio : List ChainRow → PutCallRatio
put_call_ratio rows = record {
  pcr_oi =
      ratio (sum_of (λ r. r.open_interest) is_put rows)
        (sum_of (λ r. r.open_interest) is_call rows);
  pcr_volume =
      ratio (sum_of (λ r. r.row_volume) is_put rows) (sum_of (λ r. r.row_volume) is_call rows);
  total_ce_oi = sum_of (λ r. r.open_interest) is_call rows;
  total_pe_oi = sum_of (λ r. r.open_interest) is_put rows;
}

-- `oi[strike] = oi.get(strike, 0) + r.oi`
unfoldable pub add_oi : ℕ → ℕ → List (ℕ × ℕ) → List (ℕ × ℕ)
add_oi strike oi [] = (strike, oi) ∷ []
add_oi strike oi ((key, total) ∷ dict) =
    let rest = add_oi strike oi dict in
    if key == strike then (key, total + oi) ∷ dict else (key, total) ∷ rest

-- The open interest by strike, of one side
unfoldable pub oi_by_strike : (OptionType → Bool) → List ChainRow → List (ℕ × ℕ) → List (ℕ × ℕ)
unfolding add_oi
oi_by_strike side [] dict = dict
oi_by_strike side (r ∷ rows) dict =
    let added = oi_by_strike side rows (add_oi r.row_strike r.open_interest dict) in
    let passed = oi_by_strike side rows dict in if side r.row_type then added else passed

-- A sorted list without repetitions
unfoldable pub insert_strike : ℕ → List ℕ → List ℕ
insert_strike x [] = x ∷ []
insert_strike x (y ∷ ys) =
    let rest = insert_strike x ys in
    if ltb x y then x ∷ y ∷ ys else if x == y then y ∷ ys else y ∷ rest

unfoldable pub strikes_of : List ChainRow → List ℕ
unfolding insert_strike
strikes_of [] = []
strikes_of (r ∷ rows) = insert_strike r.row_strike (strikes_of rows)

abbrev pub call_pain : ℕ → List (ℕ × ℕ) → ℕ
call_pain price [] = 0
call_pain price ((k, oi) ∷ dict) =
    (if ltb k price then (price - k) * oi else 0) + call_pain price dict

abbrev pub put_pain : ℕ → List (ℕ × ℕ) → ℕ
put_pain price [] = 0
put_pain price ((k, oi) ∷ dict) =
    (if ltb price k then (k - price) * oi else 0) + put_pain price dict

unfoldable pub pain_at : List ChainRow → ℕ → ℕ
unfolding oi_by_strike
pain_at rows price =
    call_pain price (oi_by_strike is_call rows []) + put_pain price (oi_by_strike is_put rows [])

-- The loop over the strikes, with the best so far
unfoldable pub least_pain : (ℕ → ℕ) → ℕ → List ℕ → ℕ
least_pain pain best [] = best
least_pain pain best (strike ∷ strikes) =
    let new = least_pain pain strike strikes in
    let old = least_pain pain best strikes in if ltb (pain strike) (pain best) then new else old

-- `none` without strikes
unfoldable pub least_strike : (ℕ → ℕ) → List ℕ → Option ℕ
unfolding least_pain
least_strike pain [] = none
least_strike pain (strike ∷ strikes) = some (least_pain pain strike strikes)

unfoldable pub max_pain : List ChainRow → Option ℕ
unfolding strikes_of pain_at least_strike
max_pain rows = least_strike (pain_at rows) (strikes_of rows)

-- The closest strike, the lower one of two
unfoldable pub atm_strike : List ChainRow → ℕ → Option ℕ
unfolding strikes_of least_strike
atm_strike rows spot = least_strike (λ k. distance k spot) (strikes_of rows)
