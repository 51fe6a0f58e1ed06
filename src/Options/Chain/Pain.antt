-- ===== src/Options/Chain/Pain.antt =====
-- The strike of maximal pain and the closest strike.
use mathlib.Core.Path.{subst}
use ln_trading_app.Prelude.{
  All, All-map, Bool, Bool-cases, List, Option, [], any, arith, false, if◌then◌else◌, inl, inr, ltb,
  none, refl, some, sym, true, ℕ, ◌<◌, ◌==◌, ◌||◌, ◌∷◌, ◌≡◌, ◌≤◌, ◌⊎◌,
}
use ln_trading_app.Options.Chain.{
  ChainRow, atm_strike, least_pain, least_strike, max_pain, pain_at, strikes_of,
}
use ln_trading_app.Options.Chain.Payout.{pain_at-total, total_payout}
use ln_trading_app.Options.Chain.Strikes.{
  All-strikes, IsAscending, strikes-All, strikes-IsAscending,
}
use ln_trading_app.Prelude.Round.{distance}

-- Less pain, or as much and a strike that is not higher
abbrev pub IsBetter : (ℕ → ℕ) → ℕ → ℕ → Type 0
IsBetter pain a b = (pain a < pain b) ⊎ ((pain a ≡ pain b) × (a ≤ b))

abbrev IsBest : (ℕ → ℕ) → ℕ → List ℕ → ℕ → Type 0
IsBest pain best strikes k = IsBetter pain k best × All (IsBetter pain k) strikes

least_pain-IsBetter :
    (pain : ℕ → ℕ) (best : ℕ) (strikes : List ℕ)
    → IsAscending (best ∷ strikes)
    → IsBest pain best strikes (least_pain pain best strikes)
unfolding least_pain
least_pain-IsBetter pain best [] up = (inr (refl, omega arith), tt)
least_pain-IsBetter pain best (strike ∷ strikes) ((above, all), (low, up)) =
    elim (Bool-cases (ltb (pain strike) (pain best))) [
      | inl less ↦
          let (here, rest) = least_pain-IsBetter pain strike strikes (low, up) in
          subst (IsBest pain best (strike ∷ strikes))
            (sym (if_so (least_pain pain strike strikes) (least_pain pain best strikes) less))
            (lower _ _ _ less here, (here, rest))
      | inr not_less ↦
          let (here, rest) = least_pain-IsBetter pain best strikes (all, up) in
          subst (IsBest pain best (strike ∷ strikes))
            (sym (if_not (least_pain pain strike strikes) (least_pain pain best strikes) not_less))
            (here, (later _ _ _ above not_less here, rest))
    ]
  where
    if_so : {b : Bool} (x y : ℕ) → b ≡ true → (if b then x else y) ≡ x
    if_so x y e = rw e refl

    if_not : {b : Bool} (x y : ℕ) → b ≡ false → (if b then x else y) ≡ y
    if_not x y e = rw e refl

    lower : (k s b : ℕ) → ltb (pain s) (pain b) ≡ true → IsBetter pain k s → IsBetter pain k b
    lower k s b less h = ground arith

    later :
        (k b s : ℕ) → b ≤ s → ltb (pain s) (pain b) ≡ false → IsBetter pain k b → IsBetter pain k s
    later k b s up less h = ground arith

-- Whatever holds of all strikes holds of the one that the loop ends with.
least_pain-All :
    (P : ℕ → Type 0) (pain : ℕ → ℕ) (best : ℕ) (strikes : List ℕ)
    → P best
    → All P strikes
    → P (least_pain pain best strikes)
unfolding least_pain
least_pain-All P pain best [] h all = h
least_pain-All P pain best (strike ∷ strikes) h (k, all) =
    elim (Bool-cases (ltb (pain strike) (pain best))) [
      | inl less ↦ rw less (least_pain-All P pain strike strikes k all)
      | inr not_less ↦ rw not_less (least_pain-All P pain best strikes h all)
    ]

abbrev pub is_traded : List ChainRow → ℕ → Bool
is_traded rows k = any (λ r. r.row_strike == k) rows

-- A strike of the chain that is better than each of them, or an empty chain
abbrev pub IsLeast : (ℕ → ℕ) → List ChainRow → Option ℕ → Type 0
IsLeast pain rows none = rows ≡ []
IsLeast pain rows (some k) =
    (is_traded rows k ≡ true) × All (λ r. IsBetter pain k r.row_strike) rows

rows-traded : (rows : List ChainRow) → All (λ r. is_traded rows r.row_strike ≡ true) rows
rows-traded [] = tt
rows-traded (r ∷ rows) = (
  first r.row_strike (is_traded rows r.row_strike),
  All-map rows (λ x found. second (r.row_strike == x.row_strike) _ found) (rows-traded rows),
)
  where
    first : (k : ℕ) (b : Bool) → ((k == k) || b) ≡ true
    first k b = ground arith

    second : (b c : Bool) → c ≡ true → (b || c) ≡ true
    second b c h = ground arith

no_rows : (rows : List ChainRow) → All (λ r. ⊥) rows → rows ≡ []
no_rows [] all = refl
no_rows (r ∷ rows) (h, all) = absurd h

least_strike-IsLeast :
    (pain : ℕ → ℕ) (rows : List ChainRow) (strikes : List ℕ)
    → IsAscending strikes
    → ((P : ℕ → Type 0) → All P strikes → All (λ r. P r.row_strike) rows)
    → All (λ k. is_traded rows k ≡ true) strikes
    → IsLeast pain rows (least_strike pain strikes)
unfolding least_strike
least_strike-IsLeast pain rows [] up to_rows traded = no_rows rows (to_rows (λ k. ⊥) tt)
least_strike-IsLeast pain rows (strike ∷ strikes) up to_rows (here, traded) = (
  least_pain-All (λ k. is_traded rows k ≡ true) pain strike strikes here traded,
  to_rows (IsBetter pain (least_pain pain strike strikes))
      (least_pain-IsBetter pain strike strikes up),
)

-- The closest strike is a strike of the chain, no other is closer, and of two that are as close it is
-- the lower one; there is none only for an empty chain.
pub atm_strike-IsLeast :
    (rows : List ChainRow) (spot : ℕ) → IsLeast (λ k. distance k spot) rows (atm_strike rows spot)
unfolding atm_strike
atm_strike-IsLeast rows spot =
    least_strike-IsLeast (λ k. distance k spot) rows (strikes_of rows) (strikes-IsAscending rows)
      (λ P all. All-strikes P rows all)
      (strikes-All (λ k. is_traded rows k ≡ true) rows (rows-traded rows))

IsBetter-total :
    (rows : List ChainRow) (a b : ℕ)
    → IsBetter (pain_at rows) a b
    → IsBetter (total_payout rows) a b
IsBetter-total rows a b h =
    let left = pain_at-total rows a in let right = pain_at-total rows b in ground arith

total-IsLeast :
    (rows : List ChainRow) (o : Option ℕ)
    → IsLeast (pain_at rows) rows o
    → IsLeast (total_payout rows) rows o
total-IsLeast rows none h = h
total-IsLeast rows (some k) (traded, all) =
    (traded, All-map rows (λ r h. IsBetter-total rows k r.row_strike h) all)

-- The strike of maximal pain is a strike of the chain at which the writers of all its options
-- together pay no more than at any other, and of two such strikes the lower one; there is none only
-- for an empty chain.
pub max_pain-IsLeast : (rows : List ChainRow) → IsLeast (total_payout rows) rows (max_pain rows)
unfolding max_pain
max_pain-IsLeast rows = total-IsLeast rows (max_pain rows) (
    least_strike-IsLeast (pain_at rows) rows (strikes_of rows) (strikes-IsAscending rows)
      (λ P all. All-strikes P rows all)
      (strikes-All (λ k. is_traded rows k ≡ true) rows (rows-traded rows)))
