-- ===== src/Broker/HotSet/Market.antt =====
-- The market tier of the hot set.
use ln_trading_app.Prelude.{
  All, Bool, Bool-cases, List, Option, Option-cases, [], ap, arith, false, inl, inr, length, refl,
  some, suc, true, zero, ℕ, ◌++◌, ◌||◌, ◌∙◌, ◌∷◌, ◌≡◌, ◌≤◌,
}
use ln_trading_app.Broker.HotSet.{
  HotStock, add_source, admit_market_tier, by_market, hot_stock, is_hot,
}

-- A stock that a slot of the tier may go to: active, and not in the set before.
abbrev pub Admissible : (ℕ → Option ℕ) → List HotStock → HotStock → Type 0
Admissible active_symbols hot h =
    (active_symbols h.hot_sid ≡ some h.hot_symbol)
    × ((is_hot h.hot_sid hot ≡ false) × (h.from_market ≡ true))

is_hot-++ :
    (sid : ℕ) (hot more : List HotStock) → is_hot sid (hot ++ more) ≡ false → is_hot sid hot ≡ false
is_hot-++ sid [] more h = refl
is_hot-++ sid (x ∷ hot) more h =
    let (here, there) = neither _ _ h in both _ _ here (is_hot-++ sid hot more there)
  where
    neither : (b c : Bool) → (b || c) ≡ false → (b ≡ false) × (c ≡ false)
    neither b c e = ground arith

    both : (b c : Bool) → b ≡ false → c ≡ false → (b || c) ≡ false
    both b c e g = ground arith

All-Admissible :
    (active_symbols : ℕ → Option ℕ) (hot more extra : List HotStock)
    → All (Admissible active_symbols (hot ++ more)) extra
    → All (Admissible active_symbols hot) extra
All-Admissible active_symbols hot more [] all = tt
All-Admissible active_symbols hot more (x ∷ extra) ((active, (new, market)), all) = (
  (active, (is_hot-++ x.hot_sid hot more new, market)),
  All-Admissible active_symbols hot more extra all,
)

-- What the tier adds
abbrev pub Extends : (ℕ → Option ℕ) → ℕ → List HotStock → List HotStock × ℕ → Type 0
Extends active_symbols left hot (hot', admitted) =
    (extra : List HotStock) × ((hot' ≡ hot ++ extra)
      × (((admitted ≡ length extra) × (admitted ≤ left))
          × All (Admissible active_symbols hot) extra))

++-one : (hot extra : List HotStock) (x : HotStock) → (hot ++ x ∷ []) ++ extra ≡ hot ++ x ∷ extra
++-one [] extra x = refl
++-one (y ∷ hot) extra x = ap (λ ys. y ∷ ys) (++-one hot extra x)

++-[] : (hot : List HotStock) → hot ≡ hot ++ []
++-[] [] = refl
++-[] (x ∷ hot) = ap (λ ys. x ∷ ys) (++-[] hot)

-- The tier leaves the set as it was and puts at most `market_max` stocks behind it, each active, new
-- to the set and marked as a market one; the count it returns is how many these are.
pub admit_market_tier-Extends :
    (active_symbols : ℕ → Option ℕ) (left : ℕ) (market : List ℕ) (hot : List HotStock)
    → Extends active_symbols left hot (admit_market_tier active_symbols left market hot)
unfolding admit_market_tier
admit_market_tier-Extends active_symbols left [] hot = ([], (++-[] hot, ((refl, omega arith), tt)))
admit_market_tier-Extends active_symbols zero (sid ∷ market) hot =
    ([], (++-[] hot, ((refl, omega arith), tt)))
admit_market_tier-Extends active_symbols (suc left) (sid ∷ market) hot =
    let skip = admit_market_tier-Extends active_symbols (suc left) market hot in
    elim (Option-cases (active_symbols sid)) [
      | inl inactive ↦ rw (admit_market_tier, inactive) skip
      | inr (symbol, active) ↦ elim (Bool-cases (is_hot sid hot)) [
        | inl there ↦ rw (admit_market_tier, active, there) skip
        | inr new ↦
            let x : HotStock = add_source by_market (hot_stock sid symbol) in
            let (extra, (same, ((count, bound), all))) =
              admit_market_tier-Extends active_symbols left market (hot ++ x ∷ []) in
            rw (admit_market_tier, active, new)
              (
                x ∷ extra,
                (
                  same ∙ ++-one hot extra x,
                  (
                    (ap suc count, omega arith),
                    ((active, (new, refl)), All-Admissible active_symbols hot (x ∷ []) extra all),
                  ),
                ),
              )
      ]
    ]
