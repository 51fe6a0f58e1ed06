-- ===== src/Signals/Excursion/Extremes.antt =====
-- What the extremes of a tape say about its bars.
use mathlib.Core.Path.{subst}
use ln_trading_app.Prelude.{
  All, Bool-cases, List, [], ap, arith, get_elem?, inl, inr, refl, some, suc, sym, ℕ, ◌∷◌, ◌≡◌, ◌≤◌,
  ◌⊎◌,
}
use ln_trading_app.Money.{Side, long, short}
use ln_trading_app.Signals.Excursion.{
  Excursion, Extreme, TapeBar, favourable, first_extreme, improves, opposite, step_extreme,
  tape_excursion, track_extreme,
}
use ln_trading_app.Trading.PositionHealth.{worse}

-- No better price for the side.
abbrev pub NoBetterThan : Side → ℕ → ℕ → Type 0
NoBetterThan long x best = x ≤ best
NoBetterThan short x best = best ≤ x

-- Some bar has this price on its favourable end, at this time.
abbrev pub Attained : Side → Extreme → List TapeBar → Type 0
Attained side e bars =
    (k : ℕ) × ((b : TapeBar) × ((get_elem? bars k ≡ some b)
        × ((favourable side b ≡ e.price) × (b.bar_time ≡ e.time))))

NoBetterThan-trans :
    (side : Side) (x y z : ℕ)
    → NoBetterThan side x y
    → NoBetterThan side y z
    → NoBetterThan side x z
NoBetterThan-trans long x y z h k = omega arith
NoBetterThan-trans short x y z h k = omega arith

step-NoBetterThan :
    (side : Side) (acc : Extreme) (b : TapeBar)
    → NoBetterThan side acc.price (step_extreme side acc b).price
      × NoBetterThan side (favourable side b) (step_extreme side acc b).price
step-NoBetterThan long acc b = ground arith
step-NoBetterThan short acc b = ground arith

track-NoBetterThan :
    (side : Side) (acc : Extreme) (bars : List TapeBar)
    → NoBetterThan side acc.price (track_extreme side acc bars).price
      × All
          (λ (b : TapeBar).
            NoBetterThan side (favourable side b) (track_extreme side acc bars).price)
          bars
unfolding track_extreme
track-NoBetterThan long acc [] = (omega arith, tt)
track-NoBetterThan short acc [] = (omega arith, tt)
track-NoBetterThan side acc (b ∷ bars) =
    let (top, rest) = track-NoBetterThan side (step_extreme side acc b) bars in
    let (kept, taken) = step-NoBetterThan side acc b in
    (NoBetterThan-trans side _ _ _ kept top, (NoBetterThan-trans side _ _ _ taken top, rest))

track-Attained :
    (side : Side) (acc : Extreme) (bars : List TapeBar)
    → (track_extreme side acc bars ≡ acc) ⊎ Attained side (track_extreme side acc bars) bars
unfolding track_extreme
track-Attained side acc [] = inl refl
track-Attained side acc (b ∷ bars) =
    elim (Bool-cases (improves side (favourable side b) acc.price)) [
      | inl better ↦
          rw (track_extreme, better)
            (elim (track-Attained side (first_extreme side b) bars) [
              | inl same ↦ inr (
                0,
                (
                  b,
                  (
                    refl,
                    (
                      sym (ap (λ (e : Extreme). e.price) same),
                      sym (ap (λ (e : Extreme). e.time) same),
                    ),
                  ),
                ),
              )
              | inr (k, found) ↦ inr (suc k, found)
            ])
      | inr worse ↦
          rw (track_extreme, worse)
            (elim (track-Attained side acc bars) [
              | inl same ↦ inl same
              | inr (k, found) ↦ inr (suc k, found)
            ])
    ]

from_first :
    (side : Side) (b : TapeBar) (bars : List TapeBar)
    → Attained side (track_extreme side (first_extreme side b) (b ∷ bars)) (b ∷ bars)
from_first side b bars = elim (track-Attained side (first_extreme side b) (b ∷ bars)) [
  | inl same ↦ (
    0,
    (
      b,
      (refl, (sym (ap (λ (e : Extreme). e.price) same), sym (ap (λ (e : Extreme). e.time) same))),
    ),
  )
  | inr found ↦ found
]

excursion_inj : {a b : Excursion} → some a ≡ some b → a ≡ b
excursion_inj h = ground arith

-- An extreme that a bar attains and none passes
abbrev pub IsBest : Side → List TapeBar → Extreme → Type 0
IsBest side bars e =
    Attained side e bars × All (λ (b : TapeBar). NoBetterThan side (favourable side b) e.price) bars

track-IsBest :
    (side : Side) (b : TapeBar) (bars : List TapeBar)
    → IsBest side (b ∷ bars) (track_extreme side (first_extreme side b) (b ∷ bars))
track-IsBest side b bars =
    (from_first side b bars, (track-NoBetterThan side (first_extreme side b) (b ∷ bars)).1)

-- The best excursion of a tape is the price of one of its bars, at that bar's time, and no bar has a
-- better one; the worst excursion is the same for the other side.
pub tape_excursion_extremes :
    (bars : List TapeBar) (side : Side) (entry risk quantity : ℕ) (e : Excursion)
    → tape_excursion bars side entry risk quantity ≡ some e
    → IsBest side bars e.mfe × IsBest (opposite side) bars e.mae
unfolding tape_excursion
tape_excursion_extremes [] side entry risk quantity e h = cc
tape_excursion_extremes (b ∷ bars) side entry risk quantity e h =
    let same = excursion_inj h in
    (
      subst (IsBest side (b ∷ bars)) (ap (λ (x : Excursion). x.mfe) same)
          (track-IsBest side b bars),
      subst (IsBest (opposite side) (b ∷ bars)) (ap (λ (x : Excursion). x.mae) same)
          (track-IsBest (opposite side) b bars),
    )
