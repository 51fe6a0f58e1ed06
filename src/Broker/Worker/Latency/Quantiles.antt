-- ===== src/Broker/Worker/Latency/Quantiles.antt =====
-- The histogram against the observations it was made of.
use mathlib.Core.Path.{subst}
use ln_trading_app.Prelude.{
  All, Bool, Bool-cases, List, [], ap, arith, false, if◌then◌else◌, inl, inr, keep, leb, leb→le,
  length, ltb, refl, suc, sym, true, ℕ, ◌*◌, ◌+◌, ◌<◌, ◌==◌, ◌∙◌, ◌∷◌, ◌≡◌, ◌≤◌,
}
use ln_trading_app.Broker.Monitor.Scan.{one}
use ln_trading_app.Broker.Worker.Latency.{
  LatencyHistogram, bounds_us, bump, new_histogram, observe, quantile_bound, reach,
}

-- The histogram of some observations, the last one first
unfoldable pub histogram_of : List ℕ → LatencyHistogram
unfolding observe
histogram_of [] = new_histogram
histogram_of (us ∷ observations) = observe us (histogram_of observations)

-- How many observations are at most a bound
abbrev pub at_most : ℕ → List ℕ → ℕ
at_most bound observations = length (keep (λ us. leb us bound) observations)

abbrev above : ℕ → List ℕ → List ℕ
above bound observations = keep (λ us. ltb bound us) observations

-- Each count is that of its bucket.
abbrev Tallied : List ℕ → List ℕ → List ℕ → Type 0
Tallied [] cs observations = cs ≡ length observations ∷ []
Tallied (bound ∷ bounds) [] observations = ⊥
Tallied (bound ∷ bounds) (c ∷ cs) observations =
    (c ≡ at_most bound observations) × Tallied bounds cs (above bound observations)

counted :
    (us bound : ℕ) (observations : List ℕ)
    → leb us bound ≡ true
    → at_most bound (us ∷ observations) ≡ suc (at_most bound observations)
counted us bound observations h = rw h refl

not_counted :
    (us bound : ℕ) (observations : List ℕ)
    → leb us bound ≡ false
    → at_most bound (us ∷ observations) ≡ at_most bound observations
not_counted us bound observations h = rw h refl

bump-Tallied :
    (us : ℕ) (bounds cs observations : List ℕ)
    → Tallied bounds cs observations
    → Tallied bounds (bump us bounds cs) (us ∷ observations)
unfolding bump
bump-Tallied us [] cs observations h = rw h refl
bump-Tallied us (bound ∷ bounds) [] observations h = h
bump-Tallied us (bound ∷ bounds) (c ∷ cs) observations (one, rest) =
    elim (Bool-cases (leb us bound)) [
      | inl low ↦
          rw (low, not_above us bound low)
            (ap suc one ∙ sym (counted us bound observations low), rest)
      | inr high ↦
          rw (high, is_above us bound high)
            (
              one ∙ sym (not_counted us bound observations high),
              bump-Tallied us bounds cs (above bound observations) rest,
            )
    ]
  where
    not_above : (us bound : ℕ) → leb us bound ≡ true → ltb bound us ≡ false
    not_above us bound h = ground arith

    is_above : (us bound : ℕ) → leb us bound ≡ false → ltb bound us ≡ true
    is_above us bound h = ground arith

abbrev Known : List ℕ → LatencyHistogram → Type 0
Known observations h =
    Tallied bounds_us h.counts observations
    × ((h.observed ≡ length observations) × All (λ us. us ≤ h.max_us) observations)

All-mono :
    (a b : ℕ) (observations : List ℕ)
    → a ≤ b
    → All (λ us. us ≤ a) observations
    → All (λ us. us ≤ b) observations
All-mono a b [] h all = tt
All-mono a b (x ∷ observations) h (one, all) = (omega arith, All-mono a b observations h all)

histogram_of-Known : (observations : List ℕ) → Known observations (histogram_of observations)
unfolding histogram_of observe
histogram_of-Known [] =
    ((refl, (refl, (refl, (refl, (refl, (refl, (refl, (refl, (refl, refl))))))))), (refl, tt))
histogram_of-Known (us ∷ observations) =
    let (tallied, (n, all)) = histogram_of-Known observations in
    (
      bump-Tallied us bounds_us (histogram_of observations).counts observations tallied,
      (
        omega arith,
        (
          ground arith,
          All-mono (histogram_of observations).max_us _ observations (ground arith) all,
        ),
      ),
    )

-- Bounds that grow, from one on
abbrev Ascending : ℕ → List ℕ → Type 0
Ascending low [] = Unit
Ascending low (bound ∷ bounds) = (low ≤ bound) × Ascending bound bounds

at_most-above :
    (low bound : ℕ) (observations : List ℕ)
    → low ≤ bound
    → at_most bound observations ≡ at_most low observations + at_most bound (above low observations)
at_most-above low bound [] h = refl
at_most-above low bound (us ∷ observations) h =
    let rest = at_most-above low bound observations h in
    elim (Bool-cases (leb us low)) [ inl small ↦ ground arith | inr large ↦ ground arith ]

module _ (num den : ℕ) (all : List ℕ) where
  -- The share `num / den` of the observations is at most the bound.
  abbrev pub IsCovered : ℕ → Type 0
  IsCovered bound = num * length all ≤ at_most bound all * den

  abbrev Below : ℕ → List ℕ → Type 0
  Below r = All (λ bound. bound < r → ¬ IsCovered bound)

  above_all : (low r : ℕ) (bounds : List ℕ) → r ≤ low → Ascending low bounds → Below r bounds
  above_all low r [] h up = tt
  above_all low r (bound ∷ bounds) h (first, up) =
      (λ less. absurd (omega arith), above_all bound r bounds (omega arith) up)

  -- `rest` is what the bounds so far leave of the observations.
  reach-IsCovered :
      (observed_max low seen : ℕ) (bounds cs rest : List ℕ)
      → Ascending low bounds
      → ((bound : ℕ) → low ≤ bound → at_most bound all ≡ seen + at_most bound rest)
      → Tallied bounds cs rest
      → IsCovered observed_max
      → let r = reach (num * length all) den seen observed_max bounds cs in
        IsCovered r × Below r bounds
  unfolding reach
  reach-IsCovered observed_max low seen [] cs rest up h tallied last = (last, tt)
  reach-IsCovered observed_max low seen (bound ∷ bounds) [] rest up h tallied last = absurd tallied
  reach-IsCovered observed_max low seen (bound ∷ bounds) (c ∷ cs) rest (first, up) h (here, tallied)
        last =
      let total : seen + c ≡ at_most bound all = omega (arith, here, h bound first) in
      let next : ℕ = reach (num * length all) den (seen + c) observed_max bounds cs in
      elim (Bool-cases (leb (num * length all) ((seen + c) * den))) [
        | inl enough ↦
            subst (λ r. IsCovered r × Below r (bound ∷ bounds)) (sym (if_so bound next enough))
              (
                subst (λ n. num * length all ≤ n * den) total (leb→le _ _ enough),
                (λ less. absurd (omega arith), above_all bound bound bounds (omega arith) up),
              )
        | inr lacking ↦
            let (covered, smaller) =
              reach-IsCovered observed_max bound (seen + c) bounds cs (above bound rest) up
                (λ b over. omega (arith, here, h b (omega arith), at_most-above bound b rest over))
                tallied last in
            subst (λ r. IsCovered r × Below r (bound ∷ bounds)) (sym (if_not bound next lacking))
              (covered, (λ less. not_covered bound (seen + c) total lacking, smaller))
      ]
    where
      if_so : {b : Bool} (x y : ℕ) → b ≡ true → (if b then x else y) ≡ x
      if_so x y e = rw e refl

      if_not : {b : Bool} (x y : ℕ) → b ≡ false → (if b then x else y) ≡ y
      if_not x y e = rw e refl

      not_covered :
          (bound n : ℕ)
          → n ≡ at_most bound all
          → leb (num * length all) (n * den) ≡ false
          → ¬ IsCovered bound
      not_covered bound n e lacking enough =
          refute _ _ lacking (subst (λ k. num * length all ≤ k * den) (sym e) enough)
        where
          refute : (a b : ℕ) → leb a b ≡ false → ¬ (a ≤ b)
          refute a b e h = ground arith

at_most-All :
    (bound : ℕ) (observations : List ℕ)
    → All (λ us. us ≤ bound) observations
    → at_most bound observations ≡ length observations
at_most-All bound [] all = refl
at_most-All bound (us ∷ observations) (h, all) =
    let rest = at_most-All bound observations all in ground arith

share : (num den n : ℕ) → num ≤ den → num * n ≤ n * den
share num den n h = grind arith

some_observed :
    (num den k : ℕ) (h : LatencyHistogram)
    → suc k ≡ h.observed
    → quantile_bound num den h ≡ reach (num * suc k) den 0 h.max_us bounds_us h.counts
unfolding quantile_bound
some_observed num den k h e =
    subst
      (λ n.
        (if n == 0 then 0 else reach (num * n) den 0 h.max_us bounds_us h.counts)
        ≡ reach (num * suc k) den 0 h.max_us bounds_us h.counts)
      e (rw (suc_nonzero k) refl)
  where
    suc_nonzero : (n : ℕ) → (suc n == 0) ≡ false
    suc_nonzero n = ground arith

ascending : Ascending 0 bounds_us
ascending = omega arith

-- For a share of at most one, the quantile of a histogram is a value that at least this share of the
-- observations does not exceed, and no smaller bound of the histogram is one.
pub quantile_bound-IsCovered :
    (num den : ℕ) (observations : List ℕ)
    → num ≤ den
    → let r = quantile_bound num den (histogram_of observations) in
      IsCovered num den observations r
      × All (λ bound. bound < r → ¬ IsCovered num den observations bound) bounds_us
unfolding histogram_of quantile_bound
quantile_bound-IsCovered num den [] h =
    (omega arith, above_all num den [] 0 0 bounds_us (omega arith) ascending)
quantile_bound-IsCovered num den (us ∷ observations) h =
    let (tallied, (n, all)) = histogram_of-Known (us ∷ observations) in
    let g : LatencyHistogram = histogram_of (us ∷ observations) in
    subst
      (λ r.
        IsCovered num den (us ∷ observations) r
        × All (λ bound. bound < r → ¬ IsCovered num den (us ∷ observations) bound) bounds_us)
      (sym (some_observed num den (length observations) g (sym n)))
      (reach-IsCovered num den (us ∷ observations) g.max_us 0 0 bounds_us g.counts
        (us ∷ observations) ascending (λ bound over. omega arith) tallied
        (subst (λ n. num * suc (length observations) ≤ n * den)
          (sym (at_most-All g.max_us (us ∷ observations) all))
          (share num den (suc (length observations)) h)))
