-- ===== src/Broker/Aggregator/Registry.antt =====
-- The registry of aggregators keeps one aggregator for each stock.
use ln_trading_app.Prelude.{
  All, Bool-cases, List, Option-cases, [], ap, arith, inl, inr, none, refl, some, sym, ℕ, ◌++◌,
  ◌==◌, ◌∷◌, ◌≡◌, ◌≢◌,
}
use ln_trading_app.Broker.Aggregator.{
  Aggregator, all_stock_ids, find_aggregator, get_or_create, new_aggregator,
}

-- No stock stands in a list twice.
abbrev pub Distinct : List ℕ → Type 0
Distinct [] = Unit
Distinct (x ∷ xs) = All (λ (y : ℕ). y ≢ x) xs × Distinct xs

missing-All :
    (stock : ℕ) (aggs : List (ℕ × Aggregator))
    → find_aggregator stock aggs ≡ none
    → All (λ (y : ℕ). y ≢ stock) (all_stock_ids aggs)
unfolding find_aggregator all_stock_ids
missing-All stock [] h = tt
missing-All stock ((i, a) ∷ aggs) h = elim (Bool-cases (i == stock)) [
  | inl hit ↦ absurd (found_none (rw (find_aggregator, hit) at h))
  | inr miss ↦ (λ same. ground arith, missing-All stock aggs (rw (find_aggregator, miss) at h))
]
  where
    found_none : {b : Aggregator} → some b ≡ none → ⊥
    found_none e = cc

snoc-Distinct :
    (stock : ℕ) (ids : List ℕ)
    → All (λ (y : ℕ). y ≢ stock) ids
    → Distinct ids
    → Distinct (ids ++ (stock ∷ []))
snoc-Distinct stock [] apart d = (tt, tt)
snoc-Distinct stock (x ∷ ids) (this, apart) (fresh, d) =
    (snoc-All x stock ids (λ e. this (sym e)) fresh, snoc-Distinct stock ids apart d)
  where
    snoc-All :
        (y s : ℕ) (xs : List ℕ)
        → s ≢ y
        → All (λ (z : ℕ). z ≢ y) xs
        → All (λ (z : ℕ). z ≢ y) (xs ++ (s ∷ []))
    snoc-All y s [] new all = (new, tt)
    snoc-All y s (z ∷ xs) new (first, all) = (first, snoc-All y s xs new all)

ids-snoc :
    (aggs : List (ℕ × Aggregator)) (stock : ℕ) (a : Aggregator)
    → all_stock_ids (aggs ++ ((stock, a) ∷ [])) ≡ all_stock_ids aggs ++ (stock ∷ [])
unfolding all_stock_ids
ids-snoc [] stock a = refl
ids-snoc (entry ∷ aggs) stock a = ap (λ xs. entry.0 ∷ xs) (ids-snoc aggs stock a)

find-snoc :
    (stock : ℕ) (aggs : List (ℕ × Aggregator)) (a : Aggregator)
    → find_aggregator stock aggs ≡ none
    → find_aggregator stock (aggs ++ ((stock, a) ∷ [])) ≡ some a
unfolding find_aggregator
find-snoc stock [] a h = ground arith
find-snoc stock ((i, b) ∷ aggs) a h = elim (Bool-cases (i == stock)) [
  | inl hit ↦ absurd (found_none (rw (find_aggregator, hit) at h))
  | inr miss ↦ rw (find_aggregator, miss) (find-snoc stock aggs a (rw (find_aggregator, miss) at h))
]
  where
    found_none : {b : Aggregator} → some b ≡ none → ⊥
    found_none e = cc

get-found :
    (stock : ℕ) (aggs : List (ℕ × Aggregator)) {a : Aggregator}
    → find_aggregator stock aggs ≡ some a
    → get_or_create stock aggs ≡ (a, aggs)
unfolding get_or_create
get-found stock aggs h = rw (get_or_create, h) refl

get-missing :
    (stock : ℕ) (aggs : List (ℕ × Aggregator))
    → find_aggregator stock aggs ≡ none
    → get_or_create stock aggs ≡ (new_aggregator, aggs ++ ((stock, new_aggregator) ∷ []))
unfolding get_or_create
get-missing stock aggs h = rw (get_or_create, h) refl

-- Whether or not a stock was known, the registry that gives its aggregator holds it from then on,
-- gives the same one again without a change, and still knows every stock at most once.
pub get_or_create_again :
    (stock : ℕ) (aggs : List (ℕ × Aggregator))
    → Distinct (all_stock_ids aggs)
    → let (a, kept) = get_or_create stock aggs in
      (get_or_create stock kept ≡ (a, kept)) × Distinct (all_stock_ids kept)
get_or_create_again stock aggs d = elim (Option-cases (find_aggregator stock aggs)) [
  | inl fresh ↦ rw (get-missing stock aggs fresh) (
    get-found stock (aggs ++ ((stock, new_aggregator) ∷ []))
        (find-snoc stock aggs new_aggregator fresh),
    rw (ids-snoc aggs stock new_aggregator)
        (snoc-Distinct stock (all_stock_ids aggs) (missing-All stock aggs fresh) d),
  )
  | inr (a, known_one) ↦ rw (get-found stock aggs known_one) (get-found stock aggs known_one, d)
]
