-- ===== src/Broker/HotSet/Clip.antt =====
-- What the clip of the hot set keeps and drops.
use ln_trading_app.Prelude.{
  All, Bool, Bool-cases, List, [], arith, drop, false, if◌then◌else◌, inl, inr, leb, length, ltb,
  refl, suc, take, true, zero, ℕ, ◌&&◌, ◌+◌, ◌==◌, ◌||◌, ◌∙◌, ◌∷◌, ◌≡◌, ◌≤◌,
}
use ln_trading_app.Broker.HotSet.{HotStock, clip, insert_by, rank_of, ranks_before, sort_by}
use ln_trading_app.Signals.Overlays.LiquidityGuard.{sorted}

abbrev IsSorted : List HotStock → Type 0
IsSorted [] = Unit
IsSorted (x ∷ xs) = All (λ y. ranks_before x y ≡ true) xs × IsSorted xs

not_before : (a b : HotStock) → ranks_before a b ≡ false → ranks_before b a ≡ true
not_before a b h = numbers (rank_of a) (rank_of b) a.hot_sid b.hot_sid h
  where
    numbers :
        (r q i j : ℕ)
        → (ltb r q || ((r == q) && leb i j)) ≡ false
        → (ltb q r || ((q == r) && leb j i)) ≡ true
    numbers r q i j h = ground arith

before_trans :
    (a b c : HotStock) → ranks_before a b ≡ true → ranks_before b c ≡ true → ranks_before a c ≡ true
before_trans a b c h k =
    numbers (rank_of a) (rank_of b) (rank_of c) a.hot_sid b.hot_sid c.hot_sid h k
  where
    numbers :
        (r q p i j k : ℕ)
        → (ltb r q || ((r == q) && leb i j)) ≡ true
        → (ltb q p || ((q == p) && leb j k)) ≡ true
        → (ltb r p || ((r == p) && leb i k)) ≡ true
    numbers r q p i j k h g = ground arith

All-before :
    (a b : HotStock) (xs : List HotStock)
    → ranks_before a b ≡ true
    → All (λ y. ranks_before b y ≡ true) xs
    → All (λ y. ranks_before a y ≡ true) xs
All-before a b [] h all = tt
All-before a b (x ∷ xs) h (k, all) = (before_trans a b x h k, All-before a b xs h all)

insert-All :
    (x a : HotStock) (ys : List HotStock)
    → ranks_before x a ≡ true
    → All (λ y. ranks_before x y ≡ true) ys
    → All (λ y. ranks_before x y ≡ true) (insert_by ranks_before a ys)
insert-All x a [] h all = (h, tt)
insert-All x a (y ∷ ys) h (k, all) = elim (Bool-cases (ranks_before a y)) [
  | inl first ↦ rw first (h, (k, all))
  | inr later ↦ rw later (k, insert-All x a ys h all)
]

insert-IsSorted :
    (x : HotStock) (ys : List HotStock) → IsSorted ys → IsSorted (insert_by ranks_before x ys)
insert-IsSorted x [] h = (tt, tt)
insert-IsSorted x (y ∷ ys) (low, sorted) = elim (Bool-cases (ranks_before x y)) [
  | inl first ↦ rw first ((first, All-before x y ys first low), (low, sorted))
  | inr later ↦ rw later (insert-All y x ys (not_before x y later) low, insert-IsSorted x ys sorted)
]

sort-IsSorted : (xs : List HotStock) → IsSorted (sort_by ranks_before xs)
sort-IsSorted [] = tt
sort-IsSorted (x ∷ xs) = insert-IsSorted x (sort_by ranks_before xs) (sort-IsSorted xs)

-- How many stocks pass a test
abbrev pub how_many : (HotStock → Bool) → List HotStock → ℕ
how_many test [] = 0
how_many test (h ∷ hot) = (if test h then 1 else 0) + how_many test hot

how_many-insert :
    (test : HotStock → Bool) (x : HotStock) (ys : List HotStock)
    → how_many test (insert_by ranks_before x ys) ≡ (if test x then 1 else 0) + how_many test ys
how_many-insert test x [] = refl
how_many-insert test x (y ∷ ys) =
    let rest = how_many-insert test x ys in
    elim (Bool-cases (ranks_before x y)) [
      | inl first ↦ rw first refl
      | inr later ↦ rw later (omega arith)
    ]

how_many-sort :
    (test : HotStock → Bool) (xs : List HotStock)
    → how_many test (sort_by ranks_before xs) ≡ how_many test xs
how_many-sort test [] = refl
how_many-sort test (x ∷ xs) =
    let rest = how_many-sort test xs in
    omega (arith, how_many-insert test x (sort_by ranks_before xs))

how_many-take :
    (test : HotStock → Bool) (n : ℕ) (xs : List HotStock)
    → how_many test (take n xs) + how_many test (drop n xs) ≡ how_many test xs
how_many-take test zero xs = omega arith
how_many-take test (suc n) [] = omega arith
how_many-take test (suc n) (x ∷ xs) = let rest = how_many-take test n xs in omega arith

length-take_max : (n : ℕ) (xs : List HotStock) → length (take n xs) ≤ n
length-take_max zero xs = omega arith
length-take_max (suc n) [] = omega arith
length-take_max (suc n) (x ∷ xs) = let rest = length-take_max n xs in omega arith

-- Every stock of one list ranks before every one of the other.
abbrev pub Outranks : List HotStock → List HotStock → Type 0
Outranks kept dropped = All (λ k. All (λ d. ranks_before k d ≡ true) dropped) kept

All-drop :
    (x : HotStock) (n : ℕ) (xs : List HotStock)
    → All (λ y. ranks_before x y ≡ true) xs
    → All (λ y. ranks_before x y ≡ true) (drop n xs)
All-drop x zero xs all = all
All-drop x (suc n) [] all = tt
All-drop x (suc n) (y ∷ xs) (h, all) = All-drop x n xs all

take-Outranks : (n : ℕ) (xs : List HotStock) → IsSorted xs → Outranks (take n xs) (drop n xs)
take-Outranks zero xs h = tt
take-Outranks (suc n) [] h = tt
take-Outranks (suc n) (x ∷ xs) (low, sorted) = (All-drop x n xs low, take-Outranks n xs sorted)

nothing-Outranks : (xs : List HotStock) → Outranks xs []
nothing-Outranks [] = tt
nothing-Outranks (x ∷ xs) = (tt, nothing-Outranks xs)

-- What is kept and what is dropped are together the hot set, each stock as often, and no stock that
-- is dropped ranks before one that is kept: a stock of a better source never loses its slot to one of
-- a worse source. At most `hotset_max` are kept.
pub clip-Outranks :
    (hotset_max : ℕ) (hot : List HotStock)
    → (length (clip hotset_max hot) ≤ hotset_max)
      × ((dropped : List HotStock) × (((test : HotStock → Bool)
              → how_many test (clip hotset_max hot) + how_many test dropped ≡ how_many test hot)
            × Outranks (clip hotset_max hot) dropped))
unfolding clip
clip-Outranks hotset_max hot =
    let sorted : List HotStock = sort_by ranks_before hot in
    elim (Bool-cases (ltb hotset_max (length hot))) [
      | inl over ↦ rw over (
        length-take_max hotset_max sorted,
        (
          drop hotset_max sorted,
          (
            λ test. how_many-take test hotset_max sorted ∙ how_many-sort test hot,
            take-Outranks hotset_max sorted (sort-IsSorted hot),
          ),
        ),
      )
      | inr within ↦
          rw within (at_most _ _ within, ([], (λ test. omega arith, nothing-Outranks hot)))
    ]
  where
    at_most : (a b : ℕ) → ltb a b ≡ false → b ≤ a
    at_most a b h = ground arith
