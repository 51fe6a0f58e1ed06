-- ===== src/Signals/Overlays/LiquidityGuard/Majority.antt =====
-- What the median says about the sessions under the floor.
use ln_trading_app.Prelude.{
  All, Bool-cases, List, [], arith, drop, false, inl, inr, keep, leb, leb→le, length, ltb, refl,
  suc, true, zero, ℕ, ◌%◌, ◌*◌, ◌-◌, ◌/◌, ◌<◌, ◌==◌, ◌||◌, ◌∷◌, ◌≡◌, ◌≤◌,
}
use ln_trading_app.Money.{Side}
use ln_trading_app.Signals.Overlays.{last_n}
use ln_trading_app.Signals.Overlays.LiquidityGuard.{
  evaluate_liquidity, insert, median_twice, middle_twice, nth, sorted,
}

abbrev pub count_below : ℕ → List ℕ → ℕ
count_below floor values = length (keep (λ (v : ℕ). ltb v floor) values)

-- In order, the smaller values first.
abbrev pub Ordered : List ℕ → Type 0
Ordered [] = Unit
Ordered (x ∷ xs) = All (λ (y : ℕ). x ≤ y) xs × Ordered xs

All-insert :
    (b x : ℕ) (ys : List ℕ)
    → b ≤ x
    → All (λ (y : ℕ). b ≤ y) ys
    → All (λ (y : ℕ). b ≤ y) (insert x ys)
All-insert b x [] h all = (h, tt)
All-insert b x (y ∷ ys) h (this, all) = let rest = All-insert b x ys h all in ground arith

All-weaken : (b c : ℕ) (ys : List ℕ) → b ≤ c → All (λ (y : ℕ). c ≤ y) ys → All (λ (y : ℕ). b ≤ y) ys
All-weaken b c [] h all = tt
All-weaken b c (y ∷ ys) h (this, all) = (omega arith, All-weaken b c ys h all)

insert-Ordered : (x : ℕ) (ys : List ℕ) → Ordered ys → Ordered (insert x ys)
insert-Ordered x [] o = (tt, tt)
insert-Ordered x (y ∷ ys) (least, o) =
    let rest = insert-Ordered x ys o in
    elim (Bool-cases (leb x y)) [
      | inl le ↦ rw le ((leb→le x y le, All-weaken x y ys (leb→le x y le) least), (least, o))
      | inr gt ↦ rw gt (All-insert y x ys (ground arith) least, rest)
    ]

pub sorted-Ordered : (xs : List ℕ) → Ordered (sorted xs)
unfolding sorted
sorted-Ordered [] = tt
sorted-Ordered (x ∷ xs) = insert-Ordered x (sorted xs) (sorted-Ordered xs)

count-insert :
    (floor x : ℕ) (ys : List ℕ) → count_below floor (insert x ys) ≡ count_below floor (x ∷ ys)
count-insert floor x [] = refl
count-insert floor x (y ∷ ys) = let rest = count-insert floor x ys in ground arith

count-sorted : (floor : ℕ) (xs : List ℕ) → count_below floor (sorted xs) ≡ count_below floor xs
unfolding sorted
count-sorted floor [] = refl
count-sorted floor (x ∷ xs) =
    let rest = count-sorted floor xs in let step = count-insert floor x (sorted xs) in ground arith

length-insert : (x : ℕ) (ys : List ℕ) → length (insert x ys) ≡ suc (length ys)
length-insert x [] = refl
length-insert x (y ∷ ys) = let rest = length-insert x ys in ground arith

length-sorted : (xs : List ℕ) → length (sorted xs) ≡ length xs
unfolding sorted
length-sorted [] = refl
length-sorted (x ∷ xs) =
    let rest = length-sorted xs in let step = length-insert x (sorted xs) in omega arith

none_below : (floor : ℕ) (ys : List ℕ) → All (λ (y : ℕ). floor ≤ y) ys → count_below floor ys ≡ 0
none_below floor [] all = refl
none_below floor (y ∷ ys) (this, all) = let rest = none_below floor ys all in ground arith

-- Of a list in order, exactly the entries before the count are below the floor.
nth_below :
    (floor : ℕ) (s : List ℕ) (i : ℕ)
    → Ordered s
    → i < length s
    → (nth s i < floor → i < count_below floor s) × (i < count_below floor s → nth s i < floor)
nth_below floor [] i o h = absurd (omega arith)
nth_below floor (x ∷ s) zero (least, o) h = elim (Bool-cases (ltb x floor)) [
  | inl below ↦ ground arith
  | inr above ↦
      let empty_rest = none_below floor s (All-weaken floor x s (ground arith) least) in
      ground arith
]
nth_below floor (x ∷ s) (suc i) (least, o) h =
    let rest = nth_below floor s i o (omega arith) in
    elim (Bool-cases (ltb x floor)) [
      | inl below ↦ ground arith
      | inr above ↦
          let empty_rest = none_below floor s (All-weaken floor x s (ground arith) least) in
          ground arith
    ]

length-drop : (n : ℕ) (xs : List ℕ) → length (drop n xs) ≡ length xs - n
length-drop zero xs = omega arith
length-drop (suc n) [] = omega arith
length-drop (suc n) (x ∷ xs) = let rest = length-drop n xs in omega arith

length-last_n : (n : ℕ) (xs : List ℕ) → n ≤ length xs → length (last_n n xs) ≡ n
length-last_n n xs h = omega (arith, length-drop (length xs - n) xs)

half_bounds :
    (floor n : ℕ) (s : List ℕ)
    → Ordered s
    → length s ≡ n
    → 0 < n
    → (middle_twice s n < 2 * floor → n ≤ 2 * count_below floor s)
      × (n < 2 * count_below floor s → middle_twice s n < 2 * floor)
unfolding middle_twice
half_bounds floor n s o len h =
    let mid = nth_below floor s (n / 2) o (omega arith) in
    let low = nth_below floor s (n / 2 - 1) o (omega arith) in
    elim (Bool-cases (n % 2 == 0)) [
      | inl even ↦ rw even (ground arith)
      | inr odd ↦ rw odd (ground arith)
    ]

-- With enough sessions the overlay blocks only a name of which at least half of the last sessions
-- traded less than the floor, and blocks every name of which more than half did; so a few large
-- deals do not let a thin name pass.
pub evaluate_liquidity_majority :
    (traded : List ℕ) (side : Side) (lookback floor : ℕ)
    → 0 < lookback
    → lookback ≤ length traded
    → let below = count_below floor (last_n lookback traded) in
      let blocked = (evaluate_liquidity traded side lookback floor).liquidity_blocked in
      (blocked ≡ true → lookback ≤ 2 * below) × (lookback < 2 * below → blocked ≡ true)
unfolding evaluate_liquidity median_twice
evaluate_liquidity_majority traded side lookback floor h enough =
    let window : List ℕ = last_n lookback traded in
    let len : length window ≡ lookback = length-last_n lookback traded enough in
    let same = count-sorted floor window in
    let size = length-sorted window in
    let bounds =
      half_bounds floor (length window) (sorted window) (sorted-Ordered window) size
        (omega arith) in
    let thin : (ltb (length traded) lookback || lookback == 0) ≡ false = ground arith in
    rw thin (ground arith)
