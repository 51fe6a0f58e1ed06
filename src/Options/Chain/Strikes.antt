-- ===== src/Options/Chain/Strikes.antt =====
-- The sorted strikes of a chain.
use mathlib.Core.Path.{subst}
use ln_trading_app.Prelude.{
  All, All-map, Bool-cases, List, [], arith, false, inl, inr, ltb, refl, sym, true, ℕ, ◌==◌, ◌∷◌,
  ◌≡◌, ◌≤◌,
}
use ln_trading_app.Options.Chain.{ChainRow, insert_strike, strikes_of}

abbrev pub IsAscending : List ℕ → Type 0
IsAscending [] = Unit
IsAscending (x ∷ xs) = All (λ y. x ≤ y) xs × IsAscending xs

insert-All : (P : ℕ → Type 0) (x : ℕ) (ys : List ℕ) → P x → All P ys → All P (insert_strike x ys)
unfolding insert_strike
insert-All P x [] h all = (h, tt)
insert-All P x (y ∷ ys) h (k, all) = elim (Bool-cases (ltb x y)) [
  | inl less ↦ rw less (h, (k, all))
  | inr not_less ↦ elim (Bool-cases (x == y)) [
    | inl same ↦ rw (not_less, same) (k, all)
    | inr more ↦ rw (not_less, more) (k, insert-All P x ys h all)
  ]
]

All-insert : (P : ℕ → Type 0) (x : ℕ) (ys : List ℕ) → All P (insert_strike x ys) → P x × All P ys
unfolding insert_strike
All-insert P x [] all = all
All-insert P x (y ∷ ys) all = elim (Bool-cases (ltb x y)) [
  | inl less ↦ subst (λ zs. All P zs → P x × All P (y ∷ ys)) (sym (first less)) (λ a. a) all
  | inr not_less ↦ elim (Bool-cases (x == y)) [
    | inl same ↦
        subst (λ zs. All P zs → P x × All P (y ∷ ys)) (sym (second not_less same))
          (λ a. (subst P (sym (equal _ _ same)) a.0, a)) all
    | inr more ↦
        subst (λ zs. All P zs → P x × All P (y ∷ ys)) (sym (third not_less more))
          (λ a. let (px, rest) = All-insert P x ys a.1 in (px, (a.0, rest))) all
  ]
]
  where
    equal : (a b : ℕ) → (a == b) ≡ true → a ≡ b
    equal a b h = ground arith

    first : ltb x y ≡ true → insert_strike x (y ∷ ys) ≡ x ∷ y ∷ ys
    first e = rw (insert_strike, e) refl

    second : ltb x y ≡ false → (x == y) ≡ true → insert_strike x (y ∷ ys) ≡ y ∷ ys
    second e f = rw (insert_strike, e, f) refl

    third : ltb x y ≡ false → (x == y) ≡ false → insert_strike x (y ∷ ys) ≡ y ∷ insert_strike x ys
    third e f = rw (insert_strike, e, f) refl

pub strikes-All :
    (P : ℕ → Type 0) (rows : List ChainRow)
    → All (λ r. P r.row_strike) rows
    → All P (strikes_of rows)
unfolding strikes_of
strikes-All P [] all = tt
strikes-All P (r ∷ rows) (here, all) =
    insert-All P r.row_strike (strikes_of rows) here (strikes-All P rows all)

pub All-strikes :
    (P : ℕ → Type 0) (rows : List ChainRow)
    → All P (strikes_of rows)
    → All (λ r. P r.row_strike) rows
unfolding strikes_of
All-strikes P [] all = tt
All-strikes P (r ∷ rows) all =
    let (here, rest) = All-insert P r.row_strike (strikes_of rows) all in
    (here, All-strikes P rows rest)

All-above : (x y : ℕ) (ys : List ℕ) → x ≤ y → All (λ z. y ≤ z) ys → All (λ z. x ≤ z) ys
All-above x y ys h all = All-map ys (λ z low. omega arith) all

insert-IsAscending : (x : ℕ) (ys : List ℕ) → IsAscending ys → IsAscending (insert_strike x ys)
unfolding insert_strike
insert-IsAscending x [] up = (tt, tt)
insert-IsAscending x (y ∷ ys) (low, up) = elim (Bool-cases (ltb x y)) [
  | inl less ↦ rw less ((below x y less, All-above x y ys (below x y less) low), (low, up))
  | inr not_less ↦ elim (Bool-cases (x == y)) [
    | inl same ↦ rw (not_less, same) (low, up)
    | inr more ↦
        rw (not_less, more)
          (insert-All (λ z. y ≤ z) x ys (above x y not_less) low, insert-IsAscending x ys up)
  ]
]
  where
    below : (x y : ℕ) → ltb x y ≡ true → x ≤ y
    below x y h = ground arith

    above : (x y : ℕ) → ltb x y ≡ false → y ≤ x
    above x y h = ground arith

pub strikes-IsAscending : (rows : List ChainRow) → IsAscending (strikes_of rows)
unfolding strikes_of
strikes-IsAscending [] = tt
strikes-IsAscending (r ∷ rows) =
    insert-IsAscending r.row_strike (strikes_of rows) (strikes-IsAscending rows)
