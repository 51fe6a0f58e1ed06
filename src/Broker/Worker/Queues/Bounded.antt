-- ===== src/Broker/Worker/Queues/Bounded.antt =====
-- What the queues lose, and what they keep.
use mathlib.Core.Path.{subst}
use ln_trading_app.Prelude.{
  Bool-cases, List, [], ap, arith, drop, false, inl, inr, leb, length, refl, suc, sym, take, true,
  ℕ, ◌++◌, ◌-◌, ◌<◌, ◌∙◌, ◌∷◌, ◌≡◌, ◌≤◌,
}
use ln_trading_app.Broker.Worker.Queues.{enqueue_ticks, is_full, put_nowait}

not_full_[] : (n : ℕ) → 0 < n → leb n 0 ≡ false
not_full_[] n h = ground arith

below : (a b : ℕ) → leb a b ≡ false → b < a
below a b h = ground arith

module _ {ℓ} {A : Type ℓ} (maxsize : ℕ) where
  length-++_one : (q : List A) (x : A) → length (q ++ x ∷ []) ≡ suc (length q)
  length-++_one [] x = refl
  length-++_one (y ∷ q) x = ap suc (length-++_one q x)

  length-drop_one : (q : List A) → length (drop 1 q) ≡ length q - 1
  length-drop_one [] = refl
  length-drop_one (x ∷ q) = omega arith

  ++-[] : (q : List A) → q ++ [] ≡ q
  ++-[] [] = refl
  ++-[] (x ∷ q) = ap (λ xs. x ∷ xs) (++-[] q)

  ++-one : (q ys : List A) (x : A) → (q ++ x ∷ []) ++ ys ≡ q ++ x ∷ ys
  ++-one [] ys x = refl
  ++-one (y ∷ q) ys x = ap (λ xs. y ∷ xs) (++-one q ys x)

  put-room :
      (item : A) (q : List A) → length q < maxsize → (put_nowait maxsize item q).0 ≡ q ++ item ∷ []
  unfolding put_nowait
  put-room item q h = rw (not_full _ _ h) refl
    where
      not_full : (a b : ℕ) → b < a → leb a b ≡ false
      not_full a b h = ground arith

  -- What a round leaves, put together
  abbrev pub Dropped : A → List A → List A → List A × ℕ → Type ℓ
  Dropped item refills q (q', dropped) =
      (q' ≡ drop dropped (q ++ take dropped refills) ++ item ∷ []) × (length q' ≤ maxsize)

  abbrev next : List A × ℕ → List A × ℕ
  next (q, dropped) = (q, suc dropped)

  one_round :
      (item refill x : A) (refills q : List A)
      → is_full maxsize (x ∷ q) ≡ true
      → enqueue_ticks maxsize item (refill ∷ refills) (x ∷ q)
        ≡ next (enqueue_ticks maxsize item refills (put_nowait maxsize refill q).0)
  unfolding enqueue_ticks
  one_round item refill x refills q full = rw full refl

  Dropped-next :
      (item refill x : A) (refills q : List A) (out : List A × ℕ)
      → Dropped item refills (q ++ refill ∷ []) out
      → Dropped item (refill ∷ refills) (x ∷ q) (next out)
  Dropped-next item refill x refills q (q', dropped) (same, bound) = (
    same ∙ ap (λ xs. drop dropped xs ++ item ∷ []) (++-one q (take dropped refills) refill),
    bound,
  )

  -- The tick is put last, the queue never holds more than its size, and only the oldest items are
  -- dropped, whatever other threads put in between: each round drops one item, and makes room for one.
  pub enqueue_ticks_lem :
      (item : A) (refills q : List A)
      → 0 < maxsize
      → length q ≤ maxsize
      → Dropped item refills q (enqueue_ticks maxsize item refills q)
  unfolding enqueue_ticks
  enqueue_ticks_lem item [] [] h bound = rw (not_full_[] maxsize h) (refl, omega arith)
  enqueue_ticks_lem item [] (x ∷ q) h bound = elim (Bool-cases (is_full maxsize (x ∷ q))) [
    | inl full ↦ rw full (
      put-room item q (omega arith) ∙ ap (λ xs. xs ++ item ∷ []) (sym (++-[] q)),
      subst (λ xs. length xs ≤ maxsize) (sym (put-room item q (omega arith)))
          (omega (arith, length-++_one q item)),
    )
    | inr space ↦ rw space (
      ap (λ xs. x ∷ xs ++ item ∷ []) (sym (++-[] q)),
      omega (arith, length-++_one (x ∷ q) item, below _ _ space),
    )
  ]
  enqueue_ticks_lem item (refill ∷ refills) [] h bound =
      rw (not_full_[] maxsize h) (refl, omega arith)
  enqueue_ticks_lem item (refill ∷ refills) (x ∷ q) h bound =
      elim (Bool-cases (is_full maxsize (x ∷ q))) [
        | inl full ↦
            subst (Dropped item (refill ∷ refills) (x ∷ q))
              (ap (λ ys. next (enqueue_ticks maxsize item refills ys))
                  (sym (put-room refill q (omega arith)))
                ∙ sym (one_round item refill x refills q full))
              (Dropped-next item refill x refills q
                (enqueue_ticks maxsize item refills (q ++ refill ∷ []))
                (enqueue_ticks_lem item refills (q ++ refill ∷ []) h
                  (omega (arith, length-++_one q refill))))
        | inr space ↦ rw space (
          ap (λ xs. x ∷ xs ++ item ∷ []) (sym (++-[] q)),
          omega (arith, length-++_one (x ∷ q) item, below _ _ space),
        )
      ]
