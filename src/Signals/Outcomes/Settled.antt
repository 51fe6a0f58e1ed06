-- ===== src/Signals/Outcomes/Settled.antt =====
-- Rows on which an alert has nothing left to do.
use ln_trading_app.Prelude.{
  Bool, Bool-cases, Option, arith, false, inl, inr, leb, none, refl, some, ℕ, ◌&&◌, ◌<◌, ◌≡◌,
}
use ln_trading_app.Signals.Outcomes.{
  Outcome, Status, TouchSource, at_or_after, can_resolve, coalesce, entered, entry_zone,
  expired_untouched, is_entered, other_source, resolve, sl_first, sl_touch, still_open, touch_row,
  tp_first, tp_touch,
}

-- An entry stamp on a row that does not count as entered is one after validity.
abbrev pub LateEntry : Status → Option ℕ → ℕ → Type 0
LateEntry still_open (some entry) until = until < entry
LateEntry expired_untouched (some entry) until = until < entry
LateEntry _ _ until = Unit

abbrev pub IsLate : Outcome → Type 0
IsLate r = LateEntry r.status r.entry_touched_at r.validity_until

abbrev pub resolvable : ℕ → Status → Option ℕ → ℕ → Bool
resolvable ts s entry until = is_entered s entry && (leb ts until && at_or_after ts entry)

-- A touch of a source at some time has left its mark.
abbrev pub IsSettled : TouchSource → ℕ → ℕ → Outcome → Type 0
IsSettled entry_zone ts price r =
    ((coalesce r.entry_touched_at ts ≡ r.entry_touched_at)
      × (coalesce r.entry_touch_price price ≡ r.entry_touch_price))
    × (entered (leb ts r.validity_until) r.status ≡ r.status)
IsSettled sl_touch ts price r =
    ((coalesce r.sl_touched_at ts ≡ r.sl_touched_at)
      × (coalesce r.sl_touch_price price ≡ r.sl_touch_price))
    × (can_resolve ts r ≡ false)
IsSettled tp_touch ts price r =
    ((coalesce r.tp_touched_at ts ≡ r.tp_touched_at)
      × (coalesce r.tp_touch_price price ≡ r.tp_touch_price))
    × (can_resolve ts r ≡ false)
IsSettled other_source ts price r = Unit

pub settled-touch_row :
    (source : TouchSource) (ts price : ℕ) (r : Outcome)
    → IsSettled source ts price r
    → touch_row source ts price r ≡ r
unfolding touch_row resolve
settled-touch_row entry_zone ts price r ((at, paid), s) = rw (at, paid, s) refl
settled-touch_row sl_touch ts price r ((at, paid), early) = simp early (rw (at, paid) refl)
settled-touch_row tp_touch ts price r ((at, paid), early) = simp early (rw (at, paid) refl)
settled-touch_row other_source ts price r h = refl

coalesce_again : (o : Option ℕ) (x : ℕ) → coalesce (coalesce o x) x ≡ coalesce o x
coalesce_again none x = refl
coalesce_again (some y) x = refl

entered_again : (b : Bool) (s : Status) → entered b (entered b s) ≡ entered b s
entered_again b s = ground arith

pub touch_row-IsSettled :
    (source : TouchSource) (ts price : ℕ) (r : Outcome)
    → IsSettled source ts price (touch_row source ts price r)
unfolding touch_row resolve
touch_row-IsSettled entry_zone ts price r = (
  (coalesce_again r.entry_touched_at ts, coalesce_again r.entry_touch_price price),
  entered_again (leb ts r.validity_until) r.status,
)
touch_row-IsSettled sl_touch ts price r = elim (Bool-cases (can_resolve ts r)) [
  | inl ready ↦
      simp ready ((coalesce_again r.sl_touched_at ts, coalesce_again r.sl_touch_price price), refl)
  | inr early ↦
      simp early ((coalesce_again r.sl_touched_at ts, coalesce_again r.sl_touch_price price), refl)
]
touch_row-IsSettled tp_touch ts price r = elim (Bool-cases (can_resolve ts r)) [
  | inl ready ↦
      simp ready ((coalesce_again r.tp_touched_at ts, coalesce_again r.tp_touch_price price), refl)
  | inr early ↦
      simp early ((coalesce_again r.tp_touched_at ts, coalesce_again r.tp_touch_price price), refl)
]
touch_row-IsSettled other_source ts price r = tt

coalesce_kept :
    (o : Option ℕ) (x y : ℕ) → coalesce o x ≡ o → coalesce (coalesce o y) x ≡ coalesce o y
coalesce_kept none x y h = ground arith
coalesce_kept (some z) x y h = refl

-- A later entry does not make an earlier touch count.
entry_keeps :
    (s : Status) (entry : Option ℕ) (ts later until : ℕ)
    → ts < later
    → LateEntry s entry until
    → resolvable ts s entry until ≡ false
    → resolvable ts (entered (leb later until) s) (coalesce entry later) until ≡ false
entry_keeps s none ts later until h late early = ground arith
entry_keeps s (some e) ts later until h late early = ground arith

entered_keeps : (b c : Bool) (s : Status) → entered b s ≡ s → entered b (entered c s) ≡ entered c s
entered_keeps b c s h = ground arith

late_entered :
    (s : Status) (entry : Option ℕ) (later until : ℕ)
    → LateEntry s entry until
    → LateEntry (entered (leb later until) s) (coalesce entry later) until
late_entered s none later until h = ground arith
late_entered s (some e) later until h = ground arith

pub touch_row-IsLate :
    (source : TouchSource) (ts price : ℕ) (r : Outcome)
    → IsLate r
    → IsLate (touch_row source ts price r)
unfolding touch_row resolve
touch_row-IsLate entry_zone ts price r h =
    late_entered r.status r.entry_touched_at ts r.validity_until h
touch_row-IsLate sl_touch ts price r h = elim (Bool-cases (can_resolve ts r)) [
  | inl ready ↦ simp ready tt
  | inr early ↦ simp early h
]
touch_row-IsLate tp_touch ts price r h = elim (Bool-cases (can_resolve ts r)) [
  | inl ready ↦ simp ready tt
  | inr early ↦ simp early h
]
touch_row-IsLate other_source ts price r h = h

entered_final : (b : Bool) → (entered b sl_first ≡ sl_first) × (entered b tp_first ≡ tp_first)
entered_final b = ground arith

-- A later touch, of whatever source, takes nothing from what an earlier one has settled.
pub touch_row-keeps :
    (source source' : TouchSource) (ts later price price' : ℕ) (r : Outcome)
    → ts < later
    → IsLate r
    → IsSettled source ts price r
    → IsSettled source ts price (touch_row source' later price' r)
unfolding touch_row resolve
touch_row-keeps other_source source' ts later price price' r h late settled = tt
touch_row-keeps source other_source ts later price price' r h late settled = settled
touch_row-keeps entry_zone entry_zone ts later price price' r h late ((at, paid), s) = (
  (
    coalesce_kept r.entry_touched_at ts later at,
    coalesce_kept r.entry_touch_price price price' paid,
  ),
  entered_keeps (leb ts r.validity_until) (leb later r.validity_until) r.status s,
)
touch_row-keeps entry_zone sl_touch ts later price price' r h late ((at, paid), s) =
    elim (Bool-cases (can_resolve later r)) [
      | inl ready ↦ simp ready ((at, paid), (entered_final (leb ts r.validity_until)).0)
      | inr early ↦ simp early ((at, paid), s)
    ]
touch_row-keeps sl_touch entry_zone ts later price price' r h late ((at, paid), early) =
    ((at, paid), entry_keeps r.status r.entry_touched_at ts later r.validity_until h late early)
touch_row-keeps entry_zone tp_touch ts later price price' r h late ((at, paid), s) =
    elim (Bool-cases (can_resolve later r)) [
      | inl ready ↦ simp ready ((at, paid), (entered_final (leb ts r.validity_until)).1)
      | inr early ↦ simp early ((at, paid), s)
    ]
touch_row-keeps tp_touch entry_zone ts later price price' r h late ((at, paid), early) =
    ((at, paid), entry_keeps r.status r.entry_touched_at ts later r.validity_until h late early)
touch_row-keeps sl_touch sl_touch ts later price price' r h late ((at, paid), early) =
    elim (Bool-cases (can_resolve later r)) [
      | inl ready ↦ simp ready (
        (
          coalesce_kept r.sl_touched_at ts later at,
          coalesce_kept r.sl_touch_price price price' paid,
        ),
        refl,
      )
      | inr not_yet ↦ simp not_yet (
        (
          coalesce_kept r.sl_touched_at ts later at,
          coalesce_kept r.sl_touch_price price price' paid,
        ),
        early,
      )
    ]
touch_row-keeps sl_touch tp_touch ts later price price' r h late ((at, paid), early) =
    elim (Bool-cases (can_resolve later r)) [
      | inl ready ↦ simp ready ((at, paid), refl)
      | inr not_yet ↦ simp not_yet ((at, paid), early)
    ]
touch_row-keeps tp_touch sl_touch ts later price price' r h late ((at, paid), early) =
    elim (Bool-cases (can_resolve later r)) [
      | inl ready ↦ simp ready ((at, paid), refl)
      | inr not_yet ↦ simp not_yet ((at, paid), early)
    ]
touch_row-keeps tp_touch tp_touch ts later price price' r h late ((at, paid), early) =
    elim (Bool-cases (can_resolve later r)) [
      | inl ready ↦ simp ready (
        (
          coalesce_kept r.tp_touched_at ts later at,
          coalesce_kept r.tp_touch_price price price' paid,
        ),
        refl,
      )
      | inr not_yet ↦ simp not_yet (
        (
          coalesce_kept r.tp_touched_at ts later at,
          coalesce_kept r.tp_touch_price price price' paid,
        ),
        early,
      )
    ]
