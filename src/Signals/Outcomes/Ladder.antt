-- ===== src/Signals/Outcomes/Ladder.antt =====
-- The ladder of outcomes, over every order of alerts and sweeps.
use ln_trading_app.Prelude.{
  Bool, Bool-cases, List, Option, [], arith, false, if◌then◌else◌, inl, inr, leb, none, refl, some,
  true, ℕ, ◌&&◌, ◌∷◌, ◌≡◌, ◌≤◌,
}
use ln_trading_app.Signals.Outcomes.{
  Outcome, Status, TouchSource, at_or_after, can_resolve, coalesce, entered, entry_touched,
  entry_zone, expired, expired_open, expired_untouched, finalize_row, is_entered, is_lapsed, lapses,
  other_source, resolve, seed, sl_first, sl_touch, still_open, touch_row, tp_first, tp_touch,
}

-- What can happen to a row
pub data Event : Type 0 where
  touched : TouchSource → ℕ → ℕ → Event
  swept : ℕ → Event

abbrev pub happen : Event → Outcome → Outcome
happen (touched source ts price) r = touch_row source ts price r
happen (swept now) r = if is_lapsed now r then finalize_row now r else r

abbrev pub history : List Event → Outcome → Outcome
history [] r = r
history (e ∷ es) r = history es (happen e r)

abbrev pub Stamped : Option ℕ → Type 0
Stamped none = ⊥
Stamped (some t) = Unit

-- Entry before resolution, and both before the validity ends
abbrev pub InOrder : Option ℕ → Option ℕ → Option ℕ → ℕ → Type 0
InOrder (some entry) (some resolved) (some touch) until = (entry ≤ resolved) × (resolved ≤ until)
InOrder _ _ _ until = ⊥

abbrev pub Honest : Status → Option ℕ → Option ℕ → Option ℕ → Option ℕ → ℕ → Type 0
Honest still_open entry resolved sl tp until = Unit
Honest entry_touched entry resolved sl tp until = Stamped entry
Honest expired_untouched entry resolved sl tp until = Unit
Honest expired_open entry resolved sl tp until = Stamped entry
Honest sl_first entry resolved sl tp until = InOrder entry resolved sl until
Honest tp_first entry resolved sl tp until = InOrder entry resolved tp until

-- What a row's status says of its stamps
abbrev pub IsHonest : Outcome → Type 0
IsHonest r =
    Honest r.status r.entry_touched_at r.resolved_at r.sl_touched_at r.tp_touched_at
      r.validity_until

coalesce_twice : (a : Option ℕ) (x : ℕ) → coalesce (coalesce a x) x ≡ coalesce a x
coalesce_twice none x = refl
coalesce_twice (some a) x = refl

entered_twice : (b : Bool) (s : Status) → entered b (entered b s) ≡ entered b s
entered_twice true s = ground arith
entered_twice false s = ground arith

-- A redelivered alert changes nothing.
pub touch_row_again :
    (source : TouchSource) (ts price : ℕ) (r : Outcome)
    → touch_row source ts price (touch_row source ts price r) ≡ touch_row source ts price r
unfolding touch_row
touch_row_again entry_zone ts price r =
    rw
      (
        coalesce_twice r.entry_touched_at ts,
        coalesce_twice r.entry_touch_price price,
        entered_twice (leb ts r.validity_until) r.status,
      )
      refl
touch_row_again sl_touch ts price r = elim (Bool-cases (can_resolve ts r)) [
  | inl ready ↦
      simp (ready, coalesce_twice r.sl_touched_at ts, coalesce_twice r.sl_touch_price price) refl
  | inr early ↦
      simp (early, coalesce_twice r.sl_touched_at ts, coalesce_twice r.sl_touch_price price) refl
]
touch_row_again tp_touch ts price r = elim (Bool-cases (can_resolve ts r)) [
  | inl ready ↦
      simp (ready, coalesce_twice r.tp_touched_at ts, coalesce_twice r.tp_touch_price price) refl
  | inr early ↦
      simp (early, coalesce_twice r.tp_touched_at ts, coalesce_twice r.tp_touch_price price) refl
]
touch_row_again other_source ts price r = refl

in_order :
    (s : Status) (entry touch : Option ℕ) (ts until : ℕ)
    → (is_entered s entry && (leb ts until && at_or_after ts entry)) ≡ true
    → InOrder entry (some ts) (coalesce touch ts) until
in_order s (some e) none ts until h = ground arith
in_order s (some e) (some t) ts until h = ground arith
in_order s none touch ts until h = ground arith

InOrder-coalesce :
    (entry resolved touch : Option ℕ) (ts until : ℕ)
    → InOrder entry resolved touch until
    → InOrder entry resolved (coalesce touch ts) until
InOrder-coalesce entry resolved (some t) ts until h = h
InOrder-coalesce (some e) (some r) none ts until h = absurd h
InOrder-coalesce none (some r) none ts until h = absurd h
InOrder-coalesce (some e) none none ts until h = absurd h
InOrder-coalesce none none none ts until h = absurd h

stamp_sl-Honest :
    (s : Status) (entry resolved sl tp : Option ℕ) (ts until : ℕ)
    → Honest s entry resolved sl tp until
    → Honest s entry resolved (coalesce sl ts) tp until
stamp_sl-Honest sl_first entry resolved sl tp ts until h =
    InOrder-coalesce entry resolved sl ts until h
stamp_sl-Honest still_open entry resolved sl tp ts until h = h
stamp_sl-Honest entry_touched entry resolved sl tp ts until h = h
stamp_sl-Honest expired_untouched entry resolved sl tp ts until h = h
stamp_sl-Honest expired_open entry resolved sl tp ts until h = h
stamp_sl-Honest tp_first entry resolved sl tp ts until h = h

stamp_tp-Honest :
    (s : Status) (entry resolved sl tp : Option ℕ) (ts until : ℕ)
    → Honest s entry resolved sl tp until
    → Honest s entry resolved sl (coalesce tp ts) until
stamp_tp-Honest tp_first entry resolved sl tp ts until h =
    InOrder-coalesce entry resolved tp ts until h
stamp_tp-Honest still_open entry resolved sl tp ts until h = h
stamp_tp-Honest entry_touched entry resolved sl tp ts until h = h
stamp_tp-Honest expired_untouched entry resolved sl tp ts until h = h
stamp_tp-Honest expired_open entry resolved sl tp ts until h = h
stamp_tp-Honest sl_first entry resolved sl tp ts until h = h

entered-Honest :
    (b : Bool) (s : Status) (entry resolved sl tp : Option ℕ) (ts until : ℕ)
    → Honest s entry resolved sl tp until
    → Honest (entered b s) (coalesce entry ts) resolved sl tp until
entered-Honest b s none resolved sl tp ts until h = ground arith
entered-Honest b s (some e) resolved sl tp ts until h = ground arith

expired-Honest :
    (s : Status) (entry resolved sl tp : Option ℕ) (now until : ℕ)
    → lapses s until now ≡ true
    → Honest s entry resolved sl tp until
    → Honest (expired s) entry (some now) sl tp until
expired-Honest still_open entry resolved sl tp now until e h = tt
expired-Honest entry_touched entry resolved sl tp now until e h = h
expired-Honest sl_first entry resolved sl tp now until e h = ground arith
expired-Honest tp_first entry resolved sl tp now until e h = ground arith
expired-Honest expired_untouched entry resolved sl tp now until e h = ground arith
expired-Honest expired_open entry resolved sl tp now until e h = h

-- Whatever the alerts and sweeps and their order, an honest row stays honest: it is resolved only
-- by a touch at or after the entry stamp and inside validity, and it is never counted as entered
-- without an entry stamp.
pub happen-IsHonest : (e : Event) (r : Outcome) → IsHonest r → IsHonest (happen e r)
unfolding touch_row resolve finalize_row
happen-IsHonest (touched entry_zone ts price) r h =
    entered-Honest (leb ts r.validity_until) r.status r.entry_touched_at _ _ _ ts _ h
happen-IsHonest (touched sl_touch ts price) r h = elim (Bool-cases (can_resolve ts r)) [
  | inl ready ↦ simp ready (in_order r.status _ _ ts _ ready)
  | inr early ↦ simp early (stamp_sl-Honest r.status _ _ _ _ ts _ h)
]
happen-IsHonest (touched tp_touch ts price) r h = elim (Bool-cases (can_resolve ts r)) [
  | inl ready ↦ simp ready (in_order r.status _ _ ts _ ready)
  | inr early ↦ simp early (stamp_tp-Honest r.status _ _ _ _ ts _ h)
]
happen-IsHonest (touched other_source ts price) r h = h
happen-IsHonest (swept now) r h = elim (Bool-cases (is_lapsed now r)) [
  | inl lapsed ↦
      simp lapsed (expired-Honest r.status r.entry_touched_at r.resolved_at _ _ now _ lapsed h)
  | inr live ↦ simp live h
]

-- From the seeded row on, over every history of alerts and sweeps, in any order and with any
-- repeats, the row is honest.
pub history-IsHonest :
    (es : List Event) (signal until : ℕ) → IsHonest (history es (seed signal until))
unfolding seed
history-IsHonest es signal until = go es (seed signal until) tt
  where
    go : (es : List Event) (r : Outcome) → IsHonest r → IsHonest (history es r)
    go [] r h = h
    go (e ∷ es) r h = go es (happen e r) (happen-IsHonest e r h)

abbrev pub is_resolved : Status → Bool
is_resolved sl_first = true
is_resolved tp_first = true
is_resolved _ = false

entered_resolved : (b : Bool) (s : Status) → is_resolved s ≡ true → entered b s ≡ s
entered_resolved true s h = ground arith
entered_resolved false s h = ground arith

resolved_stays :
    (s : Status)
    → is_resolved s ≡ true
    → ((b : Bool) → entered b s ≡ s)
      × ((entry : Option ℕ) → is_entered s entry ≡ false)
      × ((until now : ℕ) → lapses s until now ≡ false)
resolved_stays sl_first h = (λ b. entered_resolved b sl_first h, λ entry. refl, λ until now. refl)
resolved_stays tp_first h = (λ b. entered_resolved b tp_first h, λ entry. refl, λ until now. refl)
resolved_stays still_open h = ground arith
resolved_stays entry_touched h = ground arith
resolved_stays expired_untouched h = ground arith
resolved_stays expired_open h = ground arith

-- A first resolution is final: no alert and no sweep moves it, nor its time.
pub happen_final :
    (e : Event) (r : Outcome)
    → is_resolved r.status ≡ true
    → ((happen e r).status ≡ r.status) × ((happen e r).resolved_at ≡ r.resolved_at)
unfolding touch_row resolve finalize_row
happen_final (touched entry_zone ts price) r h = ((resolved_stays r.status h).0 _, refl)
happen_final (touched sl_touch ts price) r h =
    simp ((resolved_stays r.status h).1 r.entry_touched_at) (refl, refl)
happen_final (touched tp_touch ts price) r h =
    simp ((resolved_stays r.status h).1 r.entry_touched_at) (refl, refl)
happen_final (touched other_source ts price) r h = (refl, refl)
happen_final (swept now) r h =
    simp ((resolved_stays r.status h).2 r.validity_until now) (refl, refl)
