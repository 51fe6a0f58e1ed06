-- ===== src/Broker/Monitor/History.antt =====
-- One position over a history of scans.
use ln_trading_app.Prelude.{
  Bool, Bool-cases, List, Option, [], ap, arith, false, if◌then◌else◌, inl, inr, map, none, refl,
  some, sym, true, ℕ, ◌∙◌, ◌∷◌, ◌≡◌,
}
use ln_trading_app.Broker.Book.{Book, BrokerSettings, Market, Position, is_open}
use ln_trading_app.Broker.Monitor.{
  Beat, Lookup, beat, closed, raised, row_after, scan_positions, scan_row, skipped, updated,
}
use ln_trading_app.Broker.Monitor.Hold.{Held, Held-refl, StopKept, beat-Held}
use ln_trading_app.Broker.Monitor.Scan.{Moment, beat-shut}
use ln_trading_app.Money.{Side}
use ln_trading_app.Trading.MarketHours.{is_market_session}
use ln_trading_app.Trading.ProfitLock.Floors.{NoLooser-trans}

-- The row after one task, in the session or out of it
abbrev pub next_row : Lookup → BrokerSettings → Moment → Position → Position
next_row db settings w p =
    if is_market_session w.at then scan_row db settings w.market w.at p else p

-- The row after every scan of a history
abbrev pub watch : Lookup → BrokerSettings → List Moment → Position → Position
watch db settings [] p = p
watch db settings (w ∷ ws) p =
    let q : Position = if is_market_session w.at then scan_row db settings w.market w.at p else p in
    watch db settings ws q

StopKept-trans :
    (side : Side) (a b c : Option ℕ) → StopKept side a b → StopKept side b c → StopKept side a c
StopKept-trans side none none c h k = k
StopKept-trans side (some a) (some b) (some c) h k = NoLooser-trans side c b a k h
StopKept-trans side none (some b) c h k = absurd h
StopKept-trans side (some a) none c h k = absurd h
StopKept-trans side (some a) (some b) none h k = absurd k

Held-trans : (p q r : Position) → Held p q → Held q r → Held p r
Held-trans p q r h k = record {
  same_id = k.same_id ∙ h.same_id;
  same_owner = (
    k.same_owner.0 ∙ h.same_owner.0,
    k.same_owner.1 ∙ h.same_owner.1,
    k.same_owner.2 ∙ h.same_owner.2,
  );
  same_terms = (
    k.same_terms.0 ∙ h.same_terms.0,
    k.same_terms.1 ∙ h.same_terms.1,
    k.same_terms.2 ∙ h.same_terms.2,
  );
  same_books = (k.same_books.0 ∙ h.same_books.0, k.same_books.1 ∙ h.same_books.1);
  stop_kept =
      StopKept-trans p.side p.current_sl q.current_sl r.current_sl h.stop_kept
        (rw h.same_owner.2 at k.stop_kept);
}

pub next_row-shut :
    (db : Lookup) (settings : BrokerSettings) (w : Moment) (p : Position)
    → is_open p ≡ false
    → next_row db settings w p ≡ p
unfolding scan_row
next_row-shut db settings w p h = elim (Bool-cases (is_market_session w.at)) [
  | inl session ↦ simp (session, h) refl
  | inr off ↦ simp off refl
]

false-is : {A : Type 0} {b : Bool} → b ≡ false → b ≡ true → A
false-is {b = true} h k = ground arith
false-is {b = false} h k = ground arith

-- A row that a beat closes is not open; else it is held.
row_after-Held :
    (db : Lookup) (settings : BrokerSettings) (m : Market) (now : ℕ) (p : Position) (b : Beat)
    → beat db settings m now p ≡ b
    → is_open (row_after p b) ≡ true
    → Held p (row_after p b)
row_after-Held db settings m now p skipped e h = Held-refl p
row_after-Held db settings m now p raised e h = Held-refl p
row_after-Held db settings m now p (updated q) e h = beat-Held db settings m now p e
row_after-Held db settings m now p (closed closing) e h =
    false-is (beat-shut db settings m now p e).0 h

pub next_row-Held :
    (db : Lookup) (settings : BrokerSettings) (w : Moment) (p : Position)
    → is_open (next_row db settings w p) ≡ true
    → Held p (next_row db settings w p)
unfolding scan_row
next_row-Held db settings w p = elim (Bool-cases (is_market_session w.at)) [
  | inl session ↦ simp session (elim (Bool-cases (is_open p)) [
    | inl held ↦ simp held (row_after-Held db settings w.market w.at p _ refl)
    | inr shut ↦ simp shut (λ e. Held-refl p)
  ])
  | inr off ↦ simp off (λ e. Held-refl p)
]

-- Over any history a closed row stays as it was closed, and a row that is still open holds: same
-- owner, side, size, entry and target, and a stop that never loosened on the way.
pub watch_lem :
    (db : Lookup) (settings : BrokerSettings) (ws : List Moment) (p : Position)
    → (is_open p ≡ false → watch db settings ws p ≡ p)
      × (is_open (watch db settings ws p) ≡ true → Held p (watch db settings ws p))
watch_lem db settings [] p = (λ h. refl, λ h. Held-refl p)
watch_lem db settings (w ∷ ws) p =
    let q : Position = next_row db settings w p in
    let (settled, holds) = watch_lem db settings ws q in
    (
      λ h. let same = next_row-shut db settings w p h in settled (ap is_open same ∙ h) ∙ same,
      λ h. elim (Bool-cases (is_open q)) [
        | inl held ↦ Held-trans p q _ (next_row-Held db settings w p held) (holds h)
        | inr shut ↦ false-is shut (sym (ap is_open (settled shut)) ∙ h)
      ],
    )

map-same : {A : Type 0} (xs : List A) → map (λ x. x) xs ≡ xs
map-same [] = refl
map-same (x ∷ xs) = ap (λ ys. x ∷ ys) (map-same xs)

map_ext : {A B : Type 0} (f g : A → B) → ((x : A) → f x ≡ g x) → (xs : List A) → map f xs ≡ map g xs
map_ext f g h [] = refl
map_ext f g h (x ∷ xs) = rw (h x) (ap (λ ys. g x ∷ ys) (map_ext f g h xs))

pub scan-rows :
    (db : Lookup) (settings : BrokerSettings) (w : Moment) (book : Book)
    → (scan_positions db settings w.market w.at book).0.positions
      ≡ map (next_row db settings w) book.positions
unfolding scan_positions
scan-rows db settings w book = elim (Bool-cases (is_market_session w.at)) [
  | inl session ↦ simp session (map_ext _ _ (λ p. simp session refl) book.positions)
  | inr off ↦
      simp off (sym (map-same book.positions) ∙ map_ext _ _ (λ p. simp off refl) book.positions)
]
