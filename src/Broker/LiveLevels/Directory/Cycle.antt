-- ===== src/Broker/LiveLevels/Directory/Cycle.antt =====
-- One cycle of refresh and application, from the changes to the engine.
use mathlib.Core.Path.{subst}
use ln_trading_app.Prelude.{
  Bool, Bool-cases, List, [], ap, arith, false, if◌then◌else◌, inl, inr, none, refl, true, ℕ, ◌&&◌,
  ◌==◌, ◌∙◌, ◌∷◌, ◌≡◌,
}
use ln_trading_app.Broker.LiveLevels.{
  Level, cross_down, cross_up, levels_or_empty, near, same_level, same_levels, vburst, zone,
}
use ln_trading_app.Broker.LiveLevels.Directory.{
  LevelState, StockLevels, apply_levels, lookup, mark_sent, remove, set_levels,
}
use ln_trading_app.Clock.{second}

same_level-equal : (a b : Level) → same_level a b ≡ true → a ≡ b
same_level-equal (zone i x y) b h = ground arith
same_level-equal (near i x y) b h = ground arith
same_level-equal (cross_up i x y) b h = ground arith
same_level-equal (cross_down i x y) b h = ground arith
same_level-equal (vburst i x y) b h = ground arith

pub same_levels-equal :
    (first second : List Level) → same_levels first second ≡ true → first ≡ second
same_levels-equal [] [] h = refl
same_levels-equal [] (b ∷ second) h = ground arith
same_levels-equal (a ∷ first) [] h = ground arith
same_levels-equal (a ∷ first) (b ∷ second) h =
    let (here, there) = both _ _ h in
    ap (λ x. x ∷ first) (same_level-equal a b here)
    ∙ ap (λ xs. b ∷ xs) (same_levels-equal first second there)
  where
    both : (b c : Bool) → (b && c) ≡ true → (b ≡ true) × (c ≡ true)
    both b c e = ground arith

-- What the engine holds is what was acknowledged.
abbrev pub IsSynced : LevelState → Type 0
IsSynced s = (sid : ℕ) → levels_or_empty (lookup sid s.last_sent) ≡ s.engine sid

lookup-remove_same : (sid : ℕ) (dict : StockLevels) → lookup sid (remove sid dict) ≡ none
lookup-remove_same sid [] = refl
lookup-remove_same sid ((key, levels) ∷ dict) =
    let rest = lookup-remove_same sid dict in
    elim (Bool-cases (key == sid)) [
      | inl same ↦ rw same rest
      | inr different ↦ rw (different, different) rest
    ]

lookup-remove_other :
    (sid stock : ℕ) (dict : StockLevels)
    → (sid == stock) ≡ false
    → lookup stock (remove sid dict) ≡ lookup stock dict
lookup-remove_other sid stock [] h = refl
lookup-remove_other sid stock ((key, levels) ∷ dict) h =
    let rest = lookup-remove_other sid stock dict h in
    elim (Bool-cases (key == sid)) [
      | inl same ↦ rw (same, not_key key same) rest
      | inr different ↦ elim (Bool-cases (key == stock)) [
        | inl found ↦ rw (different, found) refl
        | inr missed ↦ rw (different, missed) rest
      ]
    ]
  where
    not_key : (key : ℕ) → (key == sid) ≡ true → (key == stock) ≡ false
    not_key key e = ground arith

lookup-mark_sent :
    (sid stock : ℕ) (levels : List Level) (dict : StockLevels)
    → levels_or_empty (lookup stock (mark_sent sid levels dict))
      ≡ (if sid == stock then levels else levels_or_empty (lookup stock dict))
unfolding mark_sent
lookup-mark_sent sid stock [] dict = elim (Bool-cases (sid == stock)) [
  | inl same ↦ rw same (
      ap levels_or_empty (
        subst (λ x. lookup x (remove sid dict) ≡ none) (equal _ _ same)
          (lookup-remove_same sid dict)))
  | inr different ↦ rw different (ap levels_or_empty (lookup-remove_other sid stock dict different))
]
  where
    equal : (a b : ℕ) → (a == b) ≡ true → a ≡ b
    equal a b h = ground arith
lookup-mark_sent sid stock (l ∷ levels) dict = elim (Bool-cases (sid == stock)) [
  | inl same ↦ rw same refl
  | inr different ↦ rw different (ap levels_or_empty (lookup-remove_other sid stock dict different))
]

-- Whatever the engine accepts and rejects, what was acknowledged stays what the engine holds.
pub apply_levels-IsSynced :
    (accepts : ℕ → List Level → Bool) (payload : List (ℕ × List Level)) (s : LevelState)
    → IsSynced s
    → IsSynced (apply_levels accepts payload s)
unfolding apply_levels
apply_levels-IsSynced accepts [] s h = h
apply_levels-IsSynced accepts ((sid, levels) ∷ payload) s h =
    elim (Bool-cases (accepts sid levels)) [
      | inl fits ↦
          rw (apply_levels, fits)
            (apply_levels-IsSynced accepts payload
              (record {
                engine = set_levels sid levels s.engine;
                last_sent = mark_sent sid levels s.last_sent;
              })
              (λ stock.
                lookup-mark_sent sid stock levels s.last_sent
                ∙ set_same sid stock levels (h stock)))
      | inr refused ↦ rw (apply_levels, refused) (apply_levels-IsSynced accepts payload s h)
    ]
  where
    set_same :
        (sid stock : ℕ) (levels : List Level)
        → levels_or_empty (lookup stock s.last_sent) ≡ s.engine stock
        → (if sid == stock then levels else levels_or_empty (lookup stock s.last_sent))
          ≡ set_levels sid levels s.engine stock
    set_same sid stock levels e = ap (λ old. if sid == stock then levels else old) e
