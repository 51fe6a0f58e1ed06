-- ===== src/Broker/LiveLevels/Directory/Changes.antt =====
-- What refresh reports as changed.
use mathlib.Core.Path.{subst}
use ln_trading_app.Prelude.{
  All, All-++, All-keep, All-map, Bool, Bool-cases, List, Option-cases, [], ap, arith, false, inl,
  inr, keep, map, none, not, refl, some, sym, true, ℕ, ◌++◌, ◌==◌, ◌||◌, ◌∙◌, ◌∷◌, ◌≡◌, ◌⊎◌,
}
use ln_trading_app.Broker.LiveLevels.{Level, levels_or_empty, same_levels}
use ln_trading_app.Broker.LiveLevels.Directory.{StockLevels, changes, has_stock, is_unsent, lookup}
use ln_trading_app.Broker.LiveLevels.Directory.Cycle.{same_levels-equal}

-- No stock stands twice.
abbrev pub HasOnce : StockLevels → Type 0
HasOnce [] = Unit
HasOnce ((key, levels) ∷ dict) = (has_stock key dict ≡ false) × HasOnce dict

-- The levels that a stock should have
abbrev pub wanted : StockLevels → ℕ → List Level
wanted joined sid = levels_or_empty (lookup sid joined)

pub neither : (b c : Bool) → (b || c) ≡ false → (b ≡ false) × (c ≡ false)
neither b c e = ground arith

no_stock-lookup :
    (sid : ℕ) (dict : StockLevels) → has_stock sid dict ≡ false → lookup sid dict ≡ none
no_stock-lookup sid [] h = refl
no_stock-lookup sid ((key, levels) ∷ dict) h =
    let (here, there) = neither (key == sid) (has_stock sid dict) h in
    rw here (no_stock-lookup sid dict there)

pub equal : (a b : ℕ) → (a == b) ≡ true → a ≡ b
equal a b h = ground arith

nothing_is_not : (x : List Level) → ¬ (none ≡ some x)
nothing_is_not x e = ground arith

lookup-here :
    (key sid : ℕ) (own : List Level) (dict : StockLevels)
    → (key == sid) ≡ true
    → lookup sid ((key, own) ∷ dict) ≡ some own
lookup-here key sid own dict h = rw h refl

lookup-there :
    (key sid : ℕ) (own : List Level) (dict : StockLevels)
    → (key == sid) ≡ false
    → lookup sid ((key, own) ∷ dict) ≡ lookup sid dict
lookup-there key sid own dict h = rw h refl

found-lookup :
    (key sid : ℕ) (levels more : List Level) (dict : StockLevels)
    → has_stock key dict ≡ false
    → lookup sid dict ≡ some more
    → lookup sid ((key, levels) ∷ dict) ≡ some more
found-lookup key sid levels more dict absent found = elim (Bool-cases (key == sid)) [
  | inl same ↦ absurd (
      nothing_is_not more (
        sym (subst (λ k. lookup k dict ≡ none) (equal _ _ same) (no_stock-lookup key dict absent))
        ∙ found))
  | inr different ↦ rw different found
]

-- Each entry is what a look-up finds.
entries-lookup :
    (dict : StockLevels) → HasOnce dict → All (λ entry. lookup entry.0 dict ≡ some entry.1) dict
entries-lookup [] once = tt
entries-lookup ((key, levels) ∷ dict) (absent, once) = (
  rw (self key) refl,
  All-map dict (λ entry found. found-lookup key entry.0 levels entry.1 dict absent found)
      (entries-lookup dict once),
)
  where
    self : (a : ℕ) → (a == a) ≡ true
    self a = ground arith

abbrev pub Wanted : StockLevels → ℕ × List Level → Type 0
Wanted joined entry = entry.1 ≡ wanted joined entry.0

not_there :
    (entry : ℕ × List Level) (joined : StockLevels)
    → not (has_stock entry.0 joined) ≡ true
    → Wanted joined (entry.0, [])
not_there entry joined h = sym (ap levels_or_empty (no_stock-lookup entry.0 joined (absent _ h)))
  where
    absent : (b : Bool) → not b ≡ true → b ≡ false
    absent b e = ground arith

emptied-All :
    (joined dict : StockLevels)
    → All
        (Wanted joined)
        (map (λ entry. (entry.0, [])) (keep (λ entry. not (has_stock entry.0 joined)) dict))
emptied-All joined [] = tt
emptied-All joined (entry ∷ dict) = elim (Bool-cases (not (has_stock entry.0 joined))) [
  | inl gone ↦ rw gone (not_there entry joined gone, emptied-All joined dict)
  | inr there ↦ rw there (emptied-All joined dict)
]

-- What is sent is what is wanted.
pub changes-All :
    (joined last : StockLevels) → HasOnce joined → All (Wanted joined) (changes joined last)
unfolding changes
changes-All joined last once =
    All-++ (Wanted joined) (keep (is_unsent last) joined) _
      (All-keep (Wanted joined) (is_unsent last) joined (
        All-map joined (λ entry found. sym (ap levels_or_empty found))
          (entries-lookup joined once)))
      (emptied-All joined last)

has_stock-++ :
    (sid : ℕ) (a b : StockLevels)
    → (has_stock sid a ≡ true) ⊎ (has_stock sid b ≡ true)
    → has_stock sid (a ++ b) ≡ true
has_stock-++ sid [] b (inl h) = ground arith
has_stock-++ sid [] b (inr h) = h
has_stock-++ sid (entry ∷ a) b h = elim (Bool-cases (entry.0 == sid)) [
  | inl here ↦ rw here refl
  | inr elsewhere ↦ rw elsewhere (has_stock-++ sid a b (rest _ _ _ elsewhere h))
]
  where
    rest : (x y z : Bool) → x ≡ false → ((x || y) ≡ true) ⊎ (z ≡ true) → (y ≡ true) ⊎ (z ≡ true)
    rest x y z e h = ground arith

-- A stock whose entry is found and not sent is kept.
unsent-kept :
    (test : ℕ × List Level → Bool) (sid : ℕ) (levels : List Level) (dict : StockLevels)
    → lookup sid dict ≡ some levels
    → ((key : ℕ) → (key == sid) ≡ true → test (key, levels) ≡ true)
    → has_stock sid (keep test dict) ≡ true
unsent-kept test sid levels [] h passes = ground arith
unsent-kept test sid levels ((key, own) ∷ dict) h passes = elim (Bool-cases (key == sid)) [
  | inl same ↦
      let found : own ≡ levels = ap levels_or_empty (sym (lookup-here key sid own dict same) ∙ h) in
      let passing : test (key, own) ≡ true =
        subst (λ l. test (key, l) ≡ true) (sym found) (passes key same) in
      rw (passing, same) refl
  | inr different ↦
      let rest : has_stock sid (keep test dict) ≡ true =
        unsent-kept test sid levels dict (sym (lookup-there key sid own dict different) ∙ h)
          passes in
      elim (Bool-cases (test (key, own))) [
        | inl passing ↦ rw (passing, different) rest
        | inr failing ↦ rw failing rest
      ]
]

lookup-no_stock :
    (sid : ℕ) (dict : StockLevels) → lookup sid dict ≡ none → has_stock sid dict ≡ false
lookup-no_stock sid [] h = refl
lookup-no_stock sid ((key, own) ∷ dict) h = elim (Bool-cases (key == sid)) [
  | inl same ↦ absurd (nothing_is_not own (sym h ∙ lookup-here key sid own dict same))
  | inr different ↦
      rw different (lookup-no_stock sid dict (sym (lookup-there key sid own dict different) ∙ h))
]

has_stock-emptied :
    (sid : ℕ) (dict : StockLevels)
    → has_stock sid (map (λ entry. (entry.0, [])) dict) ≡ has_stock sid dict
has_stock-emptied sid [] = refl
has_stock-emptied sid (entry ∷ dict) = ap (λ b. (entry.0 == sid) || b) (has_stock-emptied sid dict)

-- A stock that has not what is wanted is among the changes.
pub changes-covers :
    (joined last : StockLevels) (sid : ℕ)
    → (levels_or_empty (lookup sid last) ≡ wanted joined sid)
      ⊎ (has_stock sid (changes joined last) ≡ true)
unfolding changes is_unsent
changes-covers joined last sid =
    let unsent : List (ℕ × List Level) = keep (is_unsent last) joined in
    let gone : StockLevels = keep (λ entry. not (has_stock entry.0 joined)) last in
    elim (Option-cases (lookup sid joined)) [
      | inl missing ↦ elim (Option-cases (lookup sid last)) [
        | inl never ↦ inl (ap levels_or_empty never ∙ sym (ap levels_or_empty missing))
        | inr (sent, acked) ↦ inr (
            has_stock-++ sid unsent _ (
              inr (
                has_stock-emptied sid gone
                ∙ unsent-kept (λ entry. not (has_stock entry.0 joined)) sid sent last acked
                    (λ key same.
                      subst (λ k. not (has_stock k joined) ≡ true) (sym (equal key sid same))
                        (ap not (lookup-no_stock sid joined missing))))))
      ]
      | inr (levels, there) ↦ elim (Option-cases (lookup sid last)) [
        | inl never ↦ inr (
            has_stock-++ sid unsent _ (
              inl (
                unsent-kept (is_unsent last) sid levels joined there (λ key same.
                  subst (λ k. is_unsent last (k, levels) ≡ true) (sym (equal key sid same))
                    (rw (is_unsent, never) refl)))))
        | inr (sent, acked) ↦ elim (Bool-cases (same_levels sent levels)) [
          | inl equals ↦ inl (
              ap levels_or_empty acked
              ∙ same_levels-equal sent levels equals
              ∙ sym (ap levels_or_empty there))
          | inr differs ↦ inr (
              has_stock-++ sid unsent _ (
                inl (
                  unsent-kept (is_unsent last) sid levels joined there (λ key same.
                    subst (λ k. is_unsent last (k, levels) ≡ true) (sym (equal key sid same))
                      (rw (is_unsent, acked, differs) refl)))))
        ]
      ]
    ]
