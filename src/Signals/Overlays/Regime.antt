-- ===== src/Signals/Overlays/Regime.antt =====
-- The trend-regime taxonomy (backend/app/signals/regime.py) and the regime overlay
-- (backend/app/signals/regime_guard.py). A text is the list of its code points; `\b` is read over
-- ASCII word characters, and a level keeps its whole part and the digits of its fraction.
use Prim.Native.Char.{code}
use Prim.Native.String.{String}
use ln_trading_app.Prelude.{
  Bool, List, Option, [], false, if◌then◌else◌, leb, ltb, none, not, some, true, ℕ, ◌&&◌, ◌*◌, ◌+◌,
  ◌-◌, ◌==◌, ◌||◌, ◌∷◌,
}
use ln_trading_app.Signals.Overlays.{Mode, block_if}

-- The four labels; `regime n/a` is `not_available`.
pub data Regime : Type 0 where
  choppy transitional trending not_available : Regime

abbrev pub codes : String → List ℕ
codes String.[] = []
codes (String.◌∷◌ c s) = code c ∷ codes s

-- What is left of a text after a prefix.
abbrev pub after_prefix : List ℕ → List ℕ → Option (List ℕ)
after_prefix [] text = some text
after_prefix (p ∷ ps) [] = none
after_prefix (p ∷ ps) (c ∷ text) = let rest = after_prefix ps text in if p == c then rest else none

abbrev pub is_prefix : List ℕ → List ℕ → Bool
is_prefix ps text = elim (after_prefix ps text) [ none ↦ false | some rest ↦ true ]

-- `phrase in text`
unfoldable pub contains : List ℕ → List ℕ → Bool
contains phrase [] = is_prefix phrase []
contains phrase (c ∷ text) = is_prefix phrase (c ∷ text) || contains phrase text

abbrev pub is_digit : ℕ → Bool
is_digit c = leb 48 c && leb c 57

abbrev pub is_letter : ℕ → Bool
is_letter c = (leb 65 c && leb c 90) || (leb 97 c && leb c 122)

-- `\w`
abbrev pub is_word : ℕ → Bool
is_word c = is_digit c || (is_letter c || c == 95)

-- The leading digits of a text, and the rest.
abbrev pub span_digits : List ℕ → List ℕ × List ℕ
span_digits [] = ([], [])
span_digits (c ∷ text) =
    let rest = span_digits text in if is_digit c then (c ∷ rest.0, rest.1) else ([], c ∷ text)

-- The value of digits, read from the left.
abbrev pub digits_value : ℕ → List ℕ → ℕ
digits_value acc [] = acc
digits_value acc (c ∷ ds) = digits_value (acc * 10 + (c - 48)) ds

-- `(?:\.[0-9]+)?`: 46 is the point.
abbrev pub fraction_of : List ℕ → List ℕ
fraction_of [] = []
fraction_of (c ∷ text) = if c == 46 then (span_digits text).0 else []

pub record AdxLevel : Type 0 where
  pub whole_part : ℕ
  pub fraction : List ℕ

-- `([0-9]+(?:\.[0-9]+)?)` at the head of a text.
abbrev pub level_of : List ℕ → List ℕ → Option AdxLevel
level_of [] rest = none
level_of (d ∷ ds) rest =
    some (record { whole_part = digits_value 0 (d ∷ ds); fraction = fraction_of rest })

unfoldable pub level_at : List ℕ → Option AdxLevel
level_at text = elim (after_prefix (codes "ADX=") text) [
  | none ↦ none
  | some rest ↦ level_of (span_digits rest).0 (span_digits rest).1
]

-- The leftmost match of the pattern; `before` tells whether a word character precedes.
unfoldable pub search_level : Bool → List ℕ → Option AdxLevel
unfolding level_at
search_level before [] = none
search_level before (c ∷ text) =
    let later = search_level (is_word c) text in
    if before then later else elim (level_at (c ∷ text)) [ some l ↦ some l | none ↦ later ]

-- `none` is an explanation that is no text.
unfoldable pub parse_adx_level : Option (List ℕ) → Option AdxLevel
unfolding search_level
parse_adx_level none = none
parse_adx_level (some explanation) = search_level false explanation

-- The bounds are whole, so the whole part decides.
unfoldable pub adx_regime : Option AdxLevel → Regime
adx_regime none = not_available
adx_regime (some l) =
    if ltb l.whole_part 20 then choppy else if ltb l.whole_part 25 then transitional else trending

unfoldable pub regime_from_branch : Option (List ℕ) → Option Regime
unfolding contains
regime_from_branch none = none
regime_from_branch (some explanation) =
    if contains (codes "trending") explanation
    then some trending
    else if contains (codes "weak trend") explanation
    then some choppy
    else if contains (codes "moderate") explanation
    then some transitional
    else none

-- `explanation` is that of the ADX factor, `none` if there is no text there.
unfoldable pub regime_from_factor_scores : Option (List ℕ) → Regime
unfolding regime_from_branch adx_regime parse_adx_level
regime_from_factor_scores explanation = elim (regime_from_branch explanation) [
  | some regime ↦ regime
  | none ↦ adx_regime (parse_adx_level explanation)
]

-- The persisted regime, else the recovered one.
unfoldable pub signal_regime : Option Regime → Option (List ℕ) → Regime
unfolding regime_from_factor_scores
signal_regime none explanation = regime_from_factor_scores explanation
signal_regime (some regime) explanation = regime

-- Not in SKIP_REGIMES.
abbrev pub is_eligible : Regime → Bool
is_eligible choppy = true
is_eligible transitional = false
is_eligible trending = true
is_eligible not_available = true

abbrev pub regime_block_reason : Regime → Mode → Bool
regime_block_reason regime mode = block_if mode (not (is_eligible regime))
