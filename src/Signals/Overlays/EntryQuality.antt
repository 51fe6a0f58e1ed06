-- ===== src/Signals/Overlays/EntryQuality.antt =====
-- The entry-quality overlay (backend/app/signals/entry_quality.py): at least some number of factors
-- that score, none of which dominates, and a stop that is not much tighter than the ATR.
use ln_trading_app.Prelude.{
  Bool, List, Option, [], false, if◌then◌else◌, length, ltb, none, some, ℕ, ◌&&◌, ◌*◌, ◌+◌, ◌==◌,
  ◌||◌, ◌∷◌,
}
use ln_trading_app.Prelude.Int.{neg_part, pos_part, ℤ}
use ln_trading_app.Prelude.Round.{distance, maximum}
use ln_trading_app.Signals.Overlays.{Mode, block_if}

-- One value of the `factor_scores` mapping. Scores and weights are fixed-point; one that is not a
-- number, and a value that is not a mapping, is skipped.
pub data FactorValue : Type 0 where
  unreadable : FactorValue
  scored : (score weight : ℤ) → FactorValue

abbrev pub magnitude : ℤ → ℕ
magnitude z = pos_part z + neg_part z

-- `abs(weight * score)`
abbrev pub contribution : ℤ → ℤ → ℕ
contribution score weight = magnitude weight * magnitude score

-- The contributions of the factors with a score that is not zero
unfoldable pub contributions : List FactorValue → List ℕ
contributions [] = []
contributions (unreadable ∷ values) = contributions values
contributions (scored score weight ∷ values) =
    let rest = contributions values in
    if magnitude score == 0 then rest else contribution score weight ∷ rest

abbrev pub total : List ℕ → ℕ
total [] = 0
total (x ∷ xs) = x + total xs

abbrev pub largest : List ℕ → ℕ
largest [] = 0
largest (x ∷ xs) = maximum x (largest xs)

pub record Diversity : Type 0 where
  pub scoring_count : ℕ
  pub top : ℕ
  pub whole : ℕ

-- The dominant share is `top / whole`, and None if `whole` is zero. A payload that is not a mapping
-- counts no factor.
unfoldable pub factor_diversity : Option (List FactorValue) → Diversity
unfolding contributions
factor_diversity none = record { scoring_count = 0; top = 0; whole = 0 }
factor_diversity (some values) = record {
  scoring_count = length (contributions values);
  top = largest (contributions values);
  whole = total (contributions values);
}

-- Settings of the overlay: a share in units of 0.0001, a multiple of the ATR in units of 0.01.
pub record EntrySettings : Type 0 where
  pub min_scoring_factors : ℕ
  pub max_dominant_share : ℕ
  pub min_sl_atr_mult : ℕ

pub record EntryQualityVerdict : Type 0 where
  pub diversity_blocked : Bool
  pub sl_blocked : Bool
  pub scoring_factors : ℕ

-- `dominant is not None and dominant > max_dominant_share`
abbrev pub dominates : ℕ → Diversity → Bool
dominates share d = ltb 0 d.whole && ltb (share * d.whole) (d.top * 10_000)

abbrev pub lacks_diversity : EntrySettings → Diversity → Bool
lacks_diversity s d =
    ltb 0 d.scoring_count
    && (ltb d.scoring_count s.min_scoring_factors || dominates s.max_dominant_share d)

abbrev pub too_tight : EntrySettings → ℕ → Option ℕ → Bool
too_tight s sl_distance none = false
too_tight s sl_distance (some atr) =
    ltb 0 atr && (ltb 0 s.min_sl_atr_mult && ltb (sl_distance * 100) (s.min_sl_atr_mult * atr))

unfoldable pub evaluate_entry_quality :
    EntrySettings → ℕ → ℕ → Option (List FactorValue) → Option ℕ → EntryQualityVerdict
unfolding factor_diversity
evaluate_entry_quality s entry stop_loss factor_scores atr = record {
  diversity_blocked = lacks_diversity s (factor_diversity factor_scores);
  sl_blocked = too_tight s (distance entry stop_loss) atr;
  scoring_factors = (factor_diversity factor_scores).scoring_count;
}

abbrev pub entry_quality_block_reason : EntryQualityVerdict → Mode → Mode → Bool
entry_quality_block_reason verdict diversity_mode sl_atr_mode =
    block_if diversity_mode verdict.diversity_blocked || block_if sl_atr_mode verdict.sl_blocked
