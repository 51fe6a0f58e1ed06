-- ===== src/Trading/PositionHealth.antt =====
-- The advisory verdict on an open position (backend/app/trading/position_health.py). The tests on
-- ratios are made on the exact ratios, with parameters and the efficiency ratio in units of 1e-8;
-- the ratios and the texts that are only displayed are left out, and instants carry a zone.
pub mod Verdict
use ln_trading_app.Prelude.{
  Bool, List, Option, [], any, false, if◌then◌else◌, leb, ltb, none, not, some, true, ℕ, ◌&&◌, ◌*◌,
  ◌++◌, ◌+◌, ◌-◌, ◌∷◌,
}
use ln_trading_app.Money.{Side, long, rupee, short}
use ln_trading_app.Prelude.Round.{distance}
use ln_trading_app.Trading.TrailSl.{is_sl_hit}

pub data HealthVerdict : Type 0 where
  hold watch_closely cut : HealthVerdict

pub data HealthCode : Type 0 where
  thesis_break trend_dead rr_inverted deep_mae stale : HealthCode

pub record HealthReason : Type 0 where
  pub code : HealthCode
  pub severity : HealthVerdict

pub record HealthParams : Type 0 where
  pub choppy_er : ℕ
  pub rr_floor : ℕ
  pub deep_mae_r : ℕ

abbrev pub default_health_params : HealthParams
default_health_params = record { choppy_er = 30_000_000; rr_floor = rupee; deep_mae_r = 80_000_000 }

pub record PositionHealth : Type 0 where
  pub verdict : HealthVerdict
  pub reasons : List HealthReason

abbrev pub is_cut : HealthReason → Bool
is_cut r = elim r.severity [ cut ↦ true | _ ↦ false ]

unfoldable pub verdict_of : List HealthReason → HealthVerdict
verdict_of rs = if any is_cut rs then cut else elim rs [ [] ↦ hold | (r ∷ rest) ↦ watch_closely ]

-- `b` is worse than `a` for the position.
abbrev pub worse : Side → ℕ → ℕ → Bool
worse long a b = ltb b a
worse short a b = ltb a b

-- The loss from `a` to `b`, if it is one
abbrev pub lost : Side → ℕ → ℕ → ℕ
lost long a b = a - b
lost short a b = b - a

abbrev pub is_adverse : Side → ℕ → Option ℕ → Bool
is_adverse side entry none = false
is_adverse side entry (some px) = worse side entry px

abbrev pub is_broken : Side → Option ℕ → Option ℕ → Bool
is_broken side (some px) (some stop) = is_sl_hit side px stop
is_broken side _ _ = false

-- `drawdown_r >= params.deep_mae_r`
abbrev pub at_least_lost : Side → ℕ → ℕ → ℕ → ℕ → Bool
at_least_lost long entry px risk r = leb (px * rupee + r * risk) (entry * rupee)
at_least_lost short entry px risk r = leb (entry * rupee + r * risk) (px * rupee)

abbrev pub is_deep : HealthParams → Side → ℕ → Option ℕ → Option ℕ → Bool
is_deep params side entry (some px) (some stop) =
    ltb 0 (distance entry stop)
    && at_least_lost side entry px (distance entry stop) params.deep_mae_r
is_deep params side entry _ _ = false

-- `rr_remaining < params.rr_floor`, with the target and the stop still ahead
abbrev pub is_inverted : HealthParams → Side → Option ℕ → Option ℕ → Option ℕ → Bool
is_inverted params side (some px) (some stop) (some target) =
    ltb 0 (lost side target px)
    && (ltb 0 (lost side px stop)
        && ltb (lost side target px * rupee) (params.rr_floor * lost side px stop))
is_inverted params side _ _ _ = false

abbrev pub is_choppy : HealthParams → Option ℕ → Bool
is_choppy params none = false
is_choppy params (some er) = ltb er params.choppy_er

abbrev pub is_stale : ℕ → Option ℕ → Bool
is_stale now none = false
is_stale now (some until) = leb until now

abbrev pub soft_cut : Bool → HealthVerdict
soft_cut condition_adverse = if condition_adverse then cut else watch_closely

abbrev pub reason_if : Bool → HealthCode → HealthVerdict → List HealthReason
reason_if test code severity = if test then record { code = code; severity = severity } ∷ [] else []

-- The checks, in order
abbrev pub reasons_of : Bool → Bool → Bool → Bool → Bool → Bool → List HealthReason
reasons_of adverse broken deep inverted choppy lapsed =
    reason_if broken thesis_break cut
    ++ reason_if (deep && not broken) deep_mae cut
    ++ reason_if (adverse && inverted) rr_inverted cut
    ++ reason_if choppy trend_dead (soft_cut adverse)
    ++ reason_if lapsed stale (soft_cut adverse)

unfoldable pub assess_position_health :
    HealthParams
    → Side
    → ℕ
    → Option ℕ
    → Option ℕ
    → Option ℕ
    → Option ℕ
    → Option ℕ
    → ℕ
    → PositionHealth
unfolding verdict_of is_sl_hit
assess_position_health params side entry px stop target er until now =
    let rs : List HealthReason =
      reasons_of (is_adverse side entry px) (is_broken side px stop)
        (is_deep params side entry px stop) (is_inverted params side px stop target)
        (is_choppy params er) (is_stale now until) in
    record { verdict = verdict_of rs; reasons = rs }
