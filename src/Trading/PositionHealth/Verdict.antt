-- ===== src/Trading/PositionHealth/Verdict.antt =====
-- When the verdict is to cut.
use ln_trading_app.Prelude.{
  Bool, Bool-cases, List, Option, [], any, arith, false, inl, inr, none, refl, some, true, ℕ, ◌&&◌,
  ◌<◌, ◌||◌, ◌∙◌, ◌∷◌, ◌≡◌,
}
use ln_trading_app.Money.{Side, long, short}
use ln_trading_app.Prelude.Round.{distance, mul_mono}
use ln_trading_app.Trading.PositionHealth.{
  HealthParams, HealthReason, HealthVerdict, assess_position_health, cut, is_adverse, is_broken,
  is_choppy, is_cut, is_deep, is_inverted, is_stale, reasons_of, verdict_of,
}

abbrev pub is_cut_verdict : HealthVerdict → Bool
is_cut_verdict cut = true
is_cut_verdict _ = false

verdict_of-any : (rs : List HealthReason) → is_cut_verdict (verdict_of rs) ≡ any is_cut rs
unfolding verdict_of
verdict_of-any [] = refl
verdict_of-any (r ∷ rs) = elim (Bool-cases (any is_cut (r ∷ rs))) [
  | inl some_cut ↦ rw some_cut refl
  | inr soft ↦ rw soft refl
]

reasons_cut :
    (adverse broken deep inverted choppy lapsed : Bool)
    → any is_cut (reasons_of adverse broken deep inverted choppy lapsed)
      ≡ (broken || (deep || (adverse && (inverted || (choppy || lapsed)))))
reasons_cut adverse broken deep inverted choppy lapsed = ground arith

-- The verdict is to cut exactly when the stop is reached, the loss is deep, or a trade that is
-- under water has a further warning: an inverted reward to risk, a dead trend or a lapsed validity.
pub assess_position_health_cuts :
    (params : HealthParams) (side : Side) (entry : ℕ) (px stop target er until : Option ℕ) (now : ℕ)
    → is_cut_verdict (assess_position_health params side entry px stop target er until now).verdict
      ≡ (is_broken side px stop
          || (is_deep params side entry px stop
              || (is_adverse side entry px
                  && (is_inverted params side px stop target
                      || (is_choppy params er || is_stale now until)))))
unfolding assess_position_health
assess_position_health_cuts params side entry px stop target er until now =
    let adverse : Bool = is_adverse side entry px in
    let broken : Bool = is_broken side px stop in
    let deep : Bool = is_deep params side entry px stop in
    let inverted : Bool = is_inverted params side px stop target in
    let choppy : Bool = is_choppy params er in
    let lapsed : Bool = is_stale now until in
    verdict_of-any (reasons_of adverse broken deep inverted choppy lapsed)
    ∙ reasons_cut adverse broken deep inverted choppy lapsed

deep_is_adverse :
    (params : HealthParams) (side : Side) (entry : ℕ) (px stop : Option ℕ)
    → 0 < params.deep_mae_r
    → is_deep params side entry px stop ≡ true
    → is_adverse side entry px ≡ true
deep_is_adverse params side entry none stop h e = ground arith
deep_is_adverse params side entry (some px) none h e = ground arith
deep_is_adverse params long entry (some px) (some stop) h e =
    ground (arith, mul_mono params.deep_mae_r 1 (distance entry stop))
deep_is_adverse params short entry (some px) (some stop) h e =
    ground (arith, mul_mono params.deep_mae_r 1 (distance entry stop))

-- A trade that is not under water and whose stop is not reached is never cut, however choppy the
-- trend and however old the signal, if the threshold for a deep loss is positive.
pub assess_position_health_green :
    (params : HealthParams) (side : Side) (entry : ℕ) (px stop target er until : Option ℕ) (now : ℕ)
    → 0 < params.deep_mae_r
    → is_adverse side entry px ≡ false
    → is_broken side px stop ≡ false
    → is_cut_verdict (assess_position_health params side entry px stop target er until now).verdict
      ≡ false
assess_position_health_green params side entry px stop target er until now h green safe =
    rw (assess_position_health_cuts params side entry px stop target er until now) (
      rw (green, safe)
        (elim (Bool-cases (is_deep params side entry px stop)) [
          | inl deep ↦ ground (arith, deep_is_adverse params side entry px stop h deep)
          | inr shallow ↦ rw shallow refl
        ]))
