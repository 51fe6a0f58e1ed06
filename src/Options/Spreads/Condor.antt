-- ===== src/Options/Spreads/Condor.antt =====
-- What an iron condor can make and lose at expiry.
use mathlib.Core.Path.{subst}
use ln_trading_app.Prelude.{
  Bool, [], ap, arith, false, if◌then◌else◌, ltb, none, refl, some, sym, true, ℕ, ◌&&◌, ◌+◌, ◌-◌,
  ◌<◌, ◌∙◌, ◌∷◌, ◌≡◌, ◌≤◌,
}
use ln_trading_app.Broker.Worker.Ltp.{put}
use ln_trading_app.Options.Spreads.{
  OptionLeg, SpreadCandidate, bear_call, bear_call_spread, bull_put, bull_put_spread, buy_leg,
  iron_condor, iron_condor_spread, is_put, make_candidate, sell_leg,
}
use ln_trading_app.Options.Spreads.Risk.{
  Credits, IsDefined, bear_call-success, below, bull_put-success, distance_down, distance_up,
  guarded, payments, receipts, vertical_of,
}
use ln_trading_app.Prelude.Round.{distance, maximum}

abbrev condor_of : OptionLeg → OptionLeg → OptionLeg → OptionLeg → SpreadCandidate
condor_of put_short put_long call_short call_long =
    let credit = put_short.premium - put_long.premium + (call_short.premium - call_long.premium) in
    let widest =
      maximum (distance put_short.strike put_long.strike)
        (distance call_short.strike call_long.strike) in
    make_candidate iron_condor_spread (put_short ∷ put_long ∷ call_short ∷ call_long ∷ []) credit
      (widest - credit) widest ((put_short.strike - credit) ∷ (call_short.strike + credit) ∷ [])

abbrev total_credit : OptionLeg → OptionLeg → OptionLeg → OptionLeg → ℕ
total_credit put_short put_long call_short call_long =
    put_short.premium - put_long.premium + (call_short.premium - call_long.premium)

abbrev widest_of : OptionLeg → OptionLeg → OptionLeg → OptionLeg → ℕ
widest_of put_short put_long call_short call_long =
    maximum (distance put_short.strike put_long.strike)
      (distance call_short.strike call_long.strike)

condor-test :
    (put_short put_long call_short call_long : OptionLeg)
    → put_short.leg_action ≡ sell_leg
    → call_short.leg_action ≡ sell_leg
    → iron_condor
        (vertical_of bull_put_spread put_short put_long)
        (vertical_of bear_call_spread call_short call_long)
      ≡ (if ltb put_short.strike call_short.strike
            && ltb
                (total_credit put_short put_long call_short call_long)
                (widest_of put_short put_long call_short call_long)
          then some (condor_of put_short put_long call_short call_long)
          else none)
unfolding iron_condor make_candidate
condor-test put_short put_long call_short call_long ps cs = simp (ps, cs) refl

below_maximum : (a b : ℕ) → (a ≤ maximum a b) × (b ≤ maximum a b)
below_maximum a b = ground arith

condor-IsDefined :
    (put_short put_long call_short call_long : OptionLeg)
    → (put_short.leg_action ≡ sell_leg) × (put_long.leg_action ≡ buy_leg)
    → (call_short.leg_action ≡ sell_leg) × (call_long.leg_action ≡ buy_leg)
    → (is_put put_short.option_type ≡ true) × (is_put put_long.option_type ≡ true)
    → (is_put call_short.option_type ≡ false) × (is_put call_long.option_type ≡ false)
    → put_long.strike < put_short.strike
    → call_short.strike < call_long.strike
    → put_short.strike < call_short.strike
    → Credits put_short put_long
    → Credits call_short call_long
    → total_credit put_short put_long call_short call_long
      < widest_of put_short put_long call_short call_long
    → IsDefined (condor_of put_short put_long call_short call_long)
unfolding make_candidate receipts payments
condor-IsDefined put_short put_long call_short call_long (ps, pl) (cs, cl) (tps, tpl) (tcs, tcl)
      puts calls apart (put_credit, put_narrow) (call_credit, call_narrow) narrow price =
    let width_facts =
      below_maximum (distance put_short.strike put_long.strike)
        (distance call_short.strike call_long.strike) in
    rw (ps, pl, cs, cl, tps, tpl, tcs, tcl)
      (omega (
        arith,
        width_facts,
        distance_down put_short.strike put_long.strike puts,
        distance_up call_short.strike call_long.strike calls,
      ))

-- An iron condor of a bull put and a bear call, each of a leg that is sold and one that is bought,
-- makes at most its credit and loses at most its maximal loss, at whatever price it expires: only
-- one of its wings can be breached.
pub iron_condor-IsDefined :
    (put_short put_long call_short call_long : OptionLeg) (put call c : SpreadCandidate)
    → (put_short.leg_action ≡ sell_leg) × (put_long.leg_action ≡ buy_leg)
    → (call_short.leg_action ≡ sell_leg) × (call_long.leg_action ≡ buy_leg)
    → bull_put put_short put_long ≡ some put
    → bear_call call_short call_long ≡ some call
    → iron_condor put call ≡ some c
    → IsDefined c
iron_condor-IsDefined put_short put_long call_short call_long put call c (ps, pl) (cs, cl) made_put
      made_call made =
    let (tps, (tpl, (puts, (put_credits, put_same)))) =
      bull_put-success put_short put_long put made_put in
    let (tcs, (tcl, (calls, (call_credits, call_same)))) =
      bear_call-success call_short call_long call made_call in
    let made' : iron_condor (vertical_of bull_put_spread put_short put_long)
          (vertical_of bear_call_spread call_short call_long)
        ≡ some c =
      ap (λ x. iron_condor x (vertical_of bear_call_spread call_short call_long)) put_same
      ∙ ap (iron_condor put) call_same
      ∙ made in
    let (test, same) =
      guarded _ (some (condor_of put_short put_long call_short call_long)) c
        (sym (condor-test put_short put_long call_short call_long ps cs) ∙ made') in
    let (apart, narrow) = both _ _ test in
    subst IsDefined (some_same _ c same) (
      condor-IsDefined put_short put_long call_short call_long (ps, pl) (cs, cl) (tps, tpl)
        (tcs, tcl) puts calls (below _ _ apart) put_credits call_credits (below _ _ narrow))
  where
    both : (a b : Bool) → (a && b) ≡ true → (a ≡ true) × (b ≡ true)
    both a b h = ground arith

    some_same : (x y : SpreadCandidate) → some x ≡ some y → x ≡ y
    some_same x y h = ground arith
