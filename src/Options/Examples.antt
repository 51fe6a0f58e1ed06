-- ===== src/Options/Examples.antt =====
-- A spread, a condor and a chain.
use ln_trading_app.Prelude.{List, [], refl, some, ℕ, ◌*◌, ◌∷◌, ◌≡◌}
use ln_trading_app.Options.Chain.{
  ChainRow, add_oi, insert_strike, least_pain, least_strike, max_pain, oi_by_strike, pain_at,
  strikes_of,
}
use ln_trading_app.Options.Chain.Pain.{IsLeast, max_pain-IsLeast}
use ln_trading_app.Options.Chain.Payout.{total_payout}
use ln_trading_app.Options.Spreads.{
  Action, OptionLeg, OptionType, SpreadCandidate, bear_call, bear_call_spread, bull_put,
  bull_put_spread, buy_leg, call_option, iron_condor, iron_condor_spread, make_candidate,
  put_option, sell_leg, vertical,
}
use ln_trading_app.Options.Spreads.Condor.{iron_condor-IsDefined}
use ln_trading_app.Options.Spreads.Risk.{IsDefined}

abbrev leg_of : Action → OptionType → ℕ → ℕ → OptionLeg
leg_of action side strike premium = record {
  leg_action = action;
  option_type = side;
  strike = strike * 10_000;
  premium = premium * 10_000;
}

abbrev put_short : OptionLeg
put_short = leg_of sell_leg put_option 24_000 120

abbrev put_long : OptionLeg
put_long = leg_of buy_leg put_option 23_900 85

abbrev call_short : OptionLeg
call_short = leg_of sell_leg call_option 25_000 110

abbrev call_long : OptionLeg
call_long = leg_of buy_leg call_option 25_100 80

abbrev the_put : SpreadCandidate
the_put =
    make_candidate bull_put_spread (put_short ∷ put_long ∷ []) 350_000 650_000 1_000_000
      (239_650_000 ∷ [])

abbrev the_call : SpreadCandidate
the_call =
    make_candidate bear_call_spread (call_short ∷ call_long ∷ []) 300_000 700_000 1_000_000
      (250_300_000 ∷ [])

abbrev the_condor : SpreadCandidate
the_condor =
    make_candidate iron_condor_spread (put_short ∷ put_long ∷ call_short ∷ call_long ∷ []) 650_000
      350_000 1_000_000 (239_350_000 ∷ 250_650_000 ∷ [])

put-made : bull_put put_short put_long ≡ some the_put
unfolding bull_put vertical make_candidate
put-made = refl

call-made : bear_call call_short call_long ≡ some the_call
unfolding bear_call vertical make_candidate
call-made = refl

condor-made : iron_condor the_put the_call ≡ some the_condor
unfolding iron_condor make_candidate
condor-made = refl

iron_condor-IsDefined_example : IsDefined the_condor
iron_condor-IsDefined_example =
    iron_condor-IsDefined put_short put_long call_short call_long the_put the_call the_condor
      (refl, refl) (refl, refl) put-made call-made condor-made

abbrev chain : List ChainRow
chain =
    record { row_strike = 100; row_type = call_option; open_interest = 50; row_volume = 5 }
    ∷ record { row_strike = 110; row_type = call_option; open_interest = 80; row_volume = 5 }
    ∷ record { row_strike = 100; row_type = put_option; open_interest = 90; row_volume = 0 }
    ∷ record { row_strike = 90; row_type = put_option; open_interest = 40; row_volume = 1 }
    ∷ []

pinned : max_pain chain ≡ some 100
unfolding max_pain least_strike strikes_of insert_strike pain_at oi_by_strike add_oi least_pain
pinned = refl

max_pain-IsLeast_example : IsLeast (total_payout chain) chain (max_pain chain)
max_pain-IsLeast_example = max_pain-IsLeast chain
