-- ===== src/Options/Spreads.antt =====
-- Credit spreads and the iron condor (backend/app/services/fo_suggestions.py). Prices are in
-- ten-thousandths. What rests on the probability of profit (a floating-point number) is left out of
-- a candidate: `pop`, `expectancy`, the return on margin and the deltas; so are the days to expiry
-- and the rationale. The stop is the default plan's, two credits but at most the loss.
pub mod Condor
pub mod Risk
use ln_trading_app.Prelude.{
  Bool, List, Option, [], false, if◌then◌else◌, leb, ltb, none, not, some, true, ℕ, ◌&&◌, ◌*◌, ◌++◌,
  ◌+◌, ◌-◌, ◌/◌, ◌==◌, ◌||◌, ◌∷◌,
}
use ln_trading_app.Broker.Worker.Ltp.{put}
use ln_trading_app.Prelude.Round.{distance, maximum, minimum}

pub data Action : Type 0 where
  sell_leg buy_leg : Action

-- CE and PE
pub data OptionType : Type 0 where
  call_option put_option : OptionType

pub record OptionLeg : Type 0 where
  pub leg_action : Action
  pub option_type : OptionType
  pub strike : ℕ
  pub premium : ℕ

pub data SpreadKind : Type 0 where
  bull_put_spread bear_call_spread iron_condor_spread : SpreadKind

-- Half of the credit, and the stop
pub record ExitPlan : Type 0 where
  pub take_profit_credit : ℕ
  pub stop_loss_amount : ℕ

pub record SpreadCandidate : Type 0 where
  pub structure : SpreadKind
  pub legs : List OptionLeg
  pub net_credit : ℕ
  pub max_profit : ℕ
  pub max_loss : ℕ
  pub width : ℕ
  pub breakevens : List ℕ
  pub margin_est : ℕ
  pub exit_plan : ExitPlan

unfoldable pub make_candidate : SpreadKind → List OptionLeg → ℕ → ℕ → ℕ → List ℕ → SpreadCandidate
make_candidate kind legs credit loss width breakevens = record {
  structure = kind;
  legs = legs;
  net_credit = credit;
  max_profit = credit;
  max_loss = loss;
  width = width;
  breakevens = breakevens;
  margin_est = loss;
  exit_plan = record {
    take_profit_credit = credit / 2;
    stop_loss_amount = minimum (credit * 2) loss;
  };
}

abbrev pub breakevens_of : SpreadKind → ℕ → ℕ → List ℕ
breakevens_of bull_put_spread strike credit = (strike - credit) ∷ []
breakevens_of _ strike credit = (strike + credit) ∷ []

-- A credit that is not positive, and one of at least the width, give no candidate.
unfoldable pub vertical : SpreadKind → OptionLeg → OptionLeg → Option SpreadCandidate
unfolding make_candidate
vertical kind short_leg long_leg =
    let credit = short_leg.premium - long_leg.premium in
    let width = distance short_leg.strike long_leg.strike in
    if (credit == 0) || ((width == 0) || leb width credit)
    then none
    else some (
        make_candidate kind (short_leg ∷ long_leg ∷ []) credit (width - credit) width
          (breakevens_of kind short_leg.strike credit))

abbrev pub is_put : OptionType → Bool
is_put put_option = true
is_put call_option = false

unfoldable pub bull_put : OptionLeg → OptionLeg → Option SpreadCandidate
unfolding vertical
bull_put short_leg long_leg =
    if is_put short_leg.option_type
      && (is_put long_leg.option_type && ltb long_leg.strike short_leg.strike)
    then vertical bull_put_spread short_leg long_leg
    else none

unfoldable pub bear_call : OptionLeg → OptionLeg → Option SpreadCandidate
unfolding vertical
bear_call short_leg long_leg =
    if not (is_put short_leg.option_type)
      && (not (is_put long_leg.option_type) && ltb short_leg.strike long_leg.strike)
    then vertical bear_call_spread short_leg long_leg
    else none

-- The strike of the first leg that is sold; a candidate without one raises in the source, and is
-- never built.
abbrev pub short_strike : List OptionLeg → Option ℕ
short_strike [] = none
short_strike (leg ∷ legs) = elim leg.leg_action [
  | sell_leg ↦ some leg.strike
  | buy_leg ↦ short_strike legs
]

abbrev pub is_pair : SpreadKind → SpreadKind → Bool
is_pair bull_put_spread bear_call_spread = true
is_pair _ _ = false

-- The wings are combined unless the shorts overlap or there is no loss left to define.
unfoldable pub iron_condor : SpreadCandidate → SpreadCandidate → Option SpreadCandidate
unfolding make_candidate
iron_condor put call =
    let credit = put.net_credit + call.net_credit in
    let widest = maximum put.width call.width in
    elim (short_strike put.legs) [
      | none ↦ none
      | some put_short ↦ elim (short_strike call.legs) [
        | none ↦ none
        | some call_short ↦
            if is_pair put.structure call.structure
              && (ltb put_short call_short && ltb credit widest)
            then some (
                make_candidate iron_condor_spread (put.legs ++ call.legs) credit (widest - credit)
                  widest ((put_short - credit) ∷ (call_short + credit) ∷ []))
            else none
      ]
    ]

-- The floor on the reward, a fraction of the width; the floor on the probability of profit is left
-- out.
unfoldable pub meets_reward_floor : ℕ → ℕ → SpreadCandidate → Bool
meets_reward_floor num den c = leb (num * c.width) (c.net_credit * den)
