-- ===== src/Options/Spreads/Risk.antt =====
-- What a spread can make and lose at expiry, whatever the price then.
use mathlib.Core.Path.{subst}
use ln_trading_app.Prelude.{
  Bool, List, Option, [], arith, false, if◌then◌else◌, inl, inr, ltb, none, not, some, true, ℕ,
  ◌&&◌, ◌+◌, ◌-◌, ◌<◌, ◌∷◌, ◌≡◌, ◌≤◌, ◌⊎◌,
}
use ln_trading_app.Options.Spreads.{
  OptionLeg, SpreadCandidate, SpreadKind, bear_call, bear_call_spread, breakevens_of, bull_put,
  bull_put_spread, buy_leg, is_put, make_candidate, sell_leg, vertical,
}
use ln_trading_app.Prelude.Round.{distance}

-- What an option pays at a price of the underlying; subtraction stops at zero.
abbrev pub payoff : OptionLeg → ℕ → ℕ
payoff leg price = if is_put leg.option_type then leg.strike - price else price - leg.strike

-- What the holder of some legs has received and has paid once they have expired
unfoldable pub receipts : List OptionLeg → ℕ → ℕ
receipts [] price = 0
receipts (leg ∷ legs) price =
    elim leg.leg_action [ sell_leg ↦ leg.premium | buy_leg ↦ payoff leg price ]
    + receipts legs price

unfoldable pub payments : List OptionLeg → ℕ → ℕ
payments [] price = 0
payments (leg ∷ legs) price =
    elim leg.leg_action [ sell_leg ↦ payoff leg price | buy_leg ↦ leg.premium ]
    + payments legs price

-- At any price the loss is at most the maximal loss, and the profit at most the maximal profit.
abbrev pub IsDefined : SpreadCandidate → Type 0
IsDefined c =
    (price : ℕ)
    → (payments c.legs price ≤ receipts c.legs price + c.max_loss)
      × (receipts c.legs price ≤ payments c.legs price + c.max_profit)

pub distance_down : (a b : ℕ) → b < a → distance a b ≡ a - b
distance_down a b h = ground arith

pub distance_up : (a b : ℕ) → a < b → distance a b ≡ b - a
distance_up a b h = ground arith

-- The candidate that a pair of legs makes
abbrev pub vertical_of : SpreadKind → OptionLeg → OptionLeg → SpreadCandidate
vertical_of kind short_leg long_leg =
    make_candidate kind (short_leg ∷ long_leg ∷ []) (short_leg.premium - long_leg.premium)
      (distance short_leg.strike long_leg.strike - (short_leg.premium - long_leg.premium))
      (distance short_leg.strike long_leg.strike)
      (breakevens_of kind short_leg.strike (short_leg.premium - long_leg.premium))

abbrev pub Credits : OptionLeg → OptionLeg → Type 0
Credits short_leg long_leg =
    (long_leg.premium < short_leg.premium)
    × (short_leg.premium - long_leg.premium < distance short_leg.strike long_leg.strike)

vertical-success :
    (kind : SpreadKind) (short_leg long_leg : OptionLeg) (c : SpreadCandidate)
    → vertical kind short_leg long_leg ≡ some c
    → Credits short_leg long_leg × (vertical_of kind short_leg long_leg ≡ c)
unfolding vertical
vertical-success kind short_leg long_leg c h = ground arith

pub guarded :
    (test : Bool) (o : Option SpreadCandidate) (c : SpreadCandidate)
    → (if test then o else none) ≡ some c
    → (test ≡ true) × (o ≡ some c)
guarded test o c h = ground arith

all_three : (a b c : Bool) → (a && (b && c)) ≡ true → (a ≡ true) × ((b ≡ true) × (c ≡ true))
all_three a b c h = ground arith

pub below : (a b : ℕ) → ltb a b ≡ true → a < b
below a b h = ground arith

pub bull_put-success :
    (short_leg long_leg : OptionLeg) (c : SpreadCandidate)
    → bull_put short_leg long_leg ≡ some c
    → (is_put short_leg.option_type ≡ true)
      × ((is_put long_leg.option_type ≡ true)
          × ((long_leg.strike < short_leg.strike)
              × (Credits short_leg long_leg
                  × (vertical_of bull_put_spread short_leg long_leg ≡ c))))
unfolding bull_put
bull_put-success short_leg long_leg c h =
    let (test, made) = guarded _ (vertical bull_put_spread short_leg long_leg) c h in
    let (sp, (lp, strikes)) = all_three _ _ _ test in
    let (credits, same) = vertical-success bull_put_spread short_leg long_leg c made in
    (sp, (lp, (below _ _ strikes, (credits, same))))

pub bear_call-success :
    (short_leg long_leg : OptionLeg) (c : SpreadCandidate)
    → bear_call short_leg long_leg ≡ some c
    → (is_put short_leg.option_type ≡ false)
      × ((is_put long_leg.option_type ≡ false)
          × ((short_leg.strike < long_leg.strike)
              × (Credits short_leg long_leg
                  × (vertical_of bear_call_spread short_leg long_leg ≡ c))))
unfolding bear_call
bear_call-success short_leg long_leg c h =
    let (test, made) = guarded _ (vertical bear_call_spread short_leg long_leg) c h in
    let (sp, (lp, strikes)) = all_three _ _ _ test in
    let (credits, same) = vertical-success bear_call_spread short_leg long_leg c made in
    (negated _ sp, (negated _ lp, (below _ _ strikes, (credits, same))))
  where
    negated : (b : Bool) → not b ≡ true → b ≡ false
    negated b e = ground arith

put-IsDefined :
    (short_leg long_leg : OptionLeg)
    → short_leg.leg_action ≡ sell_leg
    → long_leg.leg_action ≡ buy_leg
    → is_put short_leg.option_type ≡ true
    → is_put long_leg.option_type ≡ true
    → long_leg.strike < short_leg.strike
    → Credits short_leg long_leg
    → IsDefined (vertical_of bull_put_spread short_leg long_leg)
unfolding make_candidate receipts payments
put-IsDefined short_leg long_leg selling buying sp lp strikes (credit, narrow) price =
    rw (selling, buying, sp, lp)
      (omega (arith, distance_down short_leg.strike long_leg.strike strikes))

call-IsDefined :
    (short_leg long_leg : OptionLeg)
    → short_leg.leg_action ≡ sell_leg
    → long_leg.leg_action ≡ buy_leg
    → is_put short_leg.option_type ≡ false
    → is_put long_leg.option_type ≡ false
    → short_leg.strike < long_leg.strike
    → Credits short_leg long_leg
    → IsDefined (vertical_of bear_call_spread short_leg long_leg)
unfolding make_candidate receipts payments
call-IsDefined short_leg long_leg selling buying sc lc strikes (credit, narrow) price =
    rw (selling, buying, sc, lc)
      (omega (arith, distance_up short_leg.strike long_leg.strike strikes))

-- A bull put of a leg that is sold and one that is bought makes at most its credit and loses at most
-- its maximal loss, at whatever price it expires; a bear call does the same.
pub verticals-IsDefined :
    (short_leg long_leg : OptionLeg) (c : SpreadCandidate)
    → short_leg.leg_action ≡ sell_leg
    → long_leg.leg_action ≡ buy_leg
    → (bull_put short_leg long_leg ≡ some c) ⊎ (bear_call short_leg long_leg ≡ some c)
    → IsDefined c
verticals-IsDefined short_leg long_leg c selling buying (inl made) =
    let (sp, (lp, (strikes, (credits, same)))) = bull_put-success short_leg long_leg c made in
    subst IsDefined same (put-IsDefined short_leg long_leg selling buying sp lp strikes credits)
verticals-IsDefined short_leg long_leg c selling buying (inr made) =
    let (sc, (lc, (strikes, (credits, same)))) = bear_call-success short_leg long_leg c made in
    subst IsDefined same (call-IsDefined short_leg long_leg selling buying sc lc strikes credits)
