-- ===== src/Trading/ProfitLock/Absolute.antt =====
-- The rupee ladder of the live paper path.
use ln_trading_app.Prelude.{
  Option, [], arith, if◌then◌else◌, true, ℕ, ◌*◌, ◌++◌, ◌+◌, ◌<◌, ◌∷◌, ◌≡◌, ◌≤◌,
}
use ln_trading_app.Money.{Side, long, short}
use ln_trading_app.Trading.ProfitLock.{
  AbsoluteLadderParams, absolute_ladder_stop, behind, giveback_price, profit_at_least, tighter,
  tightest,
}
use ln_trading_app.Trading.TrailSl.{NoLooser}

-- The tightest of the ladder's floors at a peak, the stop in force left out.
abbrev floor_at : Side → ℕ → ℕ → ℕ → Option ℕ → AbsoluteLadderParams → ℕ → ℕ
floor_at side entry original_sl quantity atr params peak = tightest side original_sl (
    (if profit_at_least side entry peak quantity params.breakeven_inr then entry ∷ [] else [])
    ++ (if profit_at_least side entry peak quantity params.trail_start_inr
        then behind side peak (giveback_price params atr quantity) ∷ []
        else []))

profit_orders : (a b x q : ℕ) → 0 < q → a * q + x ≤ b * q → a ≤ b
profit_orders a b x q h k = grind arith

profit_mono : (a b x y q : ℕ) → x ≤ y → a * q + b ≤ x * q → a * q + b ≤ y * q
profit_mono a b x y q h k = grind arith

loss_mono : (a b x y q : ℕ) → y ≤ x → x * q + b ≤ a * q → y * q + b ≤ a * q
loss_mono a b x y q h k = grind arith

stop-floor :
    (side : Side) (entry original_sl peak quantity : ℕ) (atr : Option ℕ)
    (params : AbsoluteLadderParams) (current : ℕ)
    → 0 < quantity
    → absolute_ladder_stop side entry original_sl peak quantity atr params current
      ≡ tighter side current (floor_at side entry original_sl quantity atr params peak)
unfolding absolute_ladder_stop
stop-floor long entry original_sl peak quantity atr params current h = ground arith
stop-floor short entry original_sl peak quantity atr params current h = ground arith

floor_at_mono :
    (side : Side) (entry original_sl peak peak' quantity : ℕ) (atr : Option ℕ)
    (params : AbsoluteLadderParams)
    → 0 < quantity
    → NoLooser side peak' peak
    → NoLooser side
        (floor_at side entry original_sl quantity atr params peak')
        (floor_at side entry original_sl quantity atr params peak)
floor_at_mono long entry original_sl peak peak' quantity atr params q h = ground (
  arith,
  profit_mono entry params.breakeven_inr peak peak' quantity h,
  profit_mono entry params.trail_start_inr peak peak' quantity h,
)
floor_at_mono short entry original_sl peak peak' quantity atr params q h = ground (
  arith,
  loss_mono entry params.breakeven_inr peak peak' quantity h,
  loss_mono entry params.trail_start_inr peak peak' quantity h,
)

tighter-absorbs :
    (side : Side) (c f f' : ℕ)
    → NoLooser side f' f
    → tighter side (tighter side c f) f' ≡ tighter side c f'
tighter-absorbs long c f f' h = ground arith
tighter-absorbs short c f f' h = ground arith

-- For a position of some size the stop is at least as tight as the one in force and the initial
-- one; from `breakeven_inr` of peak profit on it is at the entry or better; and from
-- `trail_start_inr` on it is at most the giveback behind the peak.
pub absolute_ladder_stop_floors :
    (side : Side) (entry original_sl peak quantity : ℕ) (atr : Option ℕ)
    (params : AbsoluteLadderParams) (current : ℕ)
    → 0 < quantity
    → let stop = absolute_ladder_stop side entry original_sl peak quantity atr params current in
      NoLooser side stop current
      × NoLooser side stop original_sl
      × (profit_at_least side entry peak quantity params.breakeven_inr ≡ true
          → NoLooser side stop entry)
      × (profit_at_least side entry peak quantity params.trail_start_inr ≡ true
          → NoLooser side stop (behind side peak (giveback_price params atr quantity)))
unfolding absolute_ladder_stop
absolute_ladder_stop_floors long entry original_sl peak quantity atr params current h = ground arith
absolute_ladder_stop_floors short entry original_sl peak quantity atr params current h =
    ground arith

-- The stop never passes the peak, if neither the stop in force nor the initial one did.
pub absolute_ladder_stop_behind_peak :
    (side : Side) (entry original_sl peak quantity : ℕ) (atr : Option ℕ)
    (params : AbsoluteLadderParams) (current : ℕ)
    → NoLooser side peak current
    → NoLooser side peak original_sl
    → NoLooser side peak
        (absolute_ladder_stop side entry original_sl peak quantity atr params current)
unfolding absolute_ladder_stop
absolute_ladder_stop_behind_peak long entry original_sl peak quantity atr params current h k =
    ground (arith, profit_orders entry peak params.breakeven_inr quantity)
absolute_ladder_stop_behind_peak short entry original_sl peak quantity atr params current h k =
    ground (arith, profit_orders peak entry params.breakeven_inr quantity)

-- For a position of some size a beat at a peak no worse makes the earlier beat irrelevant: the stop depends on the best peak
-- alone, not on the path to it.
pub absolute_ladder_stop_absorbs :
    (side : Side) (entry original_sl peak peak' quantity : ℕ) (atr : Option ℕ)
    (params : AbsoluteLadderParams) (current : ℕ)
    → 0 < quantity
    → NoLooser side peak' peak
    → absolute_ladder_stop side entry original_sl peak' quantity atr params
        (absolute_ladder_stop side entry original_sl peak quantity atr params current)
      ≡ absolute_ladder_stop side entry original_sl peak' quantity atr params current
absolute_ladder_stop_absorbs side entry original_sl peak peak' quantity atr params current q h =
    rw (stop-floor _ _ _ peak _ _ _ current q) (
      rw (stop-floor _ _ _ peak' _ _ _ _ q, stop-floor _ _ _ peak' _ _ _ current q)
        (tighter-absorbs side current _ _
          (floor_at_mono side entry original_sl peak peak' quantity atr params q h)))
