-- ===== src/Trading/TrailSl/Ladder.antt =====
-- What one beat of the trailing ladder does to the stop and the state.
use ln_trading_app.Prelude.{List, [], arith, false, true, ℕ, ◌<◌, ◌∷◌, ◌≡◌}
use ln_trading_app.Money.{Side, long, short}
use ln_trading_app.Trading.TrailSl.{
  NoLooser, TrailState, advance_trail, index, is_sl_hit, known, trailing_2,
}

-- The stop only ever moves in the position's favour.
pub advance_trail-NoLooser :
    (side : Side) (entry original_sl current_sl price : ℕ) (state : TrailState)
    → NoLooser side (advance_trail side entry original_sl current_sl price state).new_sl current_sl
unfolding advance_trail
advance_trail-NoLooser long entry original_sl current_sl price state = ground arith
advance_trail-NoLooser short entry original_sl current_sl price state = ground arith

-- The state advances exactly when the flag says so, and never goes back.
pub advance_trail_monotone :
    (side : Side) (entry original_sl current_sl price : ℕ) (state : TrailState)
    → let r = advance_trail side entry original_sl current_sl price state in
      (r.advanced ≡ true → index state < index r.new_state)
      × (r.advanced ≡ false → (r.new_sl ≡ current_sl) × (r.new_state ≡ known state))
unfolding advance_trail
advance_trail_monotone side entry original_sl current_sl price state = ground arith

-- A beat that advances locks the entry price or better.
pub advance_trail_locks :
    (side : Side) (entry original_sl current_sl price : ℕ) (state : TrailState)
    → (advance_trail side entry original_sl current_sl price state).advanced ≡ true
    → NoLooser side (advance_trail side entry original_sl current_sl price state).new_sl entry
unfolding advance_trail
advance_trail_locks long entry original_sl current_sl price state h = ground arith
advance_trail_locks short entry original_sl current_sl price state h = ground arith

-- A stop that the price has not reached is still out of its reach after the beat.
pub advance_trail_not_hit :
    (side : Side) (entry original_sl current_sl price : ℕ) (state : TrailState)
    → is_sl_hit side price current_sl ≡ false
    → is_sl_hit side price (advance_trail side entry original_sl current_sl price state).new_sl
      ≡ false
unfolding advance_trail is_sl_hit
advance_trail_not_hit long entry original_sl current_sl price state h = ground arith
advance_trail_not_hit short entry original_sl current_sl price state h = ground arith

-- The stop and the state after the beats at these prices, in order
abbrev pub run_trail : Side → ℕ → ℕ → List ℕ → ℕ → TrailState → ℕ × TrailState
run_trail side entry original_sl [] current_sl state = (current_sl, state)
run_trail side entry original_sl (price ∷ prices) current_sl state =
    let r = advance_trail side entry original_sl current_sl price state in
    run_trail side entry original_sl prices r.new_sl r.new_state

advance_trail_top :
    (side : Side) (entry original_sl current_sl price : ℕ)
    → let r = advance_trail side entry original_sl current_sl price trailing_2 in
      (r.new_sl ≡ current_sl) × (r.new_state ≡ trailing_2)
unfolding advance_trail
advance_trail_top side entry original_sl current_sl price = ground arith

-- Over any prices the stop ends no looser than it began.
pub run_trail-NoLooser :
    (side : Side) (entry original_sl : ℕ) (prices : List ℕ) (current_sl : ℕ) (state : TrailState)
    → NoLooser side (run_trail side entry original_sl prices current_sl state).0 current_sl
run_trail-NoLooser side entry original_sl [] current_sl state = same_stop side current_sl
  where
    same_stop : (side : Side) (a : ℕ) → NoLooser side a a
    same_stop long a = omega arith
    same_stop short a = omega arith
run_trail-NoLooser side entry original_sl (price ∷ prices) current_sl state =
    let r = advance_trail side entry original_sl current_sl price state in
    both side _ r.new_sl current_sl
      (run_trail-NoLooser side entry original_sl prices r.new_sl r.new_state)
      (advance_trail-NoLooser side entry original_sl current_sl price state)
  where
    both : (side : Side) (a b c : ℕ) → NoLooser side a b → NoLooser side b c → NoLooser side a c
    both long a b c h k = omega arith
    both short a b c h k = omega arith
