-- ===== src/Backtest/Engine/Honest.antt =====
-- What a simulated trade may use and what its exits are worth.
use ln_trading_app.Prelude.{
  All, Bool, List, Option, Option-cases, [], ap, arith, drop, false, get_elem?, inl, inr, refl,
  some, suc, sym, true, zero, ℕ, ◌++◌, ◌+◌, ◌<◌, ◌||◌, ◌∙◌, ◌∷◌, ◌≡◌, ◌≢◌, ◌≤◌,
}
use ln_trading_app.Backtest.Engine.{
  OhlcBar, TradeExit, TradeRecord, at_last_close, check_bar, or_exit, simulate_trade, trade_from,
  walk_bars,
}
use ln_trading_app.Money.{OrderSide, buy, sell}

-- A bar with its open and close inside its range
abbrev pub IsBar : OhlcBar → Type 0
IsBar c =
    (c.low ≤ c.open_price)
    × ((c.open_price ≤ c.high) × ((c.low ≤ c.close_price) × (c.close_price ≤ c.high)))

-- The levels around the price of a fill
abbrev pub LevelsAround : OrderSide → ℕ → ℕ → ℕ → Type 0
LevelsAround buy stop_loss entry take_profit = (stop_loss < entry) × (entry < take_profit)
LevelsAround sell stop_loss entry take_profit = (take_profit < entry) × (entry < stop_loss)

-- A bar of the history traded at the exit, a hit of the stop is no better than the stop, and a hit
-- of the target no worse than the target.
abbrev pub Fair : OrderSide → ℕ → ℕ → OhlcBar → TradeExit → Type 0
Fair buy stop_loss take_profit c e =
    (c.low ≤ e.exit_at)
    × ((e.exit_at ≤ c.high)
        × ((e.hit_sl ≡ true → e.exit_at ≤ stop_loss)
            × (e.hit_target ≡ true → take_profit ≤ e.exit_at)))
Fair sell stop_loss take_profit c e =
    (c.low ≤ e.exit_at)
    × ((e.exit_at ≤ c.high)
        × ((e.hit_sl ≡ true → stop_loss ≤ e.exit_at)
            × (e.hit_target ≡ true → e.exit_at ≤ take_profit)))

check_bar-Fair :
    (direction : OrderSide) (stop_loss take_profit : ℕ) (is_fill : Bool) (i : ℕ) (c : OhlcBar)
    {e : TradeExit}
    → IsBar c
    → (is_fill ≡ true → LevelsAround direction stop_loss c.open_price take_profit)
    → check_bar direction stop_loss take_profit is_fill i c ≡ some e
    → Fair direction stop_loss take_profit c e × (e.exit_bar ≡ i)
unfolding check_bar
check_bar-Fair buy stop_loss take_profit true i c bar around h =
    let levels = around refl in ground arith
check_bar-Fair buy stop_loss take_profit false i c bar around h = ground arith
check_bar-Fair sell stop_loss take_profit true i c bar around h =
    let levels = around refl in ground arith
check_bar-Fair sell stop_loss take_profit false i c bar around h = ground arith

-- A trade that ended on some bars ends the same whatever bars come after them.
walk_bars-append :
    (direction : OrderSide) (stop_loss take_profit : ℕ) (is_fill : Bool) (i : ℕ)
    (bars more : List OhlcBar) {e : TradeExit}
    → walk_bars direction stop_loss take_profit is_fill i bars ≡ some e
    → walk_bars direction stop_loss take_profit is_fill i (bars ++ more) ≡ some e
unfolding walk_bars
walk_bars-append direction stop_loss take_profit is_fill i [] more h = cc
walk_bars-append direction stop_loss take_profit is_fill i (c ∷ bars) more h =
    elim (Option-cases (check_bar direction stop_loss take_profit is_fill i c)) [
      | inl passed ↦
          rw (walk_bars, passed)
            (walk_bars-append direction stop_loss take_profit false (i + 1) bars more
              (rw (walk_bars, passed) at h))
      | inr (x, ended) ↦ rw (walk_bars, ended) (rw (walk_bars, ended) at h)
    ]

-- The exit is on one of the bars, and fair there.
abbrev pub FairOn : OrderSide → ℕ → ℕ → ℕ → List OhlcBar → TradeExit → Type 0
FairOn direction stop_loss take_profit i bars e =
    (k : ℕ) × ((c : OhlcBar) × ((e.exit_bar ≡ i + k)
        × ((get_elem? bars k ≡ some c) × Fair direction stop_loss take_profit c e)))

FairOn-later :
    (direction : OrderSide) (stop_loss take_profit i : ℕ) (c : OhlcBar) (bars : List OhlcBar)
    (e : TradeExit)
    → FairOn direction stop_loss take_profit (i + 1) bars e
    → FairOn direction stop_loss take_profit i (c ∷ bars) e
FairOn-later direction stop_loss take_profit i c bars e (k, (d, (at, (there, fair)))) =
    (suc k, (d, (omega arith, (there, fair))))

-- The levels are around the open of the first bar.
abbrev pub AroundOpen : OrderSide → ℕ → ℕ → List OhlcBar → Type 0
AroundOpen direction stop_loss take_profit [] = Unit
AroundOpen direction stop_loss take_profit (c ∷ bars) =
    LevelsAround direction stop_loss c.open_price take_profit

walk_bars-FairOn :
    (direction : OrderSide) (stop_loss take_profit : ℕ) (is_fill : Bool) (i : ℕ)
    (bars : List OhlcBar) {e : TradeExit}
    → All IsBar bars
    → (is_fill ≡ true → AroundOpen direction stop_loss take_profit bars)
    → walk_bars direction stop_loss take_profit is_fill i bars ≡ some e
    → FairOn direction stop_loss take_profit i bars e
unfolding walk_bars
walk_bars-FairOn direction stop_loss take_profit is_fill i [] all around h = cc
walk_bars-FairOn direction stop_loss take_profit is_fill i (c ∷ bars) {e} (this, rest) around h =
    elim (Option-cases (check_bar direction stop_loss take_profit is_fill i c)) [
      | inl passed ↦ FairOn-later direction stop_loss take_profit i c bars e (
          walk_bars-FairOn direction stop_loss take_profit false (i + 1) bars rest
            (λ f. absurd (false_not_true f)) (rw (walk_bars, passed) at h))
      | inr (x, ended) ↦
          let (fair, here) =
            check_bar-Fair direction stop_loss take_profit is_fill i c this around
              (ended ∙ (rw (walk_bars, ended) at h)) in
          (0, (c, (omega arith, (refl, fair))))
    ]
  where
    false_not_true : false ≢ true
    false_not_true f = cc

at_last_close-FairOn :
    (direction : OrderSide) (stop_loss take_profit i : ℕ) (c : OhlcBar) (bars : List OhlcBar)
    → All IsBar (c ∷ bars)
    → FairOn direction stop_loss take_profit i (c ∷ bars) (at_last_close i c bars)
at_last_close-FairOn buy stop_loss take_profit i c [] (this, rest) =
    (0, (c, (omega arith, (refl, ground arith))))
at_last_close-FairOn sell stop_loss take_profit i c [] (this, rest) =
    (0, (c, (omega arith, (refl, ground arith))))
at_last_close-FairOn direction stop_loss take_profit i c (d ∷ bars) (this, rest) =
    FairOn-later direction stop_loss take_profit i c (d ∷ bars) _
      (at_last_close-FairOn direction stop_loss take_profit (i + 1) d bars rest)

shift : (n k : ℕ) → suc (n + k) ≡ suc n + k
shift n k = omega arith

record_inj : {a b : TradeRecord} → some a ≡ some b → a ≡ b
record_inj h = ground arith

get_elem?-drop :
    {A : Type 0} (n k : ℕ) (xs : List A) → get_elem? (drop n xs) k ≡ get_elem? xs (n + k)
get_elem?-drop zero k xs = ap (get_elem? xs) (omega arith)
get_elem?-drop (suc n) k [] = refl
get_elem?-drop (suc n) k (x ∷ xs) = get_elem?-drop n k xs ∙ ap (get_elem? (x ∷ xs)) (shift n k)

All-drop : (P : OhlcBar → Type 0) (n : ℕ) (bars : List OhlcBar) → All P bars → All P (drop n bars)
All-drop P zero bars all = all
All-drop P (suc n) [] all = all
All-drop P (suc n) (c ∷ bars) (this, rest) = All-drop P n bars rest

trade_from-FairOn :
    (direction : OrderSide) (stop_loss take_profit i : ℕ) (bars : List OhlcBar) {r : TradeRecord}
    → All IsBar bars
    → AroundOpen direction stop_loss take_profit bars
    → trade_from direction stop_loss take_profit i bars ≡ some r
    → FairOn direction stop_loss take_profit i bars r.trade_exit
unfolding trade_from
trade_from-FairOn direction stop_loss take_profit i [] all around h = cc
trade_from-FairOn direction stop_loss take_profit i (c ∷ bars) {r} all around h =
    elim (Option-cases (walk_bars direction stop_loss take_profit true i (c ∷ bars))) [
      | inl ran_out ↦
          rw (exit_is ran_out) (at_last_close-FairOn direction stop_loss take_profit i c bars all)
      | inr (e, ended) ↦ rw (exit_is ended) (
          walk_bars-FairOn direction stop_loss take_profit true i (c ∷ bars) all (λ first. around)
            ended)
    ]
  where
    exit_is :
        {found : Option TradeExit}
        → walk_bars direction stop_loss take_profit true i (c ∷ bars) ≡ found
        → r.trade_exit ≡ or_exit found (at_last_close i c bars)
    exit_is same =
        sym (ap (λ (t : TradeRecord). t.trade_exit) (record_inj h))
        ∙ ap (λ (o : Option TradeExit). or_exit o (at_last_close i c bars)) same

-- If every bar has its open and close inside its range and the levels are around the open of the bar
-- after the signal, a simulated trade ends on a bar of the history from that one on, at a price
-- inside the bar's range; a stop is booked at the stop or worse, a target at the target or better.
pub simulate_trade-Fair :
    (direction : OrderSide) (stop_loss take_profit signal_candle_idx : ℕ) (candles : List OhlcBar)
    (r : TradeRecord)
    → All IsBar candles
    → AroundOpen direction stop_loss take_profit (drop (signal_candle_idx + 1) candles)
    → simulate_trade direction stop_loss take_profit signal_candle_idx candles ≡ some r
    → (signal_candle_idx < r.trade_exit.exit_bar)
      × ((c : OhlcBar) × ((get_elem? candles r.trade_exit.exit_bar ≡ some c)
            × Fair direction stop_loss take_profit c r.trade_exit))
unfolding simulate_trade
simulate_trade-Fair direction stop_loss take_profit idx candles r all around h =
    let (k, (c, (at, (there, fair)))) =
      trade_from-FairOn direction stop_loss take_profit (idx + 1) (drop (idx + 1) candles)
        (All-drop IsBar (idx + 1) candles all) around h in
    (omega arith, (c, (rw at (sym (get_elem?-drop (idx + 1) k candles) ∙ there), fair)))

drop-append :
    {A : Type 0} (n : ℕ) (xs more : List A) {x : A} {rest : List A}
    → drop n xs ≡ x ∷ rest
    → drop n (xs ++ more) ≡ x ∷ (rest ++ more)
drop-append zero xs more h = rw h refl
drop-append (suc n) [] more h = cc
drop-append (suc n) (y ∷ xs) more h = drop-append n xs more h

last-no_hit :
    (i : ℕ) (c : OhlcBar) (bars : List OhlcBar)
    → ((at_last_close i c bars).hit_sl ≡ false) × ((at_last_close i c bars).hit_target ≡ false)
last-no_hit i c [] = (refl, refl)
last-no_hit i c (d ∷ bars) = last-no_hit (i + 1) d bars

quiet_exit :
    (e e' : TradeExit)
    → e ≡ e'
    → e.hit_sl ≡ false
    → e.hit_target ≡ false
    → (e'.hit_sl || e'.hit_target) ≡ true
    → ⊥
quiet_exit e e' same a b hit =
    let a' : e'.hit_sl ≡ false = sym (ap (λ (x : TradeExit). x.hit_sl) same) ∙ a in
    let b' : e'.hit_target ≡ false = sym (ap (λ (x : TradeExit). x.hit_target) same) ∙ b in
    ground arith

trade_from-append :
    (direction : OrderSide) (stop_loss take_profit i : ℕ) (bars more : List OhlcBar)
    {r : TradeRecord}
    → (r.trade_exit.hit_sl || r.trade_exit.hit_target) ≡ true
    → trade_from direction stop_loss take_profit i bars ≡ some r
    → trade_from direction stop_loss take_profit i (bars ++ more) ≡ some r
unfolding trade_from
trade_from-append direction stop_loss take_profit i [] more hit h = cc
trade_from-append direction stop_loss take_profit i (c ∷ bars) more {r} hit h =
    elim (Option-cases (walk_bars direction stop_loss take_profit true i (c ∷ bars))) [
      | inl ran_out ↦
          let same =
            ap (λ (t : TradeRecord). t.trade_exit) (record_inj (rw (trade_from, ran_out) at h)) in
          let (no_stop, no_target) = last-no_hit i c bars in
          absurd (quiet_exit _ r.trade_exit same no_stop no_target hit)
      | inr (e, ended) ↦
          rw
            (
              trade_from,
              walk_bars-append direction stop_loss take_profit true i (c ∷ bars) more ended,
            )
            (rw (trade_from, ended) at h)
    ]

trade_from_on :
    (direction : OrderSide) (stop_loss take_profit i : ℕ) (bars : List OhlcBar) {r : TradeRecord}
    → trade_from direction stop_loss take_profit i bars ≡ some r
    → (c : OhlcBar) × ((rest : List OhlcBar) × (bars ≡ c ∷ rest))
unfolding trade_from
trade_from_on direction stop_loss take_profit i [] h = cc
trade_from_on direction stop_loss take_profit i (c ∷ rest) h = (c, (rest, refl))

-- A simulated trade that hit its stop or its target is the same on every longer history: no bar
-- after the exit is looked at.
pub simulate_trade-append :
    (direction : OrderSide) (stop_loss take_profit signal_candle_idx : ℕ)
    (candles more : List OhlcBar) (r : TradeRecord)
    → (r.trade_exit.hit_sl || r.trade_exit.hit_target) ≡ true
    → simulate_trade direction stop_loss take_profit signal_candle_idx candles ≡ some r
    → simulate_trade direction stop_loss take_profit signal_candle_idx (candles ++ more) ≡ some r
unfolding simulate_trade
simulate_trade-append direction stop_loss take_profit idx candles more r hit h =
    let (c, (rest, bars)) =
      trade_from_on direction stop_loss take_profit (idx + 1) (drop (idx + 1) candles) h in
    rw (simulate_trade, drop-append (idx + 1) candles more bars)
      (trade_from-append direction stop_loss take_profit (idx + 1) (c ∷ rest) more hit
        (rw bars at h))
