-- ===== src/Broker/Depth.antt =====
-- The top of the order book (backend/app/broker/depth.py). A basis point is fixed-point with eight
-- places, like a ratio. Sizes are not negative, and a book that was written to the cache passed
-- `extract_top_of_book`, so its ask is no less than its bid.
use ln_trading_app.Prelude.{
  List, Option, [], arith, if◌then◌else◌, ltb, none, some, ℕ, ◌*◌, ◌+◌, ◌-◌, ◌<◌, ◌==◌, ◌||◌, ◌∷◌,
  ◌≡◌, ◌≤◌,
}
use ln_trading_app.Money.{rupee}
use ln_trading_app.Prelude.Int.{negsuc, pos, ℤ}
use ln_trading_app.Prelude.Round.{round_half_even, round_half_even_le}

pub record Depth : Type 0 where
  pub bid : ℕ
  pub ask : ℕ
  pub bid_qty : ℕ
  pub ask_qty : ℕ

-- `spread_bps`: the spread over the mid, `(bid + ask) / 2`, in basis points
unfoldable pub spread_bps : Depth → ℕ
spread_bps depth =
    if depth.bid + depth.ask == 0
    then 0
    else round_half_even ((depth.ask - depth.bid) * 2 * 10_000 * rupee) (depth.bid + depth.ask)

-- A level of a tick: not a mapping, or a price (absent or unreadable as `none`) and a quantity
pub data RawLevel : Type 0 where
  junk : RawLevel
  level : Option ℤ → ℕ → RawLevel

-- The `depth` of a tick: absent or no mapping, or two sides, each `none` if it is no list
pub data RawDepth : Type 0 where
  no_depth : RawDepth
  sides : Option (List RawLevel) → Option (List RawLevel) → RawDepth

-- `bid <= 0 or ask <= 0 or ask < bid`
abbrev book_of : ℤ → ℕ → ℤ → ℕ → Option Depth
book_of (pos bid) bid_qty (pos ask) ask_qty =
    if bid == 0 || (ask == 0 || ltb ask bid)
    then none
    else some (record { bid = bid; ask = ask; bid_qty = bid_qty; ask_qty = ask_qty })
book_of (pos bid) bid_qty (negsuc ask) ask_qty = none
book_of (negsuc bid) bid_qty ask ask_qty = none

abbrev tops_of : RawLevel → RawLevel → Option Depth
tops_of (level (some bid) bid_qty) (level (some ask) ask_qty) = book_of bid bid_qty ask ask_qty
tops_of (level (some bid) bid_qty) (level none ask_qty) = none
tops_of (level (some bid) bid_qty) junk = none
tops_of (level none bid_qty) other_top = none
tops_of junk other_top = none

unfoldable pub extract_top_of_book : RawDepth → Option Depth
extract_top_of_book (sides (some (top_buy ∷ buys)) (some (top_sell ∷ sells))) =
    tops_of top_buy top_sell
extract_top_of_book (sides (some (top_buy ∷ buys)) (some [])) = none
extract_top_of_book (sides (some (top_buy ∷ buys)) none) = none
extract_top_of_book (sides (some []) ask_side) = none
extract_top_of_book (sides none ask_side) = none
extract_top_of_book no_depth = none

-- A book that can be traded against: two-sided and not crossed.
pub record IsBook (depth : Depth) : Type 0 where
  pub bid_live : 0 < depth.bid
  pub ordered : depth.bid ≤ depth.ask

-- Whatever the tick carries, a book that comes out of it is two-sided and not crossed.
pub extract_top_of_book-IsBook :
    (raw : RawDepth) (depth : Depth) → extract_top_of_book raw ≡ some depth → IsBook depth
unfolding extract_top_of_book
extract_top_of_book-IsBook raw depth h = ground arith

-- Of a book that is two-sided and not crossed, the spread is at most 20,000 basis points.
pub spread_bps-le : (depth : Depth) → IsBook depth → spread_bps depth ≤ 20_000 * rupee
unfolding spread_bps
spread_bps-le depth b = ground (
  arith,
  round_half_even_le ((depth.ask - depth.bid) * 2 * 10_000 * rupee) (depth.bid + depth.ask)
      (20_000 * rupee),
)
