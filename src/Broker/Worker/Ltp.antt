-- ===== src/Broker/Worker/Ltp.antt =====
-- The latest prices in redis (_publish_ltp of backend/app/broker/live_worker.py). Times are seconds
-- of the monotonic clock, a price is the number behind its text, and a key remembers when it was
-- set. What a command that failed leaves of the keys is a parameter.
pub mod Publish
pub mod Mirror
use ln_trading_app.Prelude.{
  Bool, List, Option, [], false, if◌then◌else◌, leb, none, not, some, true, ℕ, ◌++◌, ◌-◌, ◌==◌,
  ◌||◌, ◌∷◌,
}
use ln_trading_app.Broker.Depth.{Depth}

-- A tick of the batch
pub record FfiTick : Type 0 where
  pub tick_stock : ℕ
  pub tick_ts : ℕ
  pub tick_price : ℕ

-- A price and when it was set
abbrev pub Quote : Type 0
Quote = ℕ × ℕ

-- A dictionary by stock
abbrev pub Prices : Type 0
Prices = ℕ → Option Quote

abbrev pub no_prices : Prices
no_prices stock = none

abbrev pub put : ℕ → Quote → Prices → Prices
put stock quote prices other_stock = if other_stock == stock then some quote else prices other_stock

abbrev pub or_cached : Option Quote → Option Quote → Option Quote
or_cached none cached = cached
or_cached (some quote) cached = some quote

-- `cache.update(pending)`
abbrev pub updated : Prices → Prices → Prices
updated pending cache stock = or_cached (pending stock) (cache stock)

-- The commands of the pipeline
pub data Command : Type 0 where
  set_ltp : ℕ → ℕ → Command
  publish : ℕ → FfiTick → Command
  set_depth : ℕ → ℕ → Depth → ℕ → Command

abbrev pub reset_s : ℕ
reset_s = 10

unfoldable pub needs_set : ℕ → ℕ → Option Quote → Bool
needs_set now price none = true
needs_set now price (some (last, at)) = not (last == price) || leb reset_s (now - at)

-- `watched` is `none` when everything is published.
unfoldable pub published : (ℕ → Option ℕ) → Option (ℕ → Bool) → FfiTick → List Command
published token_of watched tick = elim (token_of tick.tick_stock) [
  | none ↦ []
  | some token ↦ elim watched [
    | none ↦ publish token tick ∷ []
    | some channels ↦ if channels token then publish token tick ∷ [] else []
  ]
]

-- The loop over the batch: what is pending after it, and the commands.
unfoldable pub queue_ltp :
    (ℕ → Option ℕ) → Option (ℕ → Bool) → ℕ → Prices → Prices → List FfiTick → Prices × List Command
unfolding needs_set published
queue_ltp token_of watched now cache pending [] = (pending, [])
queue_ltp token_of watched now cache pending (tick ∷ batch) =
    let message = published token_of watched tick in
    let (set_pending, set_commands) =
      queue_ltp token_of watched now cache (put tick.tick_stock (tick.tick_price, now) pending)
        batch in
    let (kept_pending, kept_commands) = queue_ltp token_of watched now cache pending batch in
    if needs_set now tick.tick_price (updated pending cache tick.tick_stock)
    then (set_pending, set_ltp tick.tick_stock tick.tick_price ∷ message ++ set_commands)
    else (kept_pending, message ++ kept_commands)

-- The order books of the batch
unfoldable pub depth_commands : (ℕ → Option ℕ) → List (ℕ × (Depth × ℕ)) → List Command
depth_commands token_of [] = []
depth_commands token_of ((stock, (book, ts)) ∷ books) =
    let rest = depth_commands token_of books in
    elim (token_of stock) [ none ↦ rest | some token ↦ set_depth stock token book ts ∷ rest ]

-- What a pipeline that is executed leaves in the price keys
unfoldable pub execute : ℕ → List Command → Prices → Prices
execute now [] keys = keys
execute now (set_ltp stock price ∷ commands) keys =
    execute now commands (put stock (price, now) keys)
execute now (publish token tick ∷ commands) keys = execute now commands keys
execute now (set_depth stock token book ts ∷ commands) keys = execute now commands keys

pub record LtpState : Type 0 where
  pub ltp_cache : Prices
  pub pending_depth : List (ℕ × (Depth × ℕ))
  pub ltp_keys : Prices

abbrev pub is_empty : List Command → Bool
is_empty [] = true
is_empty (c ∷ commands) = false

-- The new state, and whether the call returned; `failed` is `none` when the pipeline works, or what
-- the keys are after it has raised.
unfoldable pub publish_ltp :
    (ℕ → Option ℕ)
    → Option (ℕ → Bool)
    → ℕ
    → Option Prices
    → List FfiTick
    → LtpState
    → LtpState × Bool
unfolding queue_ltp depth_commands execute
publish_ltp token_of watched now failed batch s =
    let (pending, prices) = queue_ltp token_of watched now s.ltp_cache no_prices batch in
    let commands = prices ++ depth_commands token_of s.pending_depth in
    let drained = record s { pending_depth = [] } in
    if is_empty commands then (drained, true) else elim failed [
      | some left ↦ (record drained { ltp_cache = no_prices; ltp_keys = left }, false)
      | none ↦ (
        record drained {
          ltp_cache = updated pending s.ltp_cache;
          ltp_keys = execute now commands s.ltp_keys;
        },
        true,
      )
    ]
