-- ===== src/Broker/Book.antt =====
-- The rows that the paper broker reads and writes (backend/app/models/trading.py,
-- backend/app/models/signal.py, backend/app/models/user.py, backend/app/models/journal.py), and the
-- prices of one moment. Every row here is a paper one (`mode == "paper"`), a row is known by a
-- number, and of an order's payload the model keeps the fill, the reason and the chase flag.
use ln_trading_app.Prelude.{Bool, List, Option, false, none, some, suc, true, zero, ℕ, ◌&&◌, ◌==◌}
use ln_trading_app.Broker.Depth.{Depth}
use ln_trading_app.Broker.Fill.{FillModel, FillSettings}
use ln_trading_app.Money.{Classification, OrderSide, Side, long, short}
use ln_trading_app.Prelude.Int.{ℤ}
use ln_trading_app.Trading.Fees.{FeeSchedule}
use ln_trading_app.Trading.TrailSl.{TrailState}

-- `exit_reason`
pub data Reason : Type 0 where
  sl_hit tp_hit manual : Reason

pub record Position : Type 0 where
  pub position_id : ℕ
  pub user_id : ℕ
  pub stock_id : ℕ
  pub side : Side
  pub quantity : ℕ
  pub avg_entry_price : ℕ
  pub current_sl : Option ℕ
  pub current_tp : Option ℕ
  pub trail_state : TrailState
  pub unrealized_pnl : ℤ
  pub realized_pnl : ℤ
  pub charges : Option ℕ
  pub exit_price : Option ℕ
  pub exit_reason : Option Reason
  pub peak_price : Option ℕ
  pub peak_pnl : Option ℤ
  pub opened_at : ℕ
  pub closed_at : Option ℕ
  pub signal_id : Option ℕ

pub record Order : Type 0 where
  pub order_user : ℕ
  pub order_signal : Option ℕ
  pub order_stock : ℕ
  pub order_side : OrderSide
  pub filled_qty : ℕ
  pub placed_at : ℕ
  pub filled_price : ℕ
  pub fill_model : FillModel
  pub reason : Option Reason
  pub past_chase_ceiling : Bool

pub record Signal : Type 0 where
  pub id : ℕ
  pub signal_stock : ℕ
  pub classification : Classification
  pub entry_price : ℕ
  pub stop_loss : ℕ
  pub take_profit : ℕ

pub record User : Type 0 where
  pub id : ℕ
  pub capital_inr : ℕ
  pub risk_per_trade_pct : ℕ  -- in units of 0.01 percent
  pub allow_offmarket_entry : Bool
  pub profit_lock_enabled : Bool

-- An automatic journal entry
pub record JournalEntry : Type 0 where
  pub journal_position : ℕ
  pub trade_date : ℕ
  pub journal_exit_price : Option ℕ
  pub journal_pnl : ℤ

pub record Book : Type 0 where
  pub positions : List Position
  pub orders : List Order
  pub journal : List JournalEntry
  pub next_id : ℕ

-- What the price sources hold for a stock: the Redis LTP and top of book, and the last complete
-- one-minute and daily closes.
pub record Market : Type 0 where
  pub live_ltp : ℕ → Option ℕ
  pub live_depth : ℕ → Option Depth
  pub minute_close : ℕ → Option ℕ
  pub daily_close : ℕ → Option ℕ

pub record BrokerSettings : Type 0 where
  pub fills : FillSettings
  pub paper_costs_enabled : Bool
  pub schedule : FeeSchedule

abbrev pub is_open : Position → Bool
is_open p = elim p.closed_at [ none ↦ true | some t ↦ false ]

abbrev pub same_side : Side → Side → Bool
same_side long long = true
same_side short short = true
same_side long short = false
same_side short long = false

-- The filter of the query for a repeat entry
abbrev pub open_for : ℕ → ℕ → Side → Position → Bool
open_for user stock side p =
    p.user_id == user && (p.stock_id == stock && (same_side p.side side && is_open p))

-- `get_current_price`
unfoldable pub get_current_price : Market → ℕ → Option ℕ
get_current_price m stock = elim (m.live_ltp stock) [
  | some price ↦ some price
  | none ↦ elim (m.minute_close stock) [ some price ↦ some price | none ↦ m.daily_close stock ]
]

-- `a or b` of an optional amount: zero is falsy.
abbrev pub or_truthy : Option ℕ → Option ℕ → Option ℕ
or_truthy none b = b
or_truthy (some zero) b = b
or_truthy (some (suc a)) b = some (suc a)
