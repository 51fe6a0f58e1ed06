-- ===== src/Lib.antt =====
-- A model of the trading core of the paper-trading backend (Python, under backend/app), with the
-- theorems that make it correct.
--
-- A signal carries an entry, a stop and a target (analysis/risk.py, guarded by
-- signals/risk_guards.py). The paper broker (broker/paper_broker.py) prices a fill off the live top
-- of book (broker/depth.py), sizes the order from that fill so that the risk stays in the user's
-- budget, averages repeat entries into one position, and closes positions net of costs
-- (trading/fees.py). Once a minute the monitor (tasks/position_monitor.py) reads the live price of
-- every open position: it closes at the stop or the target, writes a journal entry, or moves the
-- stop by one of two governors (trading/trail_sl.py, trading/profit_lock.py). Ticks become candles
-- in broker/candle_aggregator.py; services/signal_outcomes.py records what became of each signal.
-- A user orders, closes and moves stops through the routes of api/v1/trading.py: an order passes the
-- circuit breaker and six eligibility overlays (signals/regime_guard.py and its siblings) before the
-- broker sees it. Behind the feed the live worker (broker/live_worker.py) hands ticks and committed
-- candles from thread to thread, publishes prices and writes candles; broker/outcome_recorder.py
-- reads the stream of touch alerts and writes the rows of services/signal_outcomes.py;
-- broker/live_levels.py keeps the levels that the engine watches in step with the active signals; and
-- broker/provisional.py chooses the stocks that a cycle scores. services/fo_suggestions.py builds
-- option spreads out of the legs of a chain, which services/fo_analytics.py describes.
--
-- Files, with the code that each models (paths under backend/app):
--   Prelude        shared names; Prelude/Int signed amounts, Prelude/Round the rounding modes of
--                  decimal with their laws, Prelude/Tests Boolean tests, Prelude/Lists lists
--   Money, Clock   amounts, sides and classes; instants, Indian dates and times
--   Trading/       TrailSl trading/trail_sl.py, ProfitLock trading/profit_lock.py, Fees
--                  trading/fees.py, CircuitBreaker trading/circuit_breaker.py, MarketHours
--                  trading/market_hours.py, Atr trading/atr.py, PositionHealth
--                  trading/position_health.py
--   Signals/       Levels analysis/risk.py, signals/risk_guards.py and backtest/tp_rules.py;
--                  Outcomes services/signal_outcomes.py; Calendar services/market_calendar.py and
--                  signals/expiry.py; Overlays signals/regime.py, regime_guard.py, circuit_guard.py,
--                  entry_quality.py, sector_rs.py, market_regime.py and liquidity_guard.py;
--                  Excursion services/excursion.py
--   Broker/        Depth broker/depth.py; Fill, Sizing and Paper broker/paper_broker.py over the
--                  rows of Book (models/); Monitor tasks/position_monitor.py and
--                  services/journal_service.py; Aggregator broker/candle_aggregator.py;
--                  OutcomeRecorder broker/outcome_recorder.py; Worker broker/live_worker.py;
--                  LiveLevels broker/live_levels.py; HotSet broker/provisional.py
--   Backtest/      Engine backtest/engine.py, the simulation of one trade
--   Options/       Spreads services/fo_suggestions.py, Chain services/fo_analytics.py
--   Api            Orders and Positions, the routes of api/v1/trading.py that change rows; Sessions
--                  runs them and scans one after another
-- The child modules of a component hold its proofs, and each Examples module runs it on concrete
-- inputs. A function keeps the name it has in the source, with the overlay's name where several files
-- declare it (`evaluate`, `order_block_reason`). Stateful code is a function from the rows
-- it reads to the rows it writes; an exception is an error value, `none` or a constructor, as the
-- file says. `place_paper_order` and `close_position` are single transactions; a history of scans is
-- a list of moments, each with its prices and its time; and Broker/Sessions and Api/Sessions put
-- orders, other requests and scans one after another, as step relations.
--
-- Concurrency. A step of these relations is a whole transaction, with no other beside it. The source
-- does not enforce that: it takes no lock, has no unique index on open positions and runs at the
-- default isolation of the database. Every statement on histories of requests is one on histories in
-- which transactions do not overlap. Two orders that do overlap can both find no open row and open two
-- (raced_rows in Api/Examples); the query for the open row then raises.
--
-- Choices and bounds. A Decimal is a whole number of units of 1e-8 rupee, and a quotient is rounded
-- half-even at that grid (the source keeps 28 significant digits) or kept exact where only a
-- comparison or a rounding down follows. Prices are not negative: a difference that the source
-- compares is compared as a sum, and one that it stores stops at zero where the file says so. In
-- particular a sell haircut of 10,000 basis points or more gives a price of zero, where the source's
-- turns negative. The rounding of a column when a row is stored is left out, and so is binary
-- floating point: basis points, R multiples and efficiency ratios are fixed-point. Instants are
-- microseconds with a zone. Rows are all of the paper mode. Loops over lists are structural
-- recursion. The loop over calendar days in Signals/Calendar runs on fuel: a step for each day of
-- the window of its holiday query and three for each trading day asked for, which is enough because
-- past the window only weekends stop it; the loop back to the trading day before a date has a step for
-- each of the thirty days of its query and three more, and the loop for the last trading days one more
-- than the first.
--
-- The recovery loop of the outcome recorder runs on fuel, one more than the batches of 200 that its
-- pending entries fill, and its tail loop for a number of rounds; the loop over the pages of the alert
-- stream runs on fuel, one more than its full pages of 500. What fails in between (the database on an
-- entry, redis on a pipeline, a thread that is dead) is a parameter of the definitions that meet it.
-- What other threads do to a queue during a call is a list of their turns.
--
-- Of the reads for the overlays, three are in savepoints, where a fault is caught, and the one of the
-- circuit band catches every exception itself; the one of the ATR is in neither, and its fault is
-- `uncaught`. A table of candles is looked up by the timeframe of the event, and a read of the
-- writer's queue is a burst, the sentinel or the RuntimeError of an executor that is shut down. The
-- state of the worker is the one that its main builds, which has a stop event.
--
-- A price is a natural number of any size. The source's context has 28 digits, past which quantize
-- raises InvalidOperation, and it takes the exit price of a closing request as it comes, so that a
-- negative or a huge one reaches the broker; neither is modelled. An exit price here is not negative
-- and, with its product with a quantity, within the 28 digits.
--
-- The overlays compare exact quotients; a text is the list of its code points, with the ASCII letters,
-- digits and underscore as the word characters of a pattern. A request that raises leaves the book.
--
-- Levels, option strikes and premiums are ten-thousandths of a rupee.
--
-- Not modelled: the codecs of Redis, the database session and its flushes, log lines and audit texts,
-- the routes that only read, and schemas; the reads of prices, bands, ATR and histories, whose results are the
-- fields of Market, Lookup and GateReads; the indicators, patterns and confluence scores
-- (floating-point vectors), and with them the signals of a backtest and its metrics; the Rust engine
-- and the frontend.
pub mod Options
pub mod Api
pub mod Backtest
pub mod Prelude
pub mod Money
pub mod Clock
pub mod Trading
pub mod Signals
pub mod Broker
