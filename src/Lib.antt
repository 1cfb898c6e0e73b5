-- ===== src/Lib.antt =====
-- A model of the copy-trading backend of this repository (backend/app): how a source wallet's fill
-- becomes a sized and priced copy, how paper accounts execute and account for it, and how live orders,
-- accounts and worker locks keep their state. Decisions are functions of their arguments; a service
-- that changes rows is a function from the table to the table; an exception is `none`.
--
-- Prelude: shared names, Boolean tests, lists by length, and the integers (Prelude/Int).
-- Decimal: what the code does with `decimal.Decimal`, as an interface with the laws of its order, of
--   its rounded arithmetic, and, for the simulated fill and the sizes of source trades, of exact
--   arithmetic. Decimal/Order has lemmas, and Decimal/Units whole units, at which all laws hold.
-- Settings: the settings that the code reads (backend/app/core/config.py).
-- Trade, Trade/Sizing: backend/app/services/trading_core.py, the vocabulary and `plan_entry_sizing`,
--   which is split by its branches (`open_sizing`, `add_sizing`) and its local values.
-- Signal/Parts, Signal/Pricing, Signal/Coins: backend/app/services/copy_signal_service.py, the parts
--   of a fill, the price of a copy, and the look-up by coin symbol.
-- Copy/Entry, Copy/Close: backend/app/services/copy_decision.py, both engines' decisions.
-- Paper/Book, Paper/Margin: backend/app/services/paper_execution_simulator.py.
-- Paper/Loss: backend/app/services/copy_risk_rules.py.
-- Paper/Account: backend/app/services/paper_risk_service.py, an account as a record and its
--   snapshots, fills and positions as lists.
-- Live/Intent: the trade intents of backend/app/services/trading_core.py.
-- Live/Order, Live/Order/Attempts, Live/Order/Restore: backend/app/services/live_execution_state.py.
--   The tables of orders and dispatches are lists; a new row's id and creation time are arguments,
--   since the database gives them.
-- Live/Reject: backend/app/services/live_order_reject_policy.py, with the error that a rejection leaves
--   on an order in backend/app/services/live_trading_service.py and the retry that reads it in
--   backend/app/services/live_copy_service.py.
-- Live/Safety: backend/app/services/trading_safety_service.py.
-- Live/Work: backend/app/services/live_copy_work_service.py, the queue as the list of its rows.
-- Live/Fill, Live/Fill/Plan, Live/Fill/Claim, Live/Fill/Part:
--   backend/app/services/live_copy_state_service.py, the table of the parts of fills as the list of its
--   rows: what is decided on a part, how a plan's rows come to be and are complete, what a claim reads,
--   and the claim itself.
-- Source/Order: backend/app/services/source_fill_ordering.py, the key of a fill; keys are compared as
--   Python compares tuples.
-- Source/Trade, Source/Wallet, Source/Rebuild:
--   backend/app/services/source_trade_reconstruction_service.py, a source trade, a wallet's totals, the
--   rows of its trades (Source/Wallet/Stored), and the two dictionaries, as lists in the order of
--   insertion, that the fills of a query go through.
-- Lease: the table `job_locks` of backend/app/services/job_lock_service.py and
--   backend/app/services/worker_lease_service.py. Each statement is one transaction at the
--   database's clock, so an interleaving of processes is a list of statements.
-- Score/Rules, Score/Wallet: backend/app/services/wallet_score_service.py, the rules that turn a
--   measure into a score, and a wallet's score with its caps.
-- Examples: the theorems at concrete inputs.
--
-- A fill calls Signal, whose parts and prices are arguments of Copy; Copy calls Trade/Sizing for an
-- entry, and its decisions are executed by Paper or become the intents of Live. Work that Live/Work
-- claims is one fill, whose parts Live/Fill plans, claims in order and decides; the score of a wallet
-- is computed from the trades that Source/Rebuild makes of its fills.
--
-- Loops are structural recursion on lists, so there is no fuel. Moments are microseconds. Integers of
-- the program are unbounded in Python, and ℕ here where the program only has such that are not negative.
--
-- Parameters: `decimal.Decimal`, and in Live the texts of numbers and moments, `str.lower`,
-- `str.strip`, `str.isdigit`, the normal forms of a reject message (`str.casefold`, `str.split`,
-- `str.isalnum`), the BLAKE2s digest, and the database's order on texts, and in Score
-- `Decimal.quantize`. A text operation of Signal/Coins is that of `str` on ASCII. Where an entry
-- below is about decimals, it holds at any decimals with the order's laws, and with those of
-- rounded arithmetic where it speaks of results of arithmetic.
--
-- Not modelled: the services that orchestrate these parts, the exchange and database clients, NaN and
-- signalling decimals, the measures that a wallet's score is computed from, fill
-- import, the API, and the frontend. Renewal loops stand here as the statements that they run.
pub mod Copy
pub mod Decimal
pub mod Examples
pub mod Lease
pub mod Live
pub mod Paper
pub mod Prelude
pub mod Score
pub mod Settings
pub mod Signal
pub mod Source
pub mod Trade
