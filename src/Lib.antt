-- ===== src/Lib.antt =====
-- The verification library of the trading core: the package `packages/core`, in the directory
-- `packages/core/src/unified_trading_execution`. File names below are relative to it.
--
-- An order reaches a platform through `dispatch`, which runs the risk chain (`risk`) on it and asks
-- the halt machine (`state/halt.py`) whether it may be placed. Reconciliation compares the local
-- mirror with the platform. A trailing stop (`trailing`) follows the market: a worker polls prices,
-- and the calculations of `trailing/math.py` say where the stop goes.
--
-- The files:
-- - Base: Boolean tests, lists, dicts (association lists in insertion order), and the exceptions
--   (`errors/__init__.py`) with the result type of code that raises.
-- - Decimal: Python's `Decimal`, on fixed-point numbers.
-- - Types: the records and enumerations of `types/*.py`, each with the checks of its
--   `__post_init__`; Types/Validity: what these accept.
-- - Risk: the validators and the chain of `risk/__init__.py`. Risk/Bounds, Deviation, Chain and
--   Errors: when they pass, and with which error they fail.
-- - Halt: `HaltStateMachine` of `state/halt.py`, each method a function from the machine to the
--   machine and a result. Halt/Invariant, Queries and Runs: its invariant, what a call changes, and
--   sequences of calls.
-- - Store: the order tables and the audit trail of `state/store.py`.
-- - Bus: the event bus of `events/__init__.py`; Bus/Delivery: who is called.
-- - Dispatch: `dispatch/__init__.py`, with the platform behind the adapter as a parameter and the
--   store, the published events and the requests to the adapter as the state. Dispatch/Guards,
--   Settlement, Records, Success and Expiry hold the proofs.
-- - Engine: the halt management of `engine.py` after a reconciliation; Engine/Phases
--   and Halts: what it leaves halted.
-- - RateLimits: the rate-limit budget of `engine.py`; RateLimits/Runs: sequences of reservations
--   and refreshes, placings and modifications.
-- - Reconciliation: `state/reconciliation.py`; Reconciliation/Union, Clean and Orphans hold the
--   proofs.
-- - Trailing: Types, Math, Atr and Worker are `trailing/types.py`, `trailing/math.py` (Math and
--   Atr) and the scheduling of `trailing/worker.py`. Routing, Legs and Levels are the functions of
--   `trailing/manager.py` that choose the mode, the leg, the bases and the first levels, with the
--   capabilities of `adapter/__init__.py`. Blockers, Routes, SpecChecks, Candidate, Ratchet,
--   Quantize, AtrBounds and Schedule hold the proofs.
-- - Trailing/Manager: the methods of `TrailingManager`. Desk is its state, the platform and the
--   elementary steps, with the table of trailing states of `state/store.py`; Failures and Confirming
--   are the counters and the readings, Ticking, AtrRefresh, Closing and Positions the methods on a
--   row, Attaching, Native and Attach `attach`, Integrity and NativeIntegrity `check_integrity`.
-- - Trailing/Manager, the proofs: Tracking and Quiet are rules for what a step does to one row,
--   Lifecycle and Leads the relations that rows and their table keep to, which TickerRuns, AtrRuns,
--   ClosingRuns, PositionRuns, IntegrityRuns, NativeRuns and Runs prove. Writes, Justified and
--   TickerWrites are about what a ticker writes to the platform, OwnClears about what is cleared
--   there, AttachReads, Plans and AttachWrites about what attaching writes, and Restoring about what
--   a check restores; FailureCounts is about when failures degrade a row, and Stuck about a row that
--   does not recover.
-- - Examples: sample data, and the theorems applied to it.
--
-- A function that returns in the source returns `ok`, one that raises returns `err` with the
-- exception. Methods that mutate take the state and return it. All recursion is structural, so no
-- fuel is needed.
--
-- Representation:
-- - A decimal is an integer number of quanta of 10^-28. Sums and comparisons are exact, products
--   and quotients are rounded half-even to the quantum. Python rounds to 28 significant digits, and
--   so agrees on values whose results need no more than 28 digits in all and 28 behind the point.
--   A decimal is finite: the checks that refuse NaN and infinities have no counterpart, and the
--   default cap `Decimal("Inf")` is `none`. A quantity precision above 28 makes the tick zero.
-- - Strings that are normalised (symbols and currencies) are lists of ASCII codes; identifiers and
--   texts that are only compared or passed on are numbers. Messages of exceptions are left out.
-- - A `datetime` is its instant in microseconds with a flag for the time zone; seconds that are
--   floats in the source are decimals.
-- - Conversions such as `as_decimal` are done: the fields of a record are decimals already.
--
-- - Ids (`uuid7`) and the clock are functions of the number of ids drawn so far. Two audit events
--   with one id are refused by the store, so a theorem that a dispatch returns asks for a new id.
--   The adapter may answer by all that was requested before. The database does not fail otherwise.
-- - A step of the dispatch or of the manager is a function from its state to the state and a result
--   (`Run` of Base). The methods of the manager on one state exclude one another by its lock. Its log
--   leaves out the ids and the times of what it publishes and writes to the audit trail, and the
--   trail that a native one replaced; neither that nor the table of states fails. Its clock has a
--   time zone. The positions that the store has are an argument of the methods that read them. A text that it keeps as the last error of a state is the
--   prefix and the rest of it; a text given by a caller is not empty.
--
-- Not modelled: the platform adapters (`packages/adapter-*`), the other tables of `state/store.py`
-- and the migrations, the rehydration and the classification of fills of the trailing manager, the
-- connection and the asyncio tasks of the engine, sync engine, manager and worker, logging, the
-- registry, and the simulated adapter of `testing`.
pub mod Base
pub mod Decimal
pub mod Types
pub mod RateLimits
pub mod Risk
pub mod Halt
pub mod Store
pub mod Bus
pub mod Dispatch
pub mod Engine
pub mod Reconciliation
pub mod Trailing
mod Examples
