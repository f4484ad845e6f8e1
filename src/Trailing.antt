-- ===== src/Trailing.antt =====
-- The trailing stops of `packages/core/src/unified_trading_execution/trailing`: the data types with
-- their checks (`types.py`), the calculations (`math.py`) and the schedule of the polling worker
-- (`worker.py`).
mod Types
mod Math
mod Atr
mod Worker
mod Routing
mod Legs
mod Levels
pub mod Manager
pub mod SpecChecks
pub mod Candidate
pub mod Ratchet
pub mod Blockers
pub mod Routes
pub mod Quantize
pub mod AtrBounds
pub mod Schedule
unfoldable pub use Types.*
unfoldable pub use Math.*
unfoldable pub use Atr.*
unfoldable pub use Worker.*
unfoldable pub use Routing.*
unfoldable pub use Legs.*
unfoldable pub use Levels.*
