-- ===== src/Trailing/Manager.antt =====
-- The trailing manager of `trailing/manager.py`: attaching, the tickers and ATRs that move a stop, the
-- failures that degrade a state, the updates of its position, the checks against the platform, and
-- cancelling. The methods of one state exclude one another by its lock, and are modelled as one step
-- each.
mod Desk
mod Failures
mod Confirming
mod Ticking
mod AtrRefresh
mod Closing
mod Positions
mod Attaching
mod Native
mod Attach
mod Integrity
mod NativeIntegrity
mod Tracking
mod Quiet
pub mod Lifecycle
mod TickerRuns
mod AtrRuns
mod ClosingRuns
mod PositionRuns
mod IntegrityRuns
mod NativeRuns
pub mod Leads
pub mod Runs
pub mod Writes
mod Justified
pub mod TickerWrites
mod AttachReads
pub mod Plans
pub mod AttachWrites
pub mod OwnClears
pub mod FailureCounts
pub mod Stuck
pub mod Restoring
unfoldable pub use Desk.*
unfoldable pub use Failures.*
unfoldable pub use Confirming.*
unfoldable pub use Ticking.*
unfoldable pub use AtrRefresh.*
unfoldable pub use Closing.*
unfoldable pub use Positions.*
unfoldable pub use Attaching.*
unfoldable pub use Native.*
unfoldable pub use Attach.*
unfoldable pub use Integrity.*
unfoldable pub use NativeIntegrity.*
