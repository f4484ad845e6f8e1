-- ===== src/Dispatch.antt =====
-- `dispatch/__init__.py`: how an order is placed, modified and cancelled. The platform is a
-- parameter; the store, the published events and the requests to the adapter are the state.
mod Actions
mod Events
mod Operations
pub mod Guards
pub mod Settlement
pub mod Records
pub mod Expiry
pub mod Success
unfoldable pub use Actions.*
unfoldable pub use Events.*
unfoldable pub use Operations.*
