-- ===== src/Examples.antt =====
-- Concrete orders, halts and trailing stops, and the theorems of the library applied to them.
mod Samples
mod OfTypes
mod OfRisk
mod OfHalt
mod OfDispatch
mod OfEngine
mod OfRateLimits
mod OfBus
mod OfTrailing
mod OfRouting
mod Trails
mod OfManager
mod OfReconciliation
