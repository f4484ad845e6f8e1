-- ===== src/Decimal.antt =====
-- Python's `decimal.Decimal`, as far as the trading core uses it: fixed-point numbers over the
-- integers, the rounding modes, and the laws of the operations.
mod Int
mod Rounding
mod Ops
mod Laws
unfoldable pub use Int.*
unfoldable pub use Rounding.*
unfoldable pub use Ops.*
unfoldable pub use Laws.*
