-- ===== src/Types.antt =====
-- The public data types of `packages/core/src/unified_trading_execution/types`: the enumerations,
-- and the records with the checks of their `__post_init__` methods. Identifiers that are only
-- compared (client order ids, position legs, currencies of balances) are numbers.
mod Enums
mod Strings
mod Instruments
mod Market
mod Order
mod Holdings
pub mod Validity
unfoldable pub use Enums.*
unfoldable pub use Strings.*
unfoldable pub use Instruments.*
unfoldable pub use Market.*
unfoldable pub use Order.*
unfoldable pub use Holdings.*
