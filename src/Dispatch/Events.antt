-- ===== src/Dispatch/Events.antt =====
-- What dispatch uses: the platform behind the adapter, the events, and the state of a run.
use unified_trading_executio.Base.{ℕ, Bool, List, Result}
use unified_trading_executio.Types.{
  Ident, DateTime, Instrument, InstrumentSpec, OrderType, UnifiedOrder, OrderModification,
  OrderResult, OrderRecord,
}
use unified_trading_executio.Store.{Stamp, StateStore}

-- A request to the adapter.
pub data Request : Type 0 where
  place_order : UnifiedOrder → Request
  modify_order : OrderModification → Request
  cancel_order : (client_order_id : Ident) → Request

-- The adapter and its platform, which may answer by all that was requested before, the
-- specifications of the engine, and `uuid7` and the clock by the number of ids drawn.
pub record Platform : Type 0 where
  pub platform_name : Ident
  pub account_id : Ident
  pub supports : OrderType → Bool
  pub instrument_spec : Instrument → Result InstrumentSpec
  pub answer : List Request → Request → Result OrderResult
  pub new_id : ℕ → Ident
  pub clock : ℕ → DateTime

-- The events that dispatch publishes.
pub data Event : Type 0 where
  order_placed : Stamp → OrderRecord → Event
  order_modified : Stamp → (order previous : OrderRecord) → Event
  order_cancelled : Stamp → (client_order_id : Ident) → Instrument → Event

pub record Desk : Type 0 where
  pub store : StateStore
  pub published : List Event
  pub requests : List Request
  pub drawn : ℕ
