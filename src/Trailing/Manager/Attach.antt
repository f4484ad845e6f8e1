-- ===== src/Trailing/Manager/Attach.antt =====
-- `trailing/manager.py`: `attach`.
use unified_trading_executio.Base.{Bool, is_some, List, pure, ok, raise_if, trailing_state}
use unified_trading_executio.Types.{Ident, Instrument, Position}
use unified_trading_executio.Trailing.Types.{
  TrailingMode, native, synthetic, auto, TrailingState, routed, RoutingReason,
}
use unified_trading_executio.Trailing.Routing.{TrailingRequest, resolve_routing}
use unified_trading_executio.Trailing.Legs.{resolve_position_leg}
use unified_trading_executio.Trailing.Manager.Desk.{
  Venue, trailing_routing, Step, ◌>>=◌, ◌>>◌, give, require_ready, write_audit,
}
use unified_trading_executio.Trailing.Manager.Positions.{list_active, of_leg}
use unified_trading_executio.Trailing.Manager.Attaching.{require_rehydrated, attach_synthetic}
use unified_trading_executio.Trailing.Manager.Native.{attach_native}

-- `any(state.position_id == position_id for state in active)`
unfoldable pub is_taken : Instrument → (position_id : Ident) → Step Bool
is_taken i position_id m = (m, ok (is_some (of_leg position_id (list_active i m.states))))

abbrev pub attach_by :
    TrailingMode
    → Venue
    → TrailingRequest
    → Position
    → (position_id : Ident) → RoutingReason
    → Step TrailingState
attach_by synthetic = attach_synthetic
attach_by native = attach_native
attach_by auto = attach_native

-- `attach`, with the positions of the instrument that the store has.
unfoldable pub attach : Venue → (legs : List Position) → TrailingRequest → Step TrailingState
attach v legs r = do
  require_ready v
  require_rehydrated
  leg ← pure (resolve_position_leg legs r.position_id)
  taken ← is_taken r.instrument leg.1
  pure (raise_if taken trailing_state)
  routing ← pure (
      resolve_routing r (v.protection_capability r.instrument) (v.trailing_capability r.instrument)
        (v.market_data_capability r.instrument))
  final ← attach_by routing.0 v r leg.0 leg.1 routing.1
  write_audit trailing_routing final final.previous_stop_loss final.current_stop (routed routing.1)
  give final
