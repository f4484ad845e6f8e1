-- ===== src/Trailing/Manager/Desk.antt =====
-- `trailing/manager.py`: the state of the manager, its steps, and the platform with which it works.
-- What is published and written to the audit trail is a log, without ids and times.
use unified_trading_executio.Base.{
  ℕ, ◌+◌, Bool, true, false, not, Option, none, some, List, [], ◌∷◌, ◌++◌, Dict, lookup, insert,
  ℕ_key, Run, proceed, pure, update, Result, ok, err, raise_if, platform_connection, trailing_state,
}
use unified_trading_executio.Decimal.{Decimal}
use unified_trading_executio.Types.{
  Ident, DateTime, InstrumentId, Instrument, InstrumentSpec, instrument_key, TpSlAttachment,
  check_attachment, Ticker, Candle,
}
use unified_trading_executio.Halt.{HaltStateMachine, can_place_order}
use unified_trading_executio.Trailing.Types.{
  TrailingMode, synthetic, TrailingBasis, TrailingPhase, arming, armed, triggered, done, cancelled,
  degraded, failed, TrailingConfig, TrailingState, Reason, CandleTimeframe,
}
use unified_trading_executio.Trailing.Routing.{
  PositionProtectionCapability, TrailingCapability, MarketDataCapability, NativeTrailingRequest,
  NativeTrailingResult,
}

-- A call of the adapter, or of `reserve_rate_limit`.
pub data Call : Type 0 where
  fetch_instrument_spec : Instrument → Call
  get_position_tpsl : Instrument → (position_id : Ident) → Call
  modify_position_tpsl :
      Instrument
      → (position_id : Ident) → (take_profit stop_loss : Option TpSlAttachment)
      → (trigger_basis : Option TrailingBasis) → Call
  clear_position_tpsl : Instrument → (position_id : Ident) → (take_profit stop_loss : Bool) → Call
  cancel_trailing_stop get_trailing_stop : (native_id : Ident) → Instrument → Call
  fetch_ticker : Instrument → Call
  fetch_candles : Instrument → CandleTimeframe → (limit : ℕ) → Call
  get_position_trailing_stop : Instrument → (position_id : Ident) → Call
  place_trailing_stop : NativeTrailingRequest → Call
  reserve_rate_limit : Call

pub record Protection : Type 0 where
  pub take_profit : Option TpSlAttachment
  pub stop_loss : Option TpSlAttachment

-- The adapter with its platform, which may answer by all that was called before, the budget, the
-- clock by the number of its readings, the halts and the configuration.
pub record Venue : Type 0 where
  pub is_connected : Bool
  pub protection_capability : Instrument → PositionProtectionCapability
  pub instrument_spec : List Call → Instrument → Result InstrumentSpec
  pub protection : List Call → Call → Result (Option Protection)
  pub change : List Call → Call → Result (Unit {0})
  pub trailing_capability : Instrument → TrailingCapability
  pub market_data_capability : Instrument → MarketDataCapability
  pub ticker : List Call → Instrument → Result (Option Ticker)
  pub candles : List Call → Call → Result (List Candle)
  pub native_trail : List Call → Call → Result (Option NativeTrailingResult)
  pub placed_trail : List Call → Call → Result NativeTrailingResult
  pub budget_left : List Call → Bool
  pub clock : ℕ → DateTime
  pub ids : ℕ → Ident
  pub halt : HaltStateMachine
  pub config : TrailingConfig

pub data AuditType : Type 0 where
  trailing_activated trailing_reprice_gap trailing_reprice trailing_recovered : AuditType
  trailing_degraded trailing_failed trailing_done trailing_clear trailing_cancelled : AuditType
  trailing_routing trailing_attached trailing_takeover trailing_integrity_restore : AuditType

pub data Entry : Type 0 where
  published : (previous : TrailingPhase) → TrailingState → Reason → Entry
  audited :
      AuditType → TrailingState → (previous_stop current_stop : Option Decimal) → Reason → Entry

pub record TrailingManager : Type 0 where
  pub states : Dict Ident TrailingState
  pub fetch_failures : Dict Ident ℕ
  pub atr_failures : Dict Ident ℕ
  pub instrument_specs : Dict InstrumentId InstrumentSpec
  pub calls : List Call
  pub log : List Entry
  pub readings : ℕ
  pub rehydrated : Option Bool

abbrev pub Step : Type 0 → Type 0
Step = Run TrailingManager

infixl 5 ◌>>=◌ ◌>>◌
abbrev pub ◌>>=◌ : {A B : Type 0} → Step A → (A → Step B) → Step B
(step >>= rest) m = proceed (step m) rest

abbrev pub ◌>>◌ : {B : Type 0} → Step (Unit {0}) → Step B → Step B
(step >> rest) m = proceed (step m) λ _. rest

-- The code returns this value.
abbrev pub give : {A : Type 0} → A → Step A
give a m = (m, ok a)

-- `_require_ready`
unfoldable pub require_ready : Venue → Step (Unit {0})
require_ready v = pure (raise_if (not v.is_connected) platform_connection)

-- `self._id_factory()`
unfoldable pub draw_id : Venue → Step Ident
draw_id v m = (record m { readings = m.readings + 1 }, ok (v.ids m.readings))

-- `self._clock()`
unfoldable pub read_clock : Venue → Step DateTime
read_clock v m = (record m { readings = m.readings + 1 }, ok (v.clock m.readings))

-- `StateStore.get_trailing_state`
unfoldable pub get_trailing_state : (trailing_id : Ident) → Step (Option TrailingState)
get_trailing_state i m = (m, ok (lookup i m.states))

-- `StateStore.upsert_trailing_state`
unfoldable pub upsert_trailing_state : TrailingState → Step (Unit {0})
upsert_trailing_state s = update λ m. record m { states = insert s.trailing_id s m.states }

-- `_publish`
unfoldable pub publish : TrailingState → (previous : TrailingPhase) → Reason → Step (Unit {0})
publish s previous reason = update λ m. record m { log = m.log ++ published previous s reason ∷ [] }

-- `_write_audit`
unfoldable pub write_audit :
    AuditType
    → TrailingState
    → (previous_stop current_stop : Option Decimal) → Reason
    → Step (Unit {0})
write_audit type s previous current reason =
    update λ m. record m { log = m.log ++ audited type s previous current reason ∷ [] }

abbrev pub called : Call → TrailingManager → TrailingManager
called c m = record m { calls = m.calls ++ c ∷ [] }

-- `self._reserve_rate_limit()`
unfoldable pub reserve : Venue → Step Bool
reserve v m = (called reserve_rate_limit m, ok (v.budget_left m.calls))

-- A change at the platform.
unfoldable pub ask : Venue → Call → Step (Unit {0})
ask v c m = (called c m, v.change m.calls c)

-- `self._adapter.get_position_tpsl(...)`
unfoldable pub read_protection : Venue → TrailingState → Step (Option Protection)
read_protection v s m =
    let c = get_position_tpsl s.instrument s.position_id in (called c m, v.protection m.calls c)

abbrev pub remember :
    InstrumentId → TrailingManager → Result InstrumentSpec → TrailingManager × Result InstrumentSpec
remember i m (err e) = (m, err e)
remember i m (ok spec) = (record m { instrument_specs = insert i spec m.instrument_specs }, ok spec)

abbrev pub spec_or_fetch :
    Venue
    → Instrument
    → TrailingManager
    → Option InstrumentSpec
    → TrailingManager × Result InstrumentSpec
spec_or_fetch v i m (some spec) = (m, ok spec)
spec_or_fetch v i m none =
    remember i.identity (called (fetch_instrument_spec i) m) (v.instrument_spec m.calls i)

-- `_instrument_spec`
unfoldable pub instrument_spec : Venue → Instrument → Step InstrumentSpec
instrument_spec v i m = spec_or_fetch v i m (lookup i.identity m.instrument_specs)

-- `TpSlAttachment(trigger_price=…) if level is not None else None`
abbrev pub attachment : Option Decimal → Option TpSlAttachment
attachment none = none
attachment (some p) = some (record { trigger_price = p; limit_price = none })

abbrev pub check_level_price : Option Decimal → Result (Unit {0})
check_level_price none = ok tt
check_level_price (some p) = check_attachment (record { trigger_price = p; limit_price = none })

-- `_modify_protection`, with the attachments that its callers make; the keyword of the trigger basis
-- is left out where there is none.
unfoldable pub modify_protection :
    Venue → TrailingState → (take_profit stop_loss : Option Decimal) → Step (Unit {0})
modify_protection v s take_profit stop_loss = do
  pure (check_level_price take_profit)
  pure (check_level_price stop_loss)
  ask v (
      modify_position_tpsl s.instrument s.position_id (attachment take_profit)
        (attachment stop_loss) s.protection_trigger_basis)

-- Membership in `ALLOWED_TRAILING_TRANSITIONS[current]`.
unfoldable pub is_allowed_transition : (current target : TrailingPhase) → Bool
is_allowed_transition arming armed = true
is_allowed_transition arming degraded = true
is_allowed_transition arming failed = true
is_allowed_transition arming cancelled = true
is_allowed_transition arming done = true
is_allowed_transition armed triggered = true
is_allowed_transition armed degraded = true
is_allowed_transition armed cancelled = true
is_allowed_transition armed done = true
is_allowed_transition armed failed = true
is_allowed_transition triggered degraded = true
is_allowed_transition triggered cancelled = true
is_allowed_transition triggered done = true
is_allowed_transition triggered failed = true
is_allowed_transition degraded armed = true
is_allowed_transition degraded cancelled = true
is_allowed_transition degraded done = true
is_allowed_transition degraded failed = true
is_allowed_transition _ _ = false

-- `ensure_transition_allowed`
unfoldable pub ensure_transition_allowed : (current target : TrailingPhase) → Step (Unit {0})
ensure_transition_allowed current target =
    pure (raise_if (not (is_allowed_transition current target)) trailing_state)

abbrev pub is_synthetic : TrailingMode → Bool
is_synthetic synthetic = true
is_synthetic _ = false

abbrev pub is_native : TrailingMode → Bool
is_native TrailingMode.native = true
is_native _ = false

abbrev pub is_degraded : TrailingPhase → Bool
is_degraded degraded = true
is_degraded _ = false

-- `phase in (TrailingPhase.ARMED, TrailingPhase.DEGRADED)`
abbrev pub is_watched : TrailingPhase → Bool
is_watched armed = true
is_watched degraded = true
is_watched _ = false

-- `self._halt_machine.can_place_order(instrument, reduce_only=True)`
abbrev pub may_reduce : Venue → Instrument → Bool
may_reduce v i = can_place_order v.halt i true
