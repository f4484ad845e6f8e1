-- ===== src/Trailing/Types/Enums.antt =====
-- The enumerations of `trailing/types.py`, and the texts that `trailing/manager.py` keeps as the last
-- error of a state or gives as a reason.
use unified_trading_executio.Base.{Bool, true, false, Option, some, List, Error}
use unified_trading_executio.Decimal.{Decimal}
use unified_trading_executio.Types.{Ident}

pub data TrailingMode : Type 0 where
  auto native synthetic : TrailingMode

pub data TrailingOffsetType : Type 0 where
  price percent atr : TrailingOffsetType

pub data ProtectionLevelType : Type 0 where
  price percent atr : ProtectionLevelType

pub data TrailingBasis : Type 0 where
  last mark mid bid ask : TrailingBasis

pub data TrailingActivation : Type 0 where
  immediate price profit_percent : TrailingActivation

pub data TrailingPhase : Type 0 where
  arming armed triggered done cancelled degraded failed : TrailingPhase

pub data CandleTimeframe : Type 0 where
  m1 m5 m15 m30 h1 h4 h8 h12 d1 : CandleTimeframe

-- Membership in `ACTIVE_TRAILING_PHASES`.
unfoldable pub is_active_phase : TrailingPhase → Bool
is_active_phase arming = true
is_active_phase armed = true
is_active_phase triggered = true
is_active_phase degraded = true
is_active_phase _ = false

-- Membership in `TERMINAL_TRAILING_PHASES`.
unfoldable pub is_terminal_phase : TrailingPhase → Bool
is_terminal_phase done = true
is_terminal_phase cancelled = true
is_terminal_phase failed = true
is_terminal_phase _ = false

-- The codes of `_NATIVE_BLOCKER_LABELS` and of `_SYNTHETIC_BLOCKER_LABELS`.
pub data Blocker : Type 0 where
  native_unsupported native_unsupported_offset_type native_unsupported_atr : Blocker
  native_unsupported_basis native_unsupported_activation native_unsupported_step : Blocker
  native_unsupported_initial_stop native_unsupported_take_profit native_unsupported_atr_data :
      Blocker
  synthetic_unsupported_protection synthetic_unsupported_stop synthetic_unsupported_merge : Blocker
  synthetic_unsupported_ticker synthetic_unsupported_take_profit synthetic_unsupported_atr_data :
      Blocker

-- The reason that is kept with the mode.
pub data RoutingReason : Type 0 where
  native_exact synthetic_mode_requested : RoutingReason
  fallback : Blocker → RoutingReason

-- Why a leg may not be the one that a state was for.
pub data IdentityNote : Type 0 where
  position_replaced position_identity_unverified : IdentityNote

-- What clearing protection leaves to tell. An exception stands for its text.
pub data ClearNote : Type 0 where
  protection_changed_externally halted_left_in_place budget_left_in_place : ClearNote
  trail_halted trail_budget trail_present : ClearNote
  clear_raised : Error → ClearNote

-- Why the platform did not confirm a level: it raised, it has no protection, or it has another one.
pub data Detail : Type 0 where
  raised : Error → Detail
  not_found not_confirmed : Detail
  expected_stop : (expected : Decimal) → (got : Option Decimal) → Detail
  expected_levels : (stop take_profit got_stop got_take_profit : Option Decimal) → Detail

-- What a check of the levels finds.
pub data IntegrityNote : Type 0 where
  missing_stop adopted_tighter_stop changed_externally missing_take_profit : IntegrityNote

-- A reason, but for the prefix of an error: a text of the caller, or one of the manager's.
pub data Reason : Type 0 where
  given : (text : Ident) → Reason
  integrity_read integrity_raised rearm_raised spec_raised trail_read_raised : Error → Reason
  integrity_unconfirmed : Option Detail → Reason
  integrity_notes : List IntegrityNote → Reason
  integrity_halted integrity_restore protection_confirmed_reason : Reason
  trail_missing_halted native_rearmed : Reason
  identity_lost : IdentityNote → Reason
  routed : RoutingReason → Reason
  attached takeover native_not_confirmed : Reason
  attach_raised native_raised profit_raised : Error → Reason
  attach_unconfirmed : Option Detail → Reason
  no_price : Option TrailingBasis → Reason
  candidate_raised write_raised resize_raised : Error → Reason
  unconfirmed resize_unconfirmed : Option Detail → Reason
  halted_not_resized budget_not_resized : Reason
  notes : List ClearNote → Reason
  activated activation_reached repriced gap_start gap_end gap_end_failed : Reason
  atr_refreshed atr_stale ticker_recovered quantity_change : Reason
  position_closed position_side_flipped cancel_requested cleared : Reason

-- A text that is kept as the last error, by the prefix `fetch: `, `protection: ` or `atr_stale: `
-- with which it starts.
pub data Note : Type 0 where
  fetch_error protection_error atr_error plain : Reason → Note

-- `(last_error or "").startswith(prefix)`, for each prefix.
abbrev pub is_fetch_error : Option Note → Bool
is_fetch_error (some (fetch_error r)) = true
is_fetch_error _ = false

abbrev pub is_protection_error : Option Note → Bool
is_protection_error (some (protection_error r)) = true
is_protection_error _ = false

abbrev pub is_atr_error : Option Note → Bool
is_atr_error (some (atr_error r)) = true
is_atr_error _ = false
