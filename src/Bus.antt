-- ===== src/Bus.antt =====
-- The event bus of `events/__init__.py`. A callback is named by a number; what it does is a parameter,
-- and it does not change the bus while an event is published.
pub mod Delivery
use unified_trading_executio.Base.{
  ℕ, Bool, true, false, ◌||◌, List, [], ◌∷◌, ◌++◌, if◌then◌else◌, get_or, Dict, lookup, insert, Key,
  key_of_discrete, ℕ_key, ◌==◌, Result, ok, err,
}
use unified_trading_executio.Types.{Ident}

-- The classes of events; `any_event` is the base class.
pub data EventType : Type 0 where
  any_event fill position_update balance_update ticker connection_state : EventType
  order_placed order_modified order_cancelled order_status : EventType
  trailing_state reconciliation_complete halt_entered halt_cleared account_changed : EventType

unfoldable pub EventType-discrete : Discrete EventType
EventType-discrete = hlevel

instance abbrev pub event_type_key : Key EventType
event_type_key = key_of_discrete EventType-discrete

abbrev pub Callback : Type 0
Callback = Ident

abbrev pub EventBus : Type 0
EventBus = Dict EventType (List Callback)

-- `isinstance(event, event_type)` for an event of the class `cls`.
unfoldable pub is_instance : (cls event_type : EventType) → Bool
is_instance cls type = type == any_event || type == cls

unfoldable pub subscribe : EventType → Callback → EventBus → EventBus
subscribe type c bus = insert type (get_or (lookup type bus) [] ++ c ∷ []) bus

-- `callbacks.remove(c)`: the first one goes, and the error for a missing one is swallowed.
abbrev pub remove : Callback → List Callback → List Callback
remove c [] = []
remove c (x ∷ xs) = if x == c then xs else x ∷ remove c xs

-- The lookup of a `defaultdict` adds an empty list for a type that has none.
unfoldable pub unsubscribe : EventType → Callback → EventBus → EventBus
unsubscribe type c bus = insert type (remove c (get_or (lookup type bus) [])) bus

module _ {W : Type 0} (react : Callback → W → W × Result (Unit {0})) where
  -- What a callback did stays, whether it returned or raised.
  unfoldable pub call_all : List Callback → W → W
  call_all [] w = w
  call_all (c ∷ cs) w = call_all cs (react c w).0

  -- `EventBus.publish`
  unfoldable pub publish : EventBus → (cls : EventType) → W → W
  publish [] cls w = w
  publish ((type, cs) ∷ bus) cls w =
      if is_instance cls type then publish bus cls (call_all cs w) else publish bus cls w
