-- ===== src/Dispatch/Actions.antt =====
-- The steps of dispatch: runs on the desk.
use unified_trading_executio.Base.{Run, ok, ◌+◌, ◌∷◌, ◌++◌, []}
use unified_trading_executio.Types.{Ident, OrderResult}
use unified_trading_executio.Store.{Stamp}
use unified_trading_executio.Dispatch.Events.{Request, Platform, Desk}
pub use unified_trading_executio.Base.{proceed, pure, update}

abbrev pub Action : Type 0 → Type 0
Action = Run Desk

infixl 5 ◌>>=◌ ◌>>◌
abbrev pub ◌>>=◌ : {A B : Type 0} → Action A → (A → Action B) → Action B
(step >>= rest) d = proceed (step d) rest

abbrev pub ◌>>◌ : {B : Type 0} → Action (Unit {0}) → Action B → Action B
(step >> rest) d = proceed (step d) λ _. rest

-- `_new_id()`
unfoldable pub draw : Platform → Action Ident
draw p d = (record d { drawn = d.drawn + 1 }, ok (p.new_id d.drawn))

-- `_new_id()` and `_utcnow()`, with the other fields of an event.
unfoldable pub stamp : Platform → (correlation_id : Ident) → Action Stamp
stamp p correlation d = (
  record d { drawn = d.drawn + 1 },
  ok (record {
    event_id = p.new_id d.drawn;
    timestamp = p.clock d.drawn;
    adapter_name = p.platform_name;
    account_id = p.account_id;
    correlation_id = correlation;
  }),
)

-- A call of the adapter.
unfoldable pub ask : Platform → Request → Action OrderResult
ask p r d = (record d { requests = d.requests ++ r ∷ [] }, p.answer d.requests r)
