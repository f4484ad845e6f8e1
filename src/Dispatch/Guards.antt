-- ===== src/Dispatch/Guards.antt =====
-- What must hold before a request reaches the adapter (`dispatch/__init__.py`).
use unified_trading_executio.Base.{
  proceed_ind, ℕ, ◌+◌, ◌≡◌, refl, ◌⊎◌, inl, inr, Bool, true, false, not, Option, none, some, [],
  ◌∷◌, ◌++◌, Result, ok, err, raise_if, Error, Option-cases, get_or, order_not_found,
}
use unified_trading_executio.Types.{
  Ident, InstrumentSpec, UnifiedOrder, OrderModification, OrderResult, OrderRecord, check_order,
  check_record,
}
use unified_trading_executio.Risk.{RiskInputs, run_risk_checks}
use unified_trading_executio.Halt.{HaltStateMachine, can_place_order}
use unified_trading_executio.Store.{
  Stamp, AuditEvent, AuditPayload, StateStore, write_audit_event, get_order,
}
use unified_trading_executio.Dispatch.Events.{
  Request, place_order, modify_order, cancel_order, Platform, Event, Desk,
}
use unified_trading_executio.Dispatch.Actions.{Action, proceed, draw, stamp, ask}
use unified_trading_executio.Dispatch.Operations.{
  keep_store, found, identify, check_supported, check_halt, audit, fetch, settle,
  dispatch_place_order, would_be_order, check_now, dispatch_modify_order, dispatch_cancel_order,
}

-- The run made no request to the adapter.
abbrev pub IsQuiet : {A : Type 0} → Desk → Desk × Result A → Type 0
IsQuiet d run = run.0.requests ≡ d.requests

keep_store-IsQuiet : (d : Desk) (r : Result StateStore) → IsQuiet d (keep_store d r)
keep_store-IsQuiet d (ok s) = refl
keep_store-IsQuiet d (err e) = refl

audit-IsQuiet : (a : AuditEvent) (d : Desk) → IsQuiet d (audit a d)
unfolding audit
audit-IsQuiet a d = keep_store-IsQuiet d (write_audit_event a d.store)

pub settle-IsQuiet :
    (p : Platform) (c : Ident) (r : OrderRecord) (event : Stamp → Event) (payload : AuditPayload)
    (result : OrderResult) (d : Desk)
    → IsQuiet d (settle p c r event payload result d)
unfolding settle stamp
settle-IsQuiet p c r event payload result d =
    proceed_ind (IsQuiet d) (d, check_record r) _ (λ e h. refl)
      (λ _ h.
        proceed_ind (IsQuiet d) (audit _ _) _ (λ e h. audit-IsQuiet _ _) (λ _ h. audit-IsQuiet _ _))

-- The run made no request, or the one request `r`, for which `P` holds.
abbrev pub IsGuarded : (P : Request → Type 0) → Desk → Desk × Result OrderResult → Type 0
IsGuarded P d run =
    (run.0.requests ≡ d.requests) ⊎ ((r : Request) × (run.0.requests ≡ d.requests ++ r ∷ []) × P r)

-- A request, and what follows from the answer.
ask-IsGuarded :
    (P : Request → Type 0) (p : Platform) (r : Request) (rest : OrderResult → Action OrderResult)
    (d : Desk)
    → ((o : OrderResult) (e : Desk) → IsQuiet e (rest o e))
    → P r
    → IsGuarded P d (proceed (ask p r d) rest)
unfolding ask
ask-IsGuarded P p r rest d quiet holds =
    proceed_ind (IsGuarded P d) (ask p r d) rest (λ e h. inr (r, refl, holds))
      (λ o h. inr (r, quiet o _, holds))

-- What passes the guards of placing: an order of a supported type that has an id, passes the risk
-- chain and is not halted.
pub record IsPermitted (p : Platform) (inputs : RiskInputs) (halt : HaltStateMachine)
    (o : UnifiedOrder) : Type 0 where
  pub type_supported : p.supports o.order_type ≡ true
  pub risk_passed : run_risk_checks o inputs ≡ ok tt
  pub not_halted : can_place_order halt o.instrument o.reduce_only ≡ true

passed : (b : Bool) (e : Error) {u : Unit {0}} → raise_if (not b) e ≡ ok u → b ≡ true
passed true e h = refl
passed false e h = cc

-- The id that an order is placed with: the one it was given or, where it has none, a new one.
abbrev pub placing_id : Platform → UnifiedOrder → Desk → Ident
placing_id p order d = get_or order.client_order_id (p.new_id d.drawn)

-- The order as it is sent.
abbrev pub identified : Platform → UnifiedOrder → Desk → UnifiedOrder
identified p order d = record order { client_order_id = some (placing_id p order d) }

-- Identifying an order draws at most an id.
pub identify_lem :
    (p : Platform) (order : UnifiedOrder) (d : Desk)
    → (n : ℕ) × (identify p order d ≡ (record d { drawn = n }, ok (identified p order d)))
unfolding identify draw
identify_lem p order d = elim (Option-cases order.client_order_id) [
  | inl e ↦ (d.drawn + 1, rw e refl)
  | inr (cid, e) ↦ (d.drawn, rw e refl)
]

-- Placing makes at most one request, and only for the order that was given, under the id that it was
-- given or, only where it has none, the new one that is drawn, and only if its type is supported, it
-- passes the risk chain and it is not halted.
pub dispatch_place_order-IsGuarded :
    (p : Platform) (inputs : RiskInputs) (halt : HaltStateMachine) (order : UnifiedOrder) (d : Desk)
    → IsGuarded
        (λ r.
          (r ≡ place_order (identified p order d))
          × IsPermitted p inputs halt (identified p order d))
        d
        (dispatch_place_order p inputs halt order d)
unfolding dispatch_place_order check_supported check_halt draw
dispatch_place_order-IsGuarded p inputs halt order d =
    let (n, found) = identify_lem p order d in
    proceed_ind (IsGuarded _ d) (d, raise_if (not (p.supports order.order_type)) _) _
      (λ e h. inl refl)
      (λ _ supported. rw found (
        proceed_ind (IsGuarded _ d) (_, run_risk_checks _ inputs) _ (λ e h. inl refl)
          (λ _ passes.
            proceed_ind (IsGuarded _ d)
              (_, raise_if (not (can_place_order halt order.instrument order.reduce_only)) _) _
              (λ e h. inl refl)
              (λ _ free.
                ask-IsGuarded _ p _ _ _ (λ o e. settle-IsQuiet p _ _ _ _ o e)
                  (
                    refl,
                    record {
                      type_supported = passed _ _ supported;
                      risk_passed = passes;
                      not_halted = passed _ _ free;
                    },
                  )))))

pub found-some : (o : Option OrderRecord) {r : OrderRecord} → found o ≡ ok r → o ≡ some r
found-some none h = cc
found-some (some r) h = cc

-- Modifying makes at most one request, the modification, and only if the order is in the store, the
-- platform knows its instrument, and the order that the modification makes of it is supported,
-- passes the risk chain and is not halted.
pub dispatch_modify_order-IsGuarded :
    (p : Platform) (inputs : RiskInputs) (halt : HaltStateMachine) (m : OrderModification)
    (d : Desk)
    → IsGuarded
        (λ r.
          (r ≡ modify_order m)
          × (existing : OrderRecord) × (get_order m.client_order_id d.store ≡ some existing)
          × (spec : InstrumentSpec) × (p.instrument_spec existing.instrument ≡ ok spec)
          × IsPermitted p
              (record inputs { instrument_spec = some spec })
              halt
              (would_be_order existing m))
        d
        (dispatch_modify_order p inputs halt m d)
unfolding dispatch_modify_order check_supported check_halt draw fetch check_now would_be_order
dispatch_modify_order-IsGuarded p inputs halt m d =
    proceed_ind (IsGuarded _ d) (d, found (get_order m.client_order_id d.store)) _ (λ e h. inl refl)
      (λ existing known.
        let o = would_be_order existing m in
        proceed_ind (IsGuarded _ d) (_, check_order _ o) _ (λ e h. inl refl)
          (λ _ valid.
            proceed_ind (IsGuarded _ d) (_, raise_if (not (p.supports existing.order_type)) _) _
              (λ e h. inl refl)
              (λ _ supported.
                proceed_ind (IsGuarded _ d) (_, p.instrument_spec existing.instrument) _
                  (λ e h. inl refl)
                  (λ spec rules.
                    proceed_ind (IsGuarded _ d)
                      (_, run_risk_checks o (record inputs { instrument_spec = some spec })) _
                      (λ e h. inl refl)
                      (λ _ passes.
                        proceed_ind (IsGuarded _ d)
                          (
                            _,
                            raise_if
                                (not
                                  (can_place_order halt existing.instrument existing.reduce_only))
                                _,
                          )
                          _ (λ e h. inl refl)
                          (λ _ free.
                            ask-IsGuarded _ p _ _ _ (λ o e. settle-IsQuiet p _ _ _ _ o e)
                              (
                                refl,
                                existing,
                                found-some _ known,
                                spec,
                                rules,
                                record {
                                  type_supported = passed _ _ supported;
                                  risk_passed = passes;
                                  not_halted = passed _ _ free;
                                },
                              )))))))

ask-requests :
    (p : Platform) (r : Request) (rest : OrderResult → Action OrderResult) (d : Desk)
    → ((o : OrderResult) (e : Desk) → IsQuiet e (rest o e))
    → (proceed (ask p r d) rest).0.requests ≡ d.requests ++ r ∷ []
unfolding ask
ask-requests p r rest d quiet =
    proceed_ind (λ run. run.0.requests ≡ d.requests ++ r ∷ []) (ask p r d) rest (λ e h. refl)
      (λ o h. quiet o _)

-- Cancelling an order that the store does not know raises an error and makes no request; cancelling
-- one that it knows makes exactly the request to cancel it, whatever is halted.
pub dispatch_cancel_order_asks :
    (p : Platform) (cid : Ident) (d : Desk)
    → ((get_order cid d.store ≡ none)
        × (dispatch_cancel_order p cid d ≡ (record d { drawn = d.drawn + 1 }, err order_not_found)))
      ⊎ ((existing : OrderRecord) × (get_order cid d.store ≡ some existing)
          × ((dispatch_cancel_order p cid d).0.requests ≡ d.requests ++ cancel_order cid ∷ []))
unfolding dispatch_cancel_order draw fetch
dispatch_cancel_order_asks p cid d = elim (Option-cases (get_order cid d.store)) [
  | inl e ↦ inl (e, rw e refl)
  | inr (existing, e) ↦ inr (
    existing,
    e,
    rw e (ask-requests p (cancel_order cid) _ _ (λ o f. settle-IsQuiet p _ _ _ _ o f)),
  )
]
