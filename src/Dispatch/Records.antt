-- ===== src/Dispatch/Records.antt =====
-- What a dispatch that returns has recorded (`dispatch/__init__.py`): the row of the store, the
-- event and the audit event.
use unified_trading_executio.Base.{◌≡◌, not, some, [], ◌∷◌, ◌++◌, ok, raise_if, ℕ_key}
use unified_trading_executio.Types.{
  Ident, UnifiedOrder, OrderModification, OrderResult, OrderRecord, check_order,
}
use unified_trading_executio.Risk.{RiskInputs, run_risk_checks}
use unified_trading_executio.Halt.{HaltStateMachine, can_place_order}
use unified_trading_executio.Store.{placed, modified, cancelled, get_order}
use unified_trading_executio.Dispatch.Events.{
  place_order, modify_order, cancel_order, Platform, order_placed, order_modified, order_cancelled,
  Desk,
}
use unified_trading_executio.Dispatch.Actions.{draw}
use unified_trading_executio.Dispatch.Operations.{
  found, check_supported, check_halt, fetch, placed_record, answered_record, modified_record,
  dispatch_place_order, would_be_order, check_now, dispatch_modify_order, dispatch_cancel_order,
}
use unified_trading_executio.Dispatch.Guards.{identified, identify_lem, found-some}
use unified_trading_executio.Dispatch.Settlement.{
  IsSettled, Returns, Returns-elim, proceed-Returns, asked-Returns,
}

-- The order was placed in a run from `d` to `d'`.
abbrev pub IsPlaced : Platform → UnifiedOrder → Desk → Desk → OrderResult → Type 0
IsPlaced p order d d' result =
    (c : Ident) × let o = identified p order d in
      let r = placed_record o c result in
      (p.answer d.requests (place_order o) ≡ ok result)
      × (d'.requests ≡ d.requests ++ place_order o ∷ [])
      × IsSettled c r (λ s. order_placed s r)
          (placed result.client_order_id result.platform_order_id result.status) d.store d.published
          d'

place-Returns :
    (p : Platform) (inputs : RiskInputs) (halt : HaltStateMachine) (order : UnifiedOrder) (d : Desk)
    → Returns (IsPlaced p order d) (dispatch_place_order p inputs halt order d)
unfolding dispatch_place_order check_supported check_halt draw
place-Returns p inputs halt order d =
    let (n, named) = identify_lem p order d in
    proceed-Returns (IsPlaced p order d) (d, raise_if (not (p.supports order.order_type)) _) _
      λ _ _. rw named (
        proceed-Returns (IsPlaced p order d) (_, run_risk_checks _ inputs) _
          λ _ _.
            proceed-Returns (IsPlaced p order d)
              (_, raise_if (not (can_place_order halt order.instrument order.reduce_only)) _) _
              λ _ _.
                asked-Returns (IsPlaced p order d) p _ _ _ (λ result. placed_record _ _ result)
                  (λ result s. order_placed s (placed_record _ _ result))
                  (λ result. placed result.client_order_id result.platform_order_id result.status)
                  (λ result d' answered asked settled. (_, (answered, asked, settled))))

-- If placing returns, the adapter was asked once, for the order under the id that it was given or,
-- only where it has none, the new one that is drawn, and it answered what is returned; the record of the two was stored under the id of the answer and added
-- to the history, and one event with that record and one audit event were written, with one
-- correlation id.
pub dispatch_place_order_records :
    (p : Platform) (inputs : RiskInputs) (halt : HaltStateMachine) (order : UnifiedOrder)
    (d d' : Desk) {result : OrderResult}
    → dispatch_place_order p inputs halt order d ≡ (d', ok result)
    → IsPlaced p order d d' result
dispatch_place_order_records p inputs halt order d d' h =
    Returns-elim (IsPlaced p order d) (place-Returns p inputs halt order d) h

-- The order was modified in a run from `d` to `d'`.
abbrev pub IsModified : Platform → OrderModification → Desk → Desk → OrderResult → Type 0
IsModified p m d d' result =
    (existing : OrderRecord) × (c : Ident) × let r = modified_record existing m result in
      (get_order m.client_order_id d.store ≡ some existing)
      × (p.answer d.requests (modify_order m) ≡ ok result)
      × (d'.requests ≡ d.requests ++ modify_order m ∷ [])
      × IsSettled c r (λ s. order_modified s r existing) (modified m.client_order_id) d.store
          d.published d'

modify-Returns :
    (p : Platform) (inputs : RiskInputs) (halt : HaltStateMachine) (m : OrderModification)
    (d : Desk)
    → Returns (IsModified p m d) (dispatch_modify_order p inputs halt m d)
unfolding dispatch_modify_order check_supported check_halt draw fetch check_now would_be_order
modify-Returns p inputs halt m d =
    let Q = IsModified p m d in
    proceed-Returns Q (d, found (get_order m.client_order_id d.store)) _
      λ existing known.
        let o = would_be_order existing m in
        proceed-Returns Q (_, check_order _ o) _
          λ _ _.
            proceed-Returns Q (_, raise_if (not (p.supports existing.order_type)) _) _
              λ _ _.
                proceed-Returns Q (_, p.instrument_spec existing.instrument) _
                  λ spec _.
                    proceed-Returns Q
                      (_, run_risk_checks o (record inputs { instrument_spec = some spec })) _
                      λ _ _.
                        proceed-Returns Q
                          (
                            _,
                            raise_if
                                (not
                                  (can_place_order halt existing.instrument existing.reduce_only))
                                _,
                          )
                          _
                          λ _ _.
                            asked-Returns Q p _ _ _ (λ result. modified_record existing m result)
                              (λ result s.
                                order_modified s (modified_record existing m result) existing)
                              (λ result. modified m.client_order_id)
                              (λ result d' answered asked settled.
                                (existing, _, (found-some _ known, answered, asked, settled)))

-- If modifying returns, the adapter was asked once, for the modification, and it answered what is
-- returned; the record that was in the store, with the modification and the answer, was stored and
-- added to the history, and one event with both records and one audit event were written, with one
-- correlation id.
pub dispatch_modify_order_records :
    (p : Platform) (inputs : RiskInputs) (halt : HaltStateMachine) (m : OrderModification)
    (d d' : Desk) {result : OrderResult}
    → dispatch_modify_order p inputs halt m d ≡ (d', ok result)
    → IsModified p m d d' result
dispatch_modify_order_records p inputs halt m d d' h =
    Returns-elim (IsModified p m d) (modify-Returns p inputs halt m d) h

-- The order was cancelled in a run from `d` to `d'`.
abbrev pub IsCancelled : Platform → Ident → Desk → Desk → OrderResult → Type 0
IsCancelled p cid d d' result =
    (existing : OrderRecord) × (c : Ident) × ((get_order cid d.store ≡ some existing)
      × (p.answer d.requests (cancel_order cid) ≡ ok result)
      × (d'.requests ≡ d.requests ++ cancel_order cid ∷ [])
      × IsSettled c (answered_record existing result)
          (λ s. order_cancelled s cid existing.instrument) (cancelled cid) d.store d.published d')

cancel-Returns :
    (p : Platform) (cid : Ident) (d : Desk)
    → Returns (IsCancelled p cid d) (dispatch_cancel_order p cid d)
unfolding dispatch_cancel_order draw fetch
cancel-Returns p cid d =
    let Q = IsCancelled p cid d in
    proceed-Returns Q (_, found (get_order cid d.store)) _
      λ existing known.
        asked-Returns Q p _ _ _ (λ result. answered_record existing result)
          (λ result s. order_cancelled s cid existing.instrument) (λ result. cancelled cid)
          (λ result d' answered asked settled.
            (existing, _, (found-some _ known, answered, asked, settled)))

-- If cancelling returns, the adapter was asked once, and it answered what is returned; the record
-- that was in the store, with the answer, was stored and added to the history, and one event and one
-- audit event were written, with one correlation id.
pub dispatch_cancel_order_records :
    (p : Platform) (cid : Ident) (d d' : Desk) {result : OrderResult}
    → dispatch_cancel_order p cid d ≡ (d', ok result)
    → IsCancelled p cid d d' result
dispatch_cancel_order_records p cid d d' h =
    Returns-elim (IsCancelled p cid d) (cancel-Returns p cid d) h
