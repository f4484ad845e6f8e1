-- ===== src/Dispatch/Settlement.antt =====
-- The end of a dispatch (`dispatch/__init__.py`): the row of the store, the event and the audit event
-- that are written once the adapter has answered.
use unified_trading_executio.Base.{
  proceed_ind, ◌≡◌, refl, sym, ap, subst, ◌∙◌, Bool, true, false, List, [], ◌∷◌, ◌++◌, Result, ◌>>◌,
  ok, err, raise_if, insert, ℕ_key, Error,
}
use unified_trading_executio.Types.{Ident, OrderResult, OrderRecord, check_record}
use unified_trading_executio.Store.{
  Stamp, AuditEvent, AuditPayload, StateStore, stored_order, upsert_order, write_audit_event,
}
use unified_trading_executio.Dispatch.Events.{Request, Platform, Event, Desk}
use unified_trading_executio.Dispatch.Actions.{Action, proceed, stamp, ask}
use unified_trading_executio.Dispatch.Operations.{keep_store, audit, settle}
use unified_trading_executio.Dispatch.Guards.{settle-IsQuiet}

proceed-eq-ok :
    {A B : Type 0} (run : Desk × Result A) (rest : A → Action B) {d : Desk} {b : B}
    → proceed run rest ≡ (d, ok b)
    → (a : A) × (run.1 ≡ ok a) × (rest a run.0 ≡ (d, ok b))
proceed-eq-ok (d, ok a) rest h = (a, refl, h)
proceed-eq-ok (d, err e) rest h = cc

-- Since the store and the events were as given, until `d'`, the record was stored and added to the history, one event was published, and one
-- audit event written, both with the correlation id `c`.
pub record IsSettled (c : Ident) (r : OrderRecord) (event : Stamp → Event) (payload : AuditPayload)
    (store : StateStore) (events : List Event) (d' : Desk) : Type 0 where
  pub stored : d'.store.orders ≡ insert r.client_order_id (stored_order r) store.orders
  pub history : d'.store.order_history ≡ store.order_history ++ stored_order r ∷ []
  pub published : (s : Stamp) × (s.correlation_id ≡ c) × (d'.published ≡ events ++ event s ∷ [])
  pub audited :
      (s : Stamp) × (s.correlation_id ≡ c)
      × (d'.store.audit_events ≡ store.audit_events ++ record { stamp = s; payload = payload } ∷ [])

ok_injective : {A : Type 0} {a b : A} → ok a ≡ ok b → a ≡ b
ok_injective h = cc

kept-ok :
    (refused : Bool) (e : Error) (s : StateStore) (d : Desk) {u : Unit {0}}
    → (keep_store d (raise_if refused e >> ok s)).1 ≡ ok u
    → (keep_store d (raise_if refused e >> ok s)).0 ≡ record d { store = s }
kept-ok true e s d h = cc
kept-ok false e s d h = refl

audit-ok :
    (a : AuditEvent) (d : Desk) {u : Unit {0}}
    → (audit a d).1 ≡ ok u
    → (audit a d).0
      ≡ record d { store = record (d.store) { audit_events = d.store.audit_events ++ a ∷ [] } }
unfolding audit write_audit_event
audit-ok a d h = kept-ok _ _ _ d h

settle-IsSettled :
    (p : Platform) (c : Ident) (r : OrderRecord) (event : Stamp → Event) (payload : AuditPayload)
    (result : OrderResult) (d d' : Desk) {out : OrderResult}
    → settle p c r event payload result d ≡ (d', ok out)
    → IsSettled c r event payload d.store d.published d'
      × (out ≡ result)
      × (d'.requests ≡ d.requests)
unfolding settle stamp upsert_order
settle-IsSettled p c r event payload result d d' h =
    let (_, valid, h1) = proceed-eq-ok (d, check_record r) _ h in
    let (_, wrote, h2) = proceed-eq-ok (audit _ _) _ h1 in
    let e = sym (audit-ok _ _ wrote) ∙ ap (λ x. x.0) h2 in
    (
      subst (IsSettled c r event payload d.store d.published) e (record {
        stored = refl;
        history = refl;
        published = (_, refl, refl);
        audited = (_, refl, refl);
      }),
      ok_injective (sym (ap (λ x. x.1) h2)),
      ap (λ x. x.0.requests) (sym h) ∙ settle-IsQuiet p c r event payload result d,
    )

-- What holds of a run if it returns.
abbrev pub Returns : (Desk → OrderResult → Type 0) → Desk × Result OrderResult → Type 0
Returns Q (d, ok out) = Q d out
Returns Q (d, err e) = Unit

Returns-intro :
    (Q : Desk → OrderResult → Type 0) (run : Desk × Result OrderResult)
    → ((d : Desk) (out : OrderResult) → run ≡ (d, ok out) → Q d out)
    → Returns Q run
Returns-intro Q (d, ok out) h = h d out refl
Returns-intro Q (d, err e) h = tt

pub Returns-elim :
    (Q : Desk → OrderResult → Type 0) {run : Desk × Result OrderResult} {d : Desk}
    {out : OrderResult}
    → Returns Q run
    → run ≡ (d, ok out)
    → Q d out
Returns-elim Q h e = subst (Returns Q) e h

pub proceed-Returns :
    {A : Type 0} (Q : Desk → OrderResult → Type 0) (run : Desk × Result A)
    (rest : A → Action OrderResult)
    → ((a : A) → run.1 ≡ ok a → Returns Q (rest a run.0))
    → Returns Q (proceed run rest)
proceed-Returns Q run rest returned = proceed_ind (Returns Q) run rest (λ e h. tt) returned

-- The end of a dispatch that began at `d`: the answer of the adapter to the request `r`, and what is
-- settled with it.
pub asked-Returns :
    (Q : Desk → OrderResult → Type 0) (p : Platform) (c : Ident) (r : Request) (d : Desk)
    (row : OrderResult → OrderRecord) (event : OrderResult → Stamp → Event)
    (payload : OrderResult → AuditPayload)
    → ((result : OrderResult) (d' : Desk)
        → p.answer d.requests r ≡ ok result
        → d'.requests ≡ d.requests ++ r ∷ []
        → IsSettled c (row result) (event result) (payload result) d.store d.published d'
        → Q d' result)
    → Returns Q (
        proceed
          (ask p r d)
          λ result. settle p c (row result) (event result) (payload result) result)
unfolding ask
asked-Returns Q p c r d row event payload last = proceed-Returns Q (ask p r d) _ λ result answered.
    Returns-intro Q (settle p c (row result) (event result) (payload result) result _) λ d' out h.
      let (settled, same, quiet) =
        settle-IsSettled p c (row result) (event result) (payload result) result _ d' h in
      subst (Q d') (sym same) (last result d' answered quiet settled)
