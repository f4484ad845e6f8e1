-- ===== src/Bus/Delivery.antt =====
-- Who is called by a publication (`events/__init__.py`), and how subscribing changes it.
use unified_trading_executio.Base.{
  ℕ, ◌+◌, lookup-insert, ◌≡◌, ap, Bool, ◌&&◌, List, [], ◌∷◌, ◌++◌, if◌then◌else◌, get_or, lookup,
  insert, ℕ_key, ◌==◌, Result, arith, raise_if, value_error, Bool-cases, inl, inr,
}
use unified_trading_executio.Bus.{
  EventType, event_type_key, Callback, EventBus, is_instance, subscribe, remove, unsubscribe,
  call_all, publish,
}

-- How often `c` stands in the list.
abbrev pub times : Callback → List Callback → ℕ
times c [] = 0
times c (x ∷ xs) = if x == c then 1 + times c xs else times c xs

-- How often `c` is subscribed to a type that an event of the class `cls` has.
abbrev pub subscriptions : Callback → (cls : EventType) → EventBus → ℕ
subscriptions c cls [] = 0
subscriptions c cls ((type, cs) ∷ bus) =
    if is_instance cls type then times c cs + subscriptions c cls bus else subscriptions c cls bus

-- A callback that notes its call, and raises if it is one of those that do.
abbrev pub noting :
    (raises : Callback → Bool) → Callback → List Callback → List Callback × Result (Unit {0})
noting raises c log = (log ++ c ∷ [], raise_if (raises c) value_error)

times-append : (c : Callback) (xs ys : List Callback) → times c (xs ++ ys) ≡ times c xs + times c ys
times-append c [] ys = omega arith
times-append c (x ∷ xs) ys = ground (arith, times-append c xs ys)

times-call_all :
    (raises : Callback → Bool) (c : Callback) (cs log : List Callback)
    → times c (call_all (noting raises) cs log) ≡ times c log + times c cs
unfolding call_all
times-call_all raises c [] log = omega arith
times-call_all raises c (x ∷ cs) log =
    ground (arith, times-call_all raises c cs (log ++ x ∷ []), times-append c log (x ∷ []))

-- A publication calls every callback as often as it is subscribed to a class that the event has, no
-- matter which callbacks raise.
pub publish-subscriptions :
    (raises : Callback → Bool) (bus : EventBus) (cls : EventType) (c : Callback)
    (log : List Callback)
    → times c (publish (noting raises) bus cls log) ≡ times c log + subscriptions c cls bus
unfolding publish
publish-subscriptions raises [] cls c log = omega arith
publish-subscriptions raises ((type, cs) ∷ bus) cls c log = ground (
  arith,
  publish-subscriptions raises bus cls c (call_all (noting raises) cs log),
  publish-subscriptions raises bus cls c log,
  times-call_all raises c cs log,
)

-- The calls of `who` for one subscribed type.
abbrev listed : (who : Callback) → (cls type : EventType) → List Callback → ℕ
listed who cls type cs = if is_instance cls type then times who cs else 0

subscriptions-cons :
    (who : Callback) (cls type : EventType) (cs : List Callback) (bus : EventBus)
    → subscriptions who cls ((type, cs) ∷ bus) ≡ listed who cls type cs + subscriptions who cls bus
subscriptions-cons who cls type cs bus = ground arith

-- A new list of callbacks for a type takes the place of the old one in the count.
subscriptions-insert :
    (who : Callback) (cls type : EventType) (new : List Callback) (bus : EventBus)
    → subscriptions who cls (insert type new bus)
        + listed who cls type (get_or (lookup type bus) [])
      ≡ subscriptions who cls bus + listed who cls type new
subscriptions-insert who cls type new [] = ground arith
subscriptions-insert who cls type new ((t, cs) ∷ bus) = elim (Bool-cases (t == type)) [
  | inl same ↦ let e = (event_type_key.beq_iff t type).0 same in rw same (rw e (ground arith))
  | inr other ↦ rw other (ground (arith, subscriptions-insert who cls type new bus))
]

listed-append :
    (who : Callback) (cls type : EventType) (cs : List Callback) (c : Callback)
    → listed who cls type (cs ++ c ∷ [])
      ≡ listed who cls type cs + (if is_instance cls type && who == c then 1 else 0)
listed-append who cls type cs c =
    ground (arith, times-append who cs (c ∷ []), ℕ_key.beq_iff c who, ℕ_key.beq_iff who c)

-- Subscribing adds one subscription of the callback for the events that have the type, and changes
-- no other.
pub subscriptions-subscribe :
    (bus : EventBus) (type cls : EventType) (c who : Callback)
    → subscriptions who cls (subscribe type c bus)
      ≡ subscriptions who cls bus + (if is_instance cls type && who == c then 1 else 0)
unfolding subscribe
subscriptions-subscribe bus type cls c who =
    let old = get_or (lookup type bus) [] in
    omega (
      arith,
      subscriptions-insert who cls type (old ++ c ∷ []) bus,
      listed-append who cls type old c,
    )

times-remove_append :
    (who c : Callback) (cs : List Callback) → times who (remove c (cs ++ c ∷ [])) ≡ times who cs
times-remove_append who c [] = ground (arith, ℕ_key.beq_iff c c)
times-remove_append who c (x ∷ xs) = ground (
  arith,
  ℕ_key.beq_iff x c,
  ℕ_key.beq_iff x who,
  ℕ_key.beq_iff c who,
  times-remove_append who c xs,
  times-append who xs (c ∷ []),
)

listed-remove_append :
    (who : Callback) (cls type : EventType) (c : Callback) (cs : List Callback)
    → listed who cls type (remove c (cs ++ c ∷ [])) ≡ listed who cls type cs
listed-remove_append who cls type c cs = ground (arith, times-remove_append who c cs)

lookup_inserted :
    (type : EventType) (new : List Callback) (bus : EventBus)
    → get_or (lookup type (insert type new bus)) [] ≡ new
lookup_inserted type new bus =
    ground (arith, lookup-insert type type new bus, event_type_key.beq_iff type type)

-- Unsubscribing a callback that was just subscribed leaves every callback as many subscriptions as
-- it had before, for the events of every class.
pub subscriptions-unsubscribe :
    (bus : EventBus) (type cls : EventType) (c who : Callback)
    → subscriptions who cls (unsubscribe type c (subscribe type c bus)) ≡ subscriptions who cls bus
unfolding subscribe unsubscribe
subscriptions-unsubscribe bus type cls c who =
    let old = get_or (lookup type bus) [] in
    let once = insert type (old ++ c ∷ []) bus in
    rw (lookup_inserted type (old ++ c ∷ []) bus) (
      omega (
        arith,
        subscriptions-insert who cls type (old ++ c ∷ []) bus,
        subscriptions-insert who cls type (remove c (old ++ c ∷ [])) once,
        listed-remove_append who cls type c old,
        ap (listed who cls type) (lookup_inserted type (old ++ c ∷ []) bus),
      ))
