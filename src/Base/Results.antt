-- ===== src/Base/Results.antt =====
-- The exceptions that the program raises, as values. Messages are left out.
use mathlib.Core.Path.{◌≡◌, refl}
use mathlib.Core.Logic.{◌↔◌}
use mathlib.Core.Bool.{Bool, true, false}
use mathlib.Core.Option.{Option, none, some}

-- `errors/__init__.py`, and the built-in exceptions that the core lets out.
pub data Error : Type 0 where
  insufficient_balance invalid_symbol market_closed rate_limit order_not_found : Error
  unsupported_order_type invalid_order duplicate_order_id : Error
  platform_connection account_changed instrument_halted account_halted : Error
  engine_shutdown reconciliation_error : Error
  trailing_not_supported trailing_state platform_error : Error
  value_error type_error division_error integrity_error not_implemented : Error

-- What a call that may raise gives back.
pub data Result {ι} (R : Type ι) : Type ι where
  err : (raised : Error) → Result R
  ok : (value : R) → Result R

-- `if condition: raise error`
abbrev pub raise_if : (condition : Bool) → Error → Result (Unit {0})
raise_if false raised = ok tt
raise_if true raised = err raised

infixl 5 ◌>>=◌
abbrev pub ◌>>=◌ {ι ρ} : {R : Type ι} {S : Type ρ} → Result R → (R → Result S) → Result S
err raised >>= next = err raised
ok value >>= next = next value

-- A call for its exceptions alone, and then the rest.
infixl 5 ◌>>◌
abbrev pub ◌>>◌ {ρ} : {S : Type ρ} → Result (Unit {0}) → Result S → Result S
call >> rest = call >>= λ _. rest

-- `if value is not None: f(value)`
abbrev pub check_some {ι} : {R : Type ι} → Option R → (R → Result (Unit {0})) → Result (Unit {0})
check_some (some value) f = f value
check_some none f = ok tt

-- Two calls in a row return only if both do.
pub >>=-eq-ok {ι ρ} :
    {R : Type ι} {S : Type ρ} (call : Result R) (next : R → Result S) {out : S}
    → (call >>= next) ≡ ok out
    → (value : R) × (call ≡ ok value) × (next value ≡ ok out)
>>=-eq-ok (err raised) next e = cc
>>=-eq-ok (ok value) next e = (value, refl, e)

-- A chain of checks passes exactly when each of them does.
pub seq_iff {ℓ κ} :
    {P : Type ℓ} {Q : Type κ} (m k : Result (Unit {0}))
    → ((m ≡ ok tt) ↔ P)
    → ((k ≡ ok tt) ↔ Q)
    → ((m >> k) ≡ ok tt) ↔ (P × Q)
seq_iff (ok tt) k p q = ((λ h. (p.0 refl, q.0 h)), (λ h. q.1 h.1))
seq_iff (err e) k p q = ((λ h. cc), (λ h. cc (p.1 h.0)))
