-- ===== src/Base/Runs.antt =====
-- Code that changes a state and may raise: what it changed before it raised, stays.
use mathlib.Core.Path.{◌≡◌, refl}
use unified_trading_executio.Base.Results.{Error, Result, ok, err}

abbrev pub Run : Type 0 → Type 0 → Type 0
Run S A = S → S × Result A

-- The rest of the code, after a step that returned or raised.
abbrev pub proceed : {S A B : Type 0} → S × Result A → (A → Run S B) → S × Result B
proceed (s, ok a) rest = rest a s
proceed (s, err e) rest = (s, err e)

-- Code that reads and changes nothing of the state.
abbrev pub pure : {S A : Type 0} → Result A → Run S A
pure r s = (s, r)

-- A change that cannot raise.
abbrev pub update : {S : Type 0} → (S → S) → Run S (Unit {0})
update f s = (f s, ok tt)

-- What a step returns or raises, as a value: `try: … except Exception`.
unfoldable pub attempt : {S A : Type 0} → Run S A → Run S (Result A)
attempt step s = let (t, r) = step s in (t, ok r)

pub proceed_ind {ℓ} :
    {S A B : Type 0} (P : S × Result B → Type ℓ) (run : S × Result A) (rest : A → Run S B)
    → ((e : Error) → run.1 ≡ err e → P (run.0, err e))
    → ((a : A) → run.1 ≡ ok a → P (rest a run.0))
    → P (proceed run rest)
proceed_ind P (s, ok a) rest raised returned = returned a refl
proceed_ind P (s, err e) rest raised returned = raised e refl
