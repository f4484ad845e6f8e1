-- ===== src/Base/Keys.antt =====
-- Keys of dictionaries and sets: a type with a Boolean equality test that is right.
use Prim.Native.Nat.{ℕ}
use mathlib.Core.Path.{◌≡◌, refl}
use mathlib.Core.Logic.{◌↔◌}
use mathlib.Core.Bool.{Bool, true, false}
use unified_trading_executio.Base.Tests.{nat_eqb, nat_eqb_iff}

pub record Key {κ} (K : Type κ) : Type κ where
  -- `j == k`
  pub beq : K → K → Bool
  pub beq_iff : (j k : K) → (beq j k ≡ true) ↔ (j ≡ k)

infix 50 ◌==◌
abbrev pub ◌==◌ {κ} : {K : Type κ} ⦃keys : Key K⦄ → K → K → Bool
◌==◌ ⦃keys⦄ = keys.beq

instance abbrev pub ℕ_key : Key ℕ
ℕ_key = record { beq = nat_eqb; beq_iff = nat_eqb_iff }

-- A decided equality as a Boolean test.
abbrev pub of_dec {ℓ} : {A : Type ℓ} → Dec A → Bool
of_dec (yes _) = true
of_dec (no _) = false

pub of_dec_iff {ℓ} : {A : Type ℓ} (d : Dec A) → (of_dec d ≡ true) ↔ A
of_dec_iff (yes a) = ((λ _. a), (λ _. refl))
of_dec_iff (no n) = ((λ e. cc), (λ a. absurd (n a)))

abbrev pub key_of_discrete {ℓ} : {A : Type ℓ} → Discrete A → Key A
key_of_discrete d = record { beq = λ a b. of_dec (d a b); beq_iff = λ a b. of_dec_iff (d a b) }
