-- ===== src/Base/Dicts.antt =====
-- A Python dict: an association list in insertion order, over any type of keys.
use mathlib.Core.Path.{◌≡◌, refl, sym, subst}
use mathlib.Core.Logic.{◌≢◌, inl, inr}
use mathlib.Core.Bool.{Bool}
use mathlib.Core.Option.{Option, none, some}
use mathlib.Core.List.{List, [], ◌∷◌}
use native.Mathlib.Omega.{arith}
use unified_trading_executio.Base.Tests.{Bool-cases, if◌then◌else◌, is_some}
use unified_trading_executio.Base.Keys.{Key, ◌==◌}

abbrev pub Dict {ℓ κ} : Type ℓ → Type κ → Type (ℓ ⊔ κ)
Dict K V = List (K × V)

module _ {ℓ κ} {K : Type ℓ} {V : Type κ} ⦃e : Key K⦄ where
  -- `d.get(k)`
  abbrev pub lookup : K → Dict K V → Option V
  lookup k [] = none
  lookup k ((j, v) ∷ d) = if j == k then some v else lookup k d

  -- `k in d`
  abbrev pub contains : K → Dict K V → Bool
  contains k d = is_some (lookup k d)

  -- `d[k] = v`
  abbrev pub insert : K → V → Dict K V → Dict K V
  insert k v [] = (k, v) ∷ []
  insert k v ((j, w) ∷ d) = if j == k then (j, v) ∷ d else (j, w) ∷ insert k v d

  -- `del d[k]`, and `d.pop(k, None)`
  abbrev pub erase : K → Dict K V → Dict K V
  erase k [] = []
  erase k ((j, w) ∷ d) = if j == k then d else (j, w) ∷ erase k d

  -- No key is listed twice.
  abbrev pub IsDict : Dict K V → Type κ
  IsDict [] = Unit
  IsDict ((j, _) ∷ d) = (lookup j d ≡ none) × IsDict d

  pub lookup-insert :
      (k j : K) (v : V) (d : Dict K V)
      → lookup j (insert k v d) ≡ (if k == j then some v else lookup j d)
  lookup-insert k j v [] = refl
  lookup-insert k j v ((i, w) ∷ d) =
      ground (arith, e.beq_iff k j, e.beq_iff i k, e.beq_iff i j, lookup-insert k j v d)

  pub lookup-erase_ne : (k j : K) (d : Dict K V) → k ≢ j → lookup j (erase k d) ≡ lookup j d
  lookup-erase_ne k j [] h = refl
  lookup-erase_ne k j ((i, w) ∷ d) h =
      ground (arith, e.beq_iff i k, e.beq_iff i j, lookup-erase_ne k j d h)

  pub lookup-erase_self : (k : K) (d : Dict K V) → IsDict d → lookup k (erase k d) ≡ none
  lookup-erase_self k [] h = refl
  lookup-erase_self k ((i, w) ∷ d) h = ground (arith, e.beq_iff i k, lookup-erase_self k d h.1)

  pub insert-IsDict : (k : K) (v : V) (d : Dict K V) → IsDict d → IsDict (insert k v d)
  insert-IsDict k v [] h = (refl, tt)
  insert-IsDict k v ((i, w) ∷ d) h =
      ground (arith, e.beq_iff i k, e.beq_iff k i, insert-IsDict k v d h.1, lookup-insert k i v d)

  pub erase-IsDict : (k : K) (d : Dict K V) → IsDict d → IsDict (erase k d)
  erase-IsDict k [] h = tt
  erase-IsDict k ((i, w) ∷ d) h =
      ground (arith, e.beq_iff i k, erase-IsDict k d h.1, lookup-erase_ne k i d)

  -- Every entry of a dictionary satisfies `P`.
  abbrev pub Entries {μ} : (K → V → Type μ) → Dict K V → Type μ
  Entries P [] = Unit
  Entries P ((j, w) ∷ d) = P j w × Entries P d

  pub Entries-insert {μ} :
      (P : K → V → Type μ) (k : K) (v : V) (d : Dict K V)
      → P k v
      → Entries P d
      → Entries P (insert k v d)
  Entries-insert P k v [] p h = (p, tt)
  Entries-insert P k v ((j, w) ∷ d) p h = elim (Bool-cases (j == k)) [
    | inl same ↦ rw same (subst (λ x. P x v) (sym ((e.beq_iff j k).0 same)) p, h.1)
    | inr other ↦ rw other (h.0, Entries-insert P k v d p h.1)
  ]

  pub Entries-erase {μ} :
      (P : K → V → Type μ) (k : K) (d : Dict K V) → Entries P d → Entries P (erase k d)
  Entries-erase P k [] h = tt
  Entries-erase P k ((j, w) ∷ d) h = elim (Bool-cases (j == k)) [
    | inl same ↦ rw same h.1
    | inr other ↦ rw other (h.0, Entries-erase P k d h.1)
  ]

  pub Entries-lookup {μ} :
      (P : K → V → Type μ) (k : K) {v : V} (d : Dict K V)
      → Entries P d
      → lookup k d ≡ some v
      → P k v
  Entries-lookup P k [] h found = cc
  Entries-lookup P k {v} ((j, w) ∷ d) h found = elim (Bool-cases (j == k)) [
    | inl same ↦
        let f : some w ≡ some v = rw same at found in
        let eq : w ≡ v = cc in subst (λ x. P x v) ((e.beq_iff j k).0 same) (subst (P j) eq h.0)
    | inr other ↦ Entries-lookup P k d h.1 (rw other at found)
  ]
