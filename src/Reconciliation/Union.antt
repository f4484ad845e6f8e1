-- ===== src/Reconciliation/Union.antt =====
-- Lists of keys: what holds of all keys that differ, holds of every key.
use unified_trading_executio.Base.{
  ◌≡◌, ◌↔◌, refl, subst, Bool, true, false, not, Option, none, List, [], ◌∷◌, map, select, is_empty,
  All, All-split, ◌⊎◌, Bool-cases, Option-cases, inl, inr, Dict, lookup, contains, Key, ◌==◌, arith,
}
use unified_trading_executio.Decimal.{Decimal, eqb_ℤ, eq_of_parts}
use unified_trading_executio.Reconciliation.{keys, union_keys, differing}

pub eqb_ℤ_iff : (a b : Decimal) → (eqb_ℤ a b ≡ true) ↔ (a ≡ b)
eqb_ℤ_iff a b = ((λ h. eq_of_parts a b (ground arith)), (λ h. ground arith))

module _ {ℓ} {A : Type ℓ} where
  -- A filter lets nothing through exactly when its test fails everywhere.
  pub is_empty-select :
      (p : A → Bool) (xs : List A) → (is_empty (select p xs) ≡ true) ↔ All (λ x. p x ≡ false) xs
  is_empty-select p [] = ((λ h. tt), (λ h. refl))
  is_empty-select p (x ∷ xs) = elim (Bool-cases (p x)) [
    | inl e ↦ ((λ h. cc (rw e at h)), (λ h. cc (h.0)))
    | inr e ↦
        let rest = is_empty-select p xs in
        ((λ h. (e, rest.0 (rw e at h))), (λ h. rw e (rest.1 h.1)))
  ]

  All-select {κ} :
      (P : A → Type κ) (q : A → Bool) (xs : List A)
      → All P (select q xs)
      → All (λ x. q x ≡ true → P x) xs
  All-select P q [] h = tt
  All-select P q (x ∷ xs) h = elim (Bool-cases (q x)) [
    | inl e ↦ let g = rw e at h in ((λ _. g.0), All-select P q xs g.1)
    | inr e ↦ ((λ c. cc), All-select P q xs (rw e at h))
  ]

  pub All-intro {κ} : (P : A → Type κ) → ((x : A) → P x) → (xs : List A) → All P xs
  All-intro P h [] = tt
  All-intro P h (x ∷ xs) = (h x, All-intro P h xs)

All-imp {ℓ κ μ} :
    {A : Type ℓ} {P : A → Type κ} {Q : A → Type μ}
    → ((x : A) → P x → Q x)
    → (xs : List A) → All P xs
    → All Q xs
All-imp f [] h = tt
All-imp f (x ∷ xs) h = (f x h.0, All-imp f xs h.1)

held_of : (b : Bool) → not b ≡ false → b ≡ true
held_of true h = refl
held_of false h = cc

not_missing : (b : Bool) → b ≡ true → not b ≡ false
not_missing true h = refl
not_missing false h = cc

pub is_empty-map {ℓ κ} :
    {A : Type ℓ} {B : Type κ} (f : A → B) (xs : List A) → is_empty (map f xs) ≡ is_empty xs
is_empty-map f [] = refl
is_empty-map f (x ∷ xs) = refl

module _ {ℓ κ} {K : Type ℓ} {V : Type κ} ⦃e : Key K⦄ where
  keys-All {μ} :
      (P : K → Type μ) (d : Dict K V) → All P (keys d) → (k : K) → contains k d ≡ true → P k
  keys-All P [] h k c = cc
  keys-All P ((j, v) ∷ d) h k c = elim (Bool-cases (j == k)) [
    | inl same ↦ subst P ((e.beq_iff j k).0 same) h.0
    | inr other ↦ keys-All P d h.1 k (rw other at c)
  ]

  lookup-none : (k : K) (d : Dict K V) → contains k d ≡ false → lookup k d ≡ none
  lookup-none k d h = elim (Option-cases (lookup k d)) [ inl e ↦ e | inr (v, e) ↦ cc ]

  -- The test of `differing` for one key.
  abbrev differs : (amount : Option V → Decimal) → (a b : Dict K V) → K → Bool
  differs amount a b k = not (eqb_ℤ (amount (lookup k a)) (amount (lookup k b)))

  agree_of :
      (amount : Option V → Decimal) (a b : Dict K V) (k : K)
      → differs amount a b k ≡ false
      → amount (lookup k a) ≡ amount (lookup k b)
  agree_of amount a b k h = (eqb_ℤ_iff (amount (lookup k a)) (amount (lookup k b))).0 (ground arith)

  differs_not :
      (amount : Option V → Decimal) (a b : Dict K V) (k : K)
      → amount (lookup k a) ≡ amount (lookup k b)
      → differs amount a b k ≡ false
  differs_not amount a b k h =
      let same = (eqb_ℤ_iff (amount (lookup k a)) (amount (lookup k b))).1 h in ground arith

  union-All {μ} :
      (P : K → Type μ) (a b : Dict K V)
      → All P (union_keys a b)
      → (k : K) → ((lookup k a ≡ none) × (lookup k b ≡ none)) ⊎ P k
  union-All P a b h k =
      let (in_a, in_b) = All-split P (keys a) (select (λ j. not (contains j a)) (keys b)) h in
      elim (Bool-cases (contains k a)) [
        | inl c ↦ inr (keys-All P a in_a k c)
        | inr na ↦ elim (Bool-cases (contains k b)) [
          | inl c ↦ inr (
              keys-All (λ j. not (contains j a) ≡ true → P j) b
                (All-select P (λ j. not (contains j a)) (keys b) in_b) k c (rw na refl))
          | inr nb ↦ inl (lookup-none k a na, lookup-none k b nb)
        ]
      ]

  -- The amounts agree under every key exactly when no key is listed as differing.
  pub differing_empty_iff :
      (amount : Option V → Decimal) (a b : Dict K V)
      → (is_empty (differing amount a b) ≡ true)
        ↔ ((k : K) → amount (lookup k a) ≡ amount (lookup k b))
  differing_empty_iff amount a b =
      let tested = is_empty-select (differs amount a b) (union_keys a b) in
      (
        (λ h k. elim (union-All (λ j. differs amount a b j ≡ false) a b (tested.0 h) k) [
          | inl (na, nb) ↦ rw (na, nb) refl
          | inr same ↦ agree_of amount a b k same
        ]),
        (λ h. tested.1 (All-intro _ (λ k. differs_not amount a b k (h k)) (union_keys a b))),
      )

  key_held : (k : K) (v : V) (d : Dict K V) → contains k ((k, v) ∷ d) ≡ true
  key_held k v d = ground (arith, e.beq_iff k k)

  key_kept : (j k : K) (v : V) (d : Dict K V) → contains k d ≡ true → contains k ((j, v) ∷ d) ≡ true
  key_kept j k v d h = ground arith

  keys_contained : (d : Dict K V) → All (λ k. contains k d ≡ true) (keys d)
  keys_contained [] = tt
  keys_contained ((j, v) ∷ d) =
      (key_held j v d, All-imp (λ k. key_kept j k v d) (keys d) (keys_contained d))

  -- No key of `a` is missing in `b`.
  pub missing_empty_iff :
      (a b : Dict K V)
      → (is_empty (select (λ k. not (contains k b)) (keys a)) ≡ true)
        ↔ ((k : K) → contains k a ≡ true → contains k b ≡ true)
  missing_empty_iff a b =
      let tested = is_empty-select (λ k. not (contains k b)) (keys a) in
      (
        (λ h k c.
            held_of (contains k b) (keys-All (λ j. not (contains j b) ≡ false) a (tested.0 h) k c)),
        (λ h.
            tested.1
              (All-imp (λ k c. not_missing (contains k b) (h k c)) (keys a) (keys_contained a))),
      )
