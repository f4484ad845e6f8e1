-- ===== src/Trailing/Ratchet.antt =====
-- The ratchet, the best basis and the minimum distance of `trailing/math.py`: a stop only ever
-- tightens.
use unified_trading_executio.Base.{
  ◌≡◌, refl, ◌↔◌, inl, inr, true, false, Option, none, some, List, [], ◌∷◌, All, arith,
  if◌then◌else◌, Bool-cases,
}
use unified_trading_executio.Decimal.{Decimal, ◌<ℤ◌}
use unified_trading_executio.Types.{OrderSide, buy, sell}
use unified_trading_executio.Trailing.{update_best_basis, ratchet_accepts, ahead}
use unified_trading_executio.Trailing.Candidate.{Improves}

-- `b` is strictly more favourable than `a`.
abbrev pub Tightens : OrderSide → (a b : Decimal) → Type 0
Tightens buy a b = a <ℤ b
Tightens sell a b = b <ℤ a

abbrev pub Clears : OrderSide → (current c : Decimal) → Option Decimal → Type 0
Clears side current c none = Unit
Clears side current c (some step) = Improves side (ahead side current step) c

abbrev pub IsAccepted : OrderSide → Option Decimal → (c : Decimal) → Option Decimal → Type 0
IsAccepted side none c step = Unit
IsAccepted side (some stop) c step = Tightens side stop c × Clears side stop c step

-- The ratchet accepts a candidate exactly when there is no stop yet, or the candidate is strictly
-- tighter than the stop and at least a step ahead of it.
pub ratchet_accepts_iff :
    (side : OrderSide) (current : Option Decimal) (c : Decimal) (step : Option Decimal)
    → (ratchet_accepts side current c step ≡ true) ↔ IsAccepted side current c step
unfolding ratchet_accepts
ratchet_accepts_iff side none c step = (λ h. tt, λ h. refl)
ratchet_accepts_iff buy (some stop) c none = (λ h. ground arith, λ h. ground arith)
ratchet_accepts_iff buy (some stop) c (some step) = (λ h. ground arith, λ h. ground arith)
ratchet_accepts_iff sell (some stop) c none = (λ h. ground arith, λ h. ground arith)
ratchet_accepts_iff sell (some stop) c (some step) = (λ h. ground arith, λ h. ground arith)

Improves-trans :
    (side : OrderSide) (a b c : Decimal) → Improves side a b → Improves side b c → Improves side a c
Improves-trans buy a b c h k = omega arith
Improves-trans sell a b c h k = omega arith

Improves-refl : (side : OrderSide) (a : Decimal) → Improves side a a
Improves-refl buy a = omega arith
Improves-refl sell a = omega arith

-- The best basis over a sequence of samples.
unfoldable pub best_of : OrderSide → Option Decimal → List Decimal → Option Decimal
best_of side best [] = best
best_of side best (b ∷ bs) = best_of side (some (update_best_basis side best b)) bs

update_best_basis-Improves :
    (side : OrderSide) (best b : Decimal)
    → Improves side best (update_best_basis side (some best) b)
      × Improves side b (update_best_basis side (some best) b)
unfolding update_best_basis
update_best_basis-Improves buy best b = ground arith
update_best_basis-Improves sell best b = ground arith

-- The stop after a sequence of candidates, each adopted if the ratchet accepts it.
unfoldable pub follow :
    OrderSide → (step : Option Decimal) → Option Decimal → List Decimal → Option Decimal
follow side step current [] = current
follow side step current (c ∷ cs) =
    follow side step (if ratchet_accepts side current c step then some c else current) cs

-- A stop that is at least as tight as `stop`.
abbrev pub Holds : OrderSide → Decimal → Option Decimal → Type 0
Holds side stop none = ⊥
Holds side stop (some s) = Improves side stop s

Tightens-Improves : (side : OrderSide) (a b : Decimal) → Tightens side a b → Improves side a b
Tightens-Improves buy a b h = omega arith
Tightens-Improves sell a b h = omega arith

adopt_keeps :
    (side : OrderSide) (step : Option Decimal) (stop c : Decimal) (current : Option Decimal)
    → Holds side stop current
    → Holds side stop (if ratchet_accepts side current c step then some c else current)
adopt_keeps side step stop c none h = absurd h
adopt_keeps side step stop c (some s) h = elim (Bool-cases (ratchet_accepts side (some s) c step)) [
  | inl taken ↦ rw taken (
      Improves-trans side stop s c h
        (Tightens-Improves side s c ((ratchet_accepts_iff side (some s) c step).0 taken).0))
  | inr left ↦ rw left h
]

follow-Holds_from :
    (side : OrderSide) (step : Option Decimal) (stop : Decimal) (cs : List Decimal)
    (current : Option Decimal)
    → Holds side stop current
    → Holds side stop (follow side step current cs)
unfolding follow
follow-Holds_from side step stop [] current h = h
follow-Holds_from side step stop (c ∷ cs) current h =
    follow-Holds_from side step stop cs _ (adopt_keeps side step stop c current h)

-- Whatever candidates the ratchet is offered, and whatever the step, a stop is never lost and never
-- loosened.
pub follow-Holds :
    (side : OrderSide) (step : Option Decimal) (stop : Decimal) (cs : List Decimal)
    → Holds side stop (follow side step (some stop) cs)
follow-Holds side step stop cs =
    follow-Holds_from side step stop cs (some stop) (Improves-refl side stop)

-- Without a step the ratchet refuses a candidate only if the stop is as tight.
refused :
    (side : OrderSide) (s c : Decimal)
    → ratchet_accepts side (some s) c none ≡ false
    → Improves side c s
unfolding ratchet_accepts
refused buy s c h = ground arith
refused sell s c h = ground arith

adopt-Holds :
    (side : OrderSide) (current : Option Decimal) (c : Decimal)
    → Holds side c (if ratchet_accepts side current c none then some c else current)
adopt-Holds side none c = unfold ratchet_accepts in Improves-refl side c
adopt-Holds side (some s) c = elim (Bool-cases (ratchet_accepts side (some s) c none)) [
  | inl taken ↦ rw taken (Improves-refl side c)
  | inr left ↦ rw left (refused side s c left)
]

-- Without a step the stop is in the end at least as tight as every candidate that was offered.
pub follow_tightest :
    (side : OrderSide) (current : Option Decimal) (cs : List Decimal)
    → All (λ c. Holds side c (follow side none current cs)) cs
unfolding follow
follow_tightest side current [] = tt
follow_tightest side current (c ∷ cs) = (
  follow-Holds_from side none c cs _ (adopt-Holds side current c),
  follow_tightest side (if ratchet_accepts side current c none then some c else current) cs,
)

update_keeps :
    (side : OrderSide) (b x : Decimal) (best : Option Decimal)
    → Holds side b best
    → Holds side b (some (update_best_basis side best x))
update_keeps side b x none h = absurd h
update_keeps side b x (some s) h =
    Improves-trans side b s _ h (update_best_basis-Improves side s x).0

best_of-Holds_from :
    (side : OrderSide) (b : Decimal) (bs : List Decimal) (best : Option Decimal)
    → Holds side b best
    → Holds side b (best_of side best bs)
unfolding best_of
best_of-Holds_from side b [] best h = h
best_of-Holds_from side b (x ∷ bs) best h =
    best_of-Holds_from side b bs _ (update_keeps side b x best h)

update-Holds :
    (side : OrderSide) (best : Option Decimal) (b : Decimal)
    → Holds side b (some (update_best_basis side best b))
update-Holds side none b = unfold update_best_basis in Improves-refl side b
update-Holds side (some s) b = (update_best_basis-Improves side s b).1

-- The best basis over a sequence of samples is at least as favourable as each of them.
pub best_of_upper :
    (side : OrderSide) (best : Option Decimal) (bs : List Decimal)
    → All (λ b. Holds side b (best_of side best bs)) bs
unfolding best_of
best_of_upper side best [] = tt
best_of_upper side best (b ∷ bs) = (
  best_of-Holds_from side b bs _ (update-Holds side best b),
  best_of_upper side (some (update_best_basis side best b)) bs,
)
