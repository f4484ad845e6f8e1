-- ===== src/Trailing/Routes.antt =====
-- When a request is routed to which execution mode (`resolve_routing` of `trailing/manager.py`), by
-- what the platform declares.
use unified_trading_executio.Base.{
  ◌≡◌, refl, inl, inr, ◌↔◌, true, some, List, [], ◌∷◌, ok, Bool-cases,
}
use unified_trading_executio.Trailing.{
  TrailingMode, auto, native, synthetic, TrailingBasis, PositionProtectionCapability,
  TrailingCapability, MarketDataCapability, TrailingRequest, Blocker, is_outside, RoutingReason,
  prefer_native, route, resolve_routing,
}
use unified_trading_executio.Trailing.Blockers.{
  IsNative, IsSynthetic, is_outside_iff, native_blockers_iff, synthetic_blockers_iff,
}

-- What the mode of a request asks of the two ways to trail.
abbrev pub IsChosen : (asked chosen : TrailingMode) → (by_native by_synthetic : Type 0) → Type 0
IsChosen native native N S = N
IsChosen synthetic synthetic N S = S
IsChosen auto native N S = N
IsChosen auto synthetic N S = (N → ⊥) × S
IsChosen _ _ N S = ⊥

route_iff :
    (asked chosen : TrailingMode) (ns ss : List Blocker) {N S : Type 0}
    → (ns ≡ []) ↔ N
    → (ss ≡ []) ↔ S
    → ((reason : RoutingReason) × (route asked ns ss ≡ ok (chosen, reason)))
      ↔ IsChosen asked chosen N S
unfolding route prefer_native
route_iff native native [] ss n s = (λ h. n.0 refl, λ h. (_, refl))
route_iff native synthetic [] ss n s = (λ h. cc (h.1), λ h. absurd h)
route_iff native auto [] ss n s = (λ h. cc (h.1), λ h. absurd h)
route_iff native native (x ∷ xs) ss n s = (λ h. absurd (cc (h.1)), λ h. absurd (cc (n.1 h)))
route_iff native synthetic (x ∷ xs) ss n s = (λ h. cc (h.1), λ h. absurd h)
route_iff native auto (x ∷ xs) ss n s = (λ h. cc (h.1), λ h. absurd h)
route_iff synthetic synthetic ns [] n s = (λ h. s.0 refl, λ h. (_, refl))
route_iff synthetic native ns [] n s = (λ h. cc (h.1), λ h. absurd h)
route_iff synthetic auto ns [] n s = (λ h. cc (h.1), λ h. absurd h)
route_iff synthetic synthetic ns (x ∷ xs) n s = (λ h. absurd (cc (h.1)), λ h. absurd (cc (s.1 h)))
route_iff synthetic native ns (x ∷ xs) n s = (λ h. cc (h.1), λ h. absurd h)
route_iff synthetic auto ns (x ∷ xs) n s = (λ h. cc (h.1), λ h. absurd h)
route_iff auto native [] ss n s = (λ h. n.0 refl, λ h. (_, refl))
route_iff auto synthetic [] ss n s = (λ h. absurd (cc (h.1)), λ h. absurd (h.0 (n.0 refl)))
route_iff auto auto [] ss n s = (λ h. cc (h.1), λ h. absurd h)
route_iff auto native (x ∷ xs) [] n s = (λ h. absurd (cc (h.1)), λ h. absurd (cc (n.1 h)))
route_iff auto synthetic (x ∷ xs) [] n s = (λ h. (λ e. cc (n.1 e), s.0 refl), λ h. (_, refl))
route_iff auto auto (x ∷ xs) [] n s = (λ h. cc (h.1), λ h. absurd h)
route_iff auto native (x ∷ xs) (y ∷ ys) n s = (λ h. absurd (cc (h.1)), λ h. absurd (cc (n.1 h)))
route_iff auto synthetic (x ∷ xs) (y ∷ ys) n s =
    (λ h. absurd (cc (h.1)), λ h. absurd (cc (s.1 (h.1))))
route_iff auto auto (x ∷ xs) (y ∷ ys) n s = (λ h. cc (h.1), λ h. absurd h)

-- A request is routed to a mode if and only if the basis that it names, if it names one, is in the
-- platform's tickers, and the mode is the one that it asks for, or it leaves the choice and the mode
-- is native, or synthetic where native cannot; and the mode can express the specification: for
-- native, the platform trails with the offset, the basis, the activation, the step, the initial stop
-- and the take profit that it has; for synthetic, the platform moves stops of positions without
-- touching the other side, has tickers, and sets the take profit; and in both, an ATR that the
-- manager must know has its candles.
pub resolve_routing_iff :
    (r : TrailingRequest) (protection : PositionProtectionCapability) (n : TrailingCapability)
    (market : MarketDataCapability) (mode : TrailingMode)
    → ((reason : RoutingReason) × (resolve_routing r protection n market ≡ ok (mode, reason))) ↔ (
        ((b : TrailingBasis) → r.spec.basis ≡ some b → market.ticker_bases b ≡ true)
        × IsChosen r.mode mode
            (IsNative r.spec n protection market)
            (IsSynthetic r.spec protection market))
unfolding resolve_routing
resolve_routing_iff r protection n market mode =
    let chosen =
      route_iff r.mode mode _ _ (native_blockers_iff r.spec n protection market)
        (synthetic_blockers_iff r.spec protection market) in
    elim (Bool-cases (is_outside r.spec.basis market.ticker_bases)) [
      | inl out ↦
          simp out (λ h. absurd (cc (h.1)), λ h. absurd (cc (out, (is_outside_iff _ _).1 (h.0))))
      | inr inside ↦
          simp inside (λ h. ((is_outside_iff _ _).0 inside, chosen.0 h), λ h. chosen.1 (h.1))
    ]
