-- ===== src/Trailing/Manager/Lifecycle.antt =====
-- How the row of a state may change: the phases go along the edges of the lifecycle, what
-- identifies the state stays, and a row in a terminal phase stays as it is.
use unified_trading_executio.Base.{◌≤◌, ◌≡◌, refl, sym, ◌∙◌, subst, true, false, arith}
use unified_trading_executio.Trailing.{
  TrailingPhase, armed, degraded, TrailingState, is_terminal_phase,
}
use unified_trading_executio.Trailing.Manager.{is_allowed_transition, is_watched, is_degraded}

-- A way along the allowed transitions.
infix 40 ◌⟶*◌
pub data ◌⟶*◌ : TrailingPhase → TrailingPhase → Type 0 where
  stay : {p : TrailingPhase} → p ⟶* p
  move : {p q r : TrailingPhase} → is_allowed_transition p q ≡ true → q ⟶* r → p ⟶* r

pub ⟶*-trans : {p q r : TrailingPhase} → p ⟶* q → q ⟶* r → p ⟶* r
⟶*-trans stay way = way
⟶*-trans (move edge first) way = move edge (⟶*-trans first way)

pub edge-⟶* : {p q : TrailingPhase} → is_allowed_transition p q ≡ true → p ⟶* q
edge-⟶* edge = move edge stay

-- What identifies the state stays, and its stop was repriced as often or more often.
pub record Keeps (s t : TrailingState) : Type 0 where
  pub same_id : t.trailing_id ≡ s.trailing_id
  pub same_leg : (t.instrument ≡ s.instrument) × (t.position_id ≡ s.position_id) × (t.side ≡ s.side)
  pub same_spec : (t.spec ≡ s.spec) × (t.mode ≡ s.mode) × (t.created_at ≡ s.created_at)
  pub count_grows : s.reprice_count ≤ t.reprice_count

pub record Evolves (s t : TrailingState) : Type 0 where
  pub path : s.phase ⟶* t.phase
  pub keeps : Keeps s t
  pub terminal_stays : is_terminal_phase s.phase ≡ true → t ≡ s

pub Evolves-refl : (s : TrailingState) → Evolves s s
Evolves-refl s = record { path = stay; keeps = ground arith; terminal_stays = λ h. refl }

Keeps-trans : (s t u : TrailingState) → Keeps s t → Keeps t u → Keeps s u
Keeps-trans s t u h k = ground arith

pub Evolves-trans : (s t u : TrailingState) → Evolves s t → Evolves t u → Evolves s u
Evolves-trans s t u h k = record {
  path = ⟶*-trans h.path k.path;
  keeps = Keeps-trans s t u h.keeps k.keeps;
  terminal_stays = λ end.
      let same : t ≡ s = h.terminal_stays end in
      k.terminal_stays (subst (λ x. is_terminal_phase x.phase ≡ true) (sym same) end) ∙ same;
}

-- A row that is not terminal may change along the edges.
pub Evolves-step :
    (s t : TrailingState)
    → is_terminal_phase s.phase ≡ false
    → s.phase ⟶* t.phase
    → Keeps s t
    → Evolves s t
Evolves-step s t open_ way keeps = record {
  path = way;
  keeps = keeps;
  terminal_stays = λ end. absurd (cc (open_, end));
}

-- What a ticker or an ATR does to a watched state keeps it watched.
pub record Watches (s t : TrailingState) : Type 0 where
  pub evolves : Evolves s t
  pub watched : is_watched s.phase ≡ true → is_watched t.phase ≡ true

pub Watches-refl : (s : TrailingState) → Watches s s
Watches-refl s = record { evolves = Evolves-refl s; watched = λ h. h }

pub Watches-trans : (s t u : TrailingState) → Watches s t → Watches t u → Watches s u
Watches-trans s t u h k = record {
  evolves = Evolves-trans s t u h.evolves k.evolves;
  watched = λ w. k.watched (h.watched w);
}

pub watched-not_terminal : (p : TrailingPhase) → is_watched p ≡ true → is_terminal_phase p ≡ false
unfolding is_terminal_phase
watched-not_terminal p h = ground arith

pub armed-degraded :
    (p : TrailingPhase) → is_watched p ≡ true → is_degraded p ≡ false → p ⟶* degraded
unfolding is_allowed_transition
armed-degraded armed h k = move refl stay
armed-degraded _ h k = cc

pub watched-armed : (p : TrailingPhase) → is_watched p ≡ true → p ⟶* armed
unfolding is_allowed_transition
watched-armed armed h = stay
watched-armed degraded h = move refl stay
watched-armed _ h = absurd (cc h)

-- A watched state that is armed or degraded afterwards.
pub Watches-step :
    (s t : TrailingState)
    → is_watched s.phase ≡ true
    → s.phase ⟶* t.phase
    → is_watched t.phase ≡ true
    → Keeps s t
    → Watches s t
Watches-step s t w way w' keeps = record {
  evolves = Evolves-step s t (watched-not_terminal s.phase w) way keeps;
  watched = λ _. w';
}
