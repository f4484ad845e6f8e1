-- ===== src/Trailing/Manager/OwnClears.antt =====
-- What taking back the protection of a state clears at the platform (`_clear_owned_protection` of
-- `trailing/manager.py`).
use unified_trading_executio.Base.{
  ◌≡◌, refl, sym, ap, ◌⊎◌, inl, inr, ◌↔◌, Bool, true, false, not, ◌&&◌, ◌||◌, Option, none, some,
  List, [], ◌∷◌, ◌++◌, Result, ok, err, Bool-cases, arith, attempt, select-append,
}
use unified_trading_executio.Decimal.{Decimal, eqb_ℤ_iff}
use unified_trading_executio.Types.{TpSlAttachment}
use unified_trading_executio.Trailing.{TrailingState}
use unified_trading_executio.Trailing.Manager.{
  Venue, Call, clear_position_tpsl, get_position_tpsl, Protection, TrailingManager, ask,
  read_protection, may_reduce, level_of, may_clear_side, clear_sides, clear_read,
  clear_owned_protection,
}
use unified_trading_executio.Trailing.Manager.Quiet.{give-Leaves}
use unified_trading_executio.Trailing.Manager.Writes.{
  writes, IsGuarded, IsGuarded-mono, then-at, reading, reads_then, writes_then, either,
  reserve-IsReading, added,
}
use unified_trading_executio.Trailing.Manager.Justified.{attempt-IsGuarded}

-- The state owns the side, and the platform has no level there, or the one that was written last.
abbrev pub IsOurs :
    (owned : Bool) → (actual : Option TpSlAttachment) → (last : Option Decimal) → Type 0
IsOurs owned actual last =
    (owned ≡ true)
    × ((actual ≡ none) ⊎ ((a : TpSlAttachment) × (actual ≡ some a) × (last ≡ some a.trigger_price)))

may_clear_side_iff :
    (owned : Bool) (actual : Option TpSlAttachment) (last : Option Decimal)
    → (may_clear_side owned actual last ≡ true) ↔ IsOurs owned actual last
may_clear_side_iff false a last = (λ h. cc h, λ h. cc (h.0))
may_clear_side_iff true none last = (λ h. (refl, inl refl), λ h. refl)
may_clear_side_iff true (some a) none = (λ h. cc h, λ h. ground (arith, h))
may_clear_side_iff true (some a) (some w) = (
  λ h. (refl, inr (a, refl, sym (ap some ((eqb_ℤ_iff a.trigger_price w).0 h)))),
  λ h. ground (arith, h, eqb_ℤ_iff a.trigger_price w),
)

-- The call clears a side, and exactly those that are the state's.
pub record ClearsOurs (v : Venue) (s : TrailingState) (calls : List Call) (c : Call) : Type 0 where
  pub take_profit : Bool
  pub stop_loss : Bool
  pub request : c ≡ clear_position_tpsl s.instrument s.position_id take_profit stop_loss
  pub current : Option Protection
  pub answer : v.protection calls (get_position_tpsl s.instrument s.position_id) ≡ ok current
  pub take_profit_iff :
      (take_profit ≡ true)
      ↔ IsOurs s.take_profit_owned (level_of (λ p. p.take_profit) current) s.current_take_profit
  pub stop_loss_iff :
      (stop_loss ≡ true) ↔ IsOurs s.stop_owned (level_of (λ p. p.stop_loss) current) s.current_stop
  pub one_side : (take_profit || stop_loss) ≡ true
  pub not_halted : may_reduce v s.instrument ≡ true

sides-IsGuarded :
    (v : Venue) (s : TrailingState) (take_profit stop_loss : Bool)
    → IsGuarded
        (λ c.
          (c ≡ clear_position_tpsl s.instrument s.position_id take_profit stop_loss)
          × ((take_profit || stop_loss) ≡ true))
        (clear_sides v s take_profit stop_loss)
unfolding ask
sides-IsGuarded v s tp sl =
    either (not tp && not sl) (λ _. reading _ (give-Leaves _))
      (λ one. reads_then _ _ (reserve-IsReading v) (λ granted.
        either granted
          (λ _.
            writes_then _ _
              (attempt-IsGuarded _
                (record { at = λ m. inr (_, select-append _ m.calls _, (refl, ground arith)) }))
              (λ answer. give-Leaves _))
          (λ _. reading _ (give-Leaves _))))

read_then_clear :
    (v : Venue) (s : TrailingState) (calls : List Call) (answer : Result (Option Protection))
    → v.protection calls (get_position_tpsl s.instrument s.position_id) ≡ answer
    → may_reduce v s.instrument ≡ true
    → IsGuarded (ClearsOurs v s calls) (clear_read v s answer)
read_then_clear v s calls (err e) read open_ = reading _ (give-Leaves _)
read_then_clear v s calls (ok current) read open_ =
    IsGuarded-mono
      (λ c h. record {
        take_profit = _;
        stop_loss = _;
        request = h.0;
        current = current;
        answer = read;
        take_profit_iff = may_clear_side_iff s.take_profit_owned _ s.current_take_profit;
        stop_loss_iff = may_clear_side_iff s.stop_owned _ s.current_stop;
        one_side = h.1;
        not_halted = open_;
      })
      (sides-IsGuarded v s _ _)

-- Taking back the protection of a state writes nothing to the platform, or it clears once, on the
-- leg of the state, where the halts allow a reducing order. Just before, the platform was asked for
-- the levels; a side is cleared if and only if the state owns it and the answer has no level there
-- or exactly the one that was written last, and at least one side is.
pub clear_owned_protection-ClearsOurs :
    (v : Venue) (s : TrailingState) (m : TrailingManager)
    → (writes (clear_owned_protection v s m).0 ≡ writes m)
      ⊎ ((c : Call) × (writes (clear_owned_protection v s m).0 ≡ writes m ++ c ∷ [])
          × ClearsOurs v s m.calls c)
unfolding clear_owned_protection read_protection attempt
clear_owned_protection-ClearsOurs v s m =
    elim (Bool-cases (not s.stop_owned && not s.take_profit_owned)) [
      | inl nothing ↦ rw nothing (inl refl)
      | inr owned ↦ elim (Bool-cases (may_reduce v s.instrument)) [
        | inl open_ ↦
            rw (owned, open_)
              (then-at m (attempt (read_protection v s) m) (clear_read v s) (added m _ refl)
                (λ a is_a. read_then_clear v s m.calls a (cc is_a) open_))
        | inr halted ↦ rw (owned, halted) (inl refl)
      ]
    ]
