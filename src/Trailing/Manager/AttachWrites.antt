-- ===== src/Trailing/Manager/AttachWrites.antt =====
-- What attaching a synthetic trailing stop writes to the platform (`_attach_synthetic` of
-- `trailing/manager.py`).
use unified_trading_executio.Base.{◌≡◌, true}
use unified_trading_executio.Decimal.{Decimal}
use unified_trading_executio.Types.{Ident, Position}
use unified_trading_executio.Trailing.{TrailingRequest, synthetic, side_of, resolve_bases}
use unified_trading_executio.Trailing.Manager.{
  Venue, Call, modify_position_tpsl, Step, ◌>>=◌, attachment, may_reduce, Plan,
}
use unified_trading_executio.Trailing.Manager.Writes.{IsGuarded, then-at}
use unified_trading_executio.Trailing.Manager.AttachReads.{Yields}
use unified_trading_executio.Trailing.Manager.Plans.{IsSound}

pub reads_given :
    {P : Call → Type 0} {A B : Type 0} {Q : A → Type 0} (step : Step A) (rest : A → Step B)
    → Yields Q step
    → ((a : A) → Q a → IsGuarded P (rest a))
    → IsGuarded P (step >>= rest)
reads_given step rest yields k = record {
  at = λ m. then-at m (step m) rest (yields.quiet.same m) (λ a is_a. k a (yields.at m a is_a));
}

-- The one write of an attachment, and what makes it good.
pub record IsAttachment (v : Venue) (r : TrailingRequest) (leg : Position) (position_id : Ident)
    (c : Call) : Type 0 where
  pub plan : Plan
  pub sound : IsSound r leg plan
  pub request :
      c
      ≡ modify_position_tpsl r.instrument position_id
          (attachment plan.take_profit)
          (attachment plan.stop)
          (resolve_bases r.spec synthetic
            (v.protection_capability r.instrument)
            (v.market_data_capability r.instrument)
            (side_of leg.quantity)).1
  pub not_halted : may_reduce v r.instrument ≡ true
