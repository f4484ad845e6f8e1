-- ===== src/Trailing/Manager/Closing.antt =====
-- `trailing/manager.py`: taking back the protection that a state owns, cancelling a state, and
-- completing one whose position is closed.
use unified_trading_executio.Base.{
  ◌+◌, Bool, true, false, not, ◌&&◌, ◌||◌, Option, none, some, is_some, or_else, get_or, List, [],
  ◌∷◌, ◌++◌, pure, attempt, Result, ok, err, trailing_state, if◌then◌else◌,
}
use unified_trading_executio.Decimal.{Decimal, pos, eqb_ℤ}
use unified_trading_executio.Types.{Ident, DateTime, TpSlAttachment}
use unified_trading_executio.Trailing.Types.{
  done, cancelled, failed, TrailingState, ClearNote, protection_changed_externally,
  halted_left_in_place, budget_left_in_place, trail_halted, trail_budget, trail_present,
  clear_raised, Reason, notes, cancel_requested, cleared, Note, plain,
}
use unified_trading_executio.Trailing.Routing.{NativeTrailingResult}
use unified_trading_executio.Trailing.Manager.Desk.{
  Venue, Call, clear_position_tpsl, cancel_trailing_stop, get_trailing_stop, trailing_failed,
  trailing_done, trailing_clear, trailing_cancelled, Protection, Step, ◌>>=◌, ◌>>◌, give,
  require_ready, read_clock, get_trailing_state, upsert_trailing_state, publish, write_audit,
  reserve, ask, read_protection, ensure_transition_allowed, is_native, may_reduce,
}

-- What clearing tells, and whether something was cleared.
abbrev pub Clearing : Type 0
Clearing = Option ClearNote × Bool

abbrev pub level_of :
    (Protection → Option TpSlAttachment) → Option Protection → Option TpSlAttachment
level_of side none = none
level_of side (some p) = side p

abbrev pub is_level : Option Decimal → Decimal → Bool
is_level none v = false
is_level (some w) v = eqb_ℤ v w

-- An owned side is cleared if the platform has none, or the one that was written last.
abbrev pub may_clear_side :
    (owned : Bool) → (actual : Option TpSlAttachment) → (last : Option Decimal) → Bool
may_clear_side false a last = false
may_clear_side true none last = true
may_clear_side true (some a) last = is_level last a.trigger_price

-- `", ".join(dict.fromkeys(notes)) or None`, where all notes are one text.
abbrev pub changed_note : Bool → Option ClearNote
changed_note true = some protection_changed_externally
changed_note false = none

-- The side is owned and is not cleared.
abbrev pub is_kept : (owned clear : Bool) → Bool
is_kept owned clear = owned && not clear

abbrev pub ask_clear :
    Venue
    → TrailingState
    → (take_profit stop_loss : Bool) → Option ClearNote
    → Result (Unit {0})
    → Clearing
ask_clear v s tp sl told (err e) = (some (clear_raised e), false)
ask_clear v s tp sl told (ok _) = (told, true)

abbrev pub clear_sides : Venue → TrailingState → (take_profit stop_loss : Bool) → Step Clearing
clear_sides v s tp sl =
    let note = changed_note (is_kept s.take_profit_owned tp || is_kept s.stop_owned sl) in
    if not tp && not sl then give (note, false) else (do
      granted ← reserve v
      if granted
          then (do
            answer ← attempt (ask v (clear_position_tpsl s.instrument s.position_id tp sl))
            give (ask_clear v s tp sl note answer))
          else give (some budget_left_in_place, false))

abbrev pub clear_read : Venue → TrailingState → Result (Option Protection) → Step Clearing
clear_read v s (err e) = give (some (clear_raised e), false)
clear_read v s (ok current) =
    clear_sides v s
      (may_clear_side s.take_profit_owned (level_of (λ p. p.take_profit) current)
        s.current_take_profit)
      (may_clear_side s.stop_owned (level_of (λ p. p.stop_loss) current) s.current_stop)

-- `_clear_owned_protection`
unfoldable pub clear_owned_protection : Venue → TrailingState → Step Clearing
clear_owned_protection v s =
    if not s.stop_owned && not s.take_profit_owned
    then give (none, false)
    else if not (may_reduce v s.instrument)
    then give (some halted_left_in_place, false)
    else (do current ← attempt (read_protection v s); clear_read v s current)

abbrev is_present : Result (Option NativeTrailingResult) → Result Bool
is_present (err e) = err e
is_present (ok o) = ok (is_some o)

-- A cancelled trailing stop is read back.
unfoldable pub trail_gone : Venue → Call → Step Bool
trail_gone v c m = (record m { calls = m.calls ++ c ∷ [] }, is_present (v.native_trail m.calls c))

abbrev after_trail : Result Bool → Clearing
after_trail (err e) = (some (clear_raised e), false)
after_trail (ok true) = (some trail_present, false)
after_trail (ok false) = (none, true)

abbrev pub cancel_native : Venue → TrailingState → (native_id : Ident) → Step Clearing
cancel_native v s i =
    if not (may_reduce v s.instrument) then give (some trail_halted, false) else (do
      granted ← reserve v
      if granted
          then (do
            remains ← attempt (
                ask v (cancel_trailing_stop i s.instrument)
                >> trail_gone v (get_trailing_stop i s.instrument))
            give (after_trail remains))
          else give (some trail_budget, false))

abbrev pub native_trail : Venue → TrailingState → Option Ident → Step Clearing
native_trail v s none = give (none, false)
native_trail v s (some i) = cancel_native v s i

-- `_cancel_native_trail`
unfoldable pub cancel_native_trail : Venue → TrailingState → Step Clearing
cancel_native_trail v s =
    if is_native s.mode then native_trail v s s.native_id else give (none, false)

pub ClearNote-discrete : Discrete ClearNote
ClearNote-discrete = hlevel

-- `dict.fromkeys` on at most two notes.
abbrev pub join : Option ClearNote → Option ClearNote → List ClearNote
join none none = []
join none (some b) = b ∷ []
join (some a) none = a ∷ []
join (some a) (some b) = elim (ClearNote-discrete a b) [ yes _ ↦ a ∷ [] | no _ ↦ a ∷ b ∷ [] ]

-- `_clear_protection_for_replacement`
unfoldable pub clear_for_replacement :
    Venue → TrailingState → (static : Bool) → Step (List ClearNote × Bool)
clear_for_replacement v s static = do
  trail ← cancel_native_trail v s
  levels ←
      (if static && (s.stop_owned || s.take_profit_owned)
        then clear_owned_protection v s
        else give (none, false))
  give (join trail.0 levels.0, trail.1 || levels.1)

-- The notes as a text, if there are any.
abbrev pub note_text : List ClearNote → Option Reason
note_text [] = none
note_text (n ∷ ns) = some (notes (n ∷ ns))

abbrev pub plain_note : Option Reason → Option Note
plain_note none = none
plain_note (some r) = some (plain r)

unfoldable pub audit_clear :
    (cleared : Bool) → (before after : TrailingState) → Option Reason → Step (Unit {0})
audit_clear false before after told = give tt
audit_clear true before after told =
    write_audit trailing_clear after before.current_stop after.current_stop (get_or told cleared)

abbrev pub cancelled_at : TrailingState → Option Note → (now : DateTime) → TrailingState
cancelled_at s note now = record s { phase = cancelled; last_error = note; updated_at = now }

-- A state is cancelled, which is published and written down.
unfoldable pub settle_cancelled :
    TrailingState
    → (last_error : Option Note) → (reason : Reason) → (note : Option Reason) → (was_cleared : Bool)
    → (now : DateTime) → Step TrailingState
settle_cancelled s last_error reason note was_cleared now = do
  let after = cancelled_at s last_error now
  upsert_trailing_state after
  publish after s.phase reason
  write_audit trailing_cancelled after s.current_stop after.current_stop reason
  audit_clear was_cleared s after note
  give after

abbrev pub known : Option TrailingState → Result TrailingState
known none = err trailing_state
known (some s) = ok s

-- The steps of `cancel` on a state that is known.
unfoldable pub cancel_state :
    Venue → TrailingState → (clear_protection : Bool) → Option Reason → Step TrailingState
cancel_state v s clear_protection reason = do
  ensure_transition_allowed s.phase cancelled
  clearing ← clear_for_replacement v s clear_protection
  now ← read_clock v
  let note = note_text clearing.0
  settle_cancelled s (or_else (plain_note (or_else note reason)) s.last_error)
      (get_or (or_else note reason) cancel_requested) note clearing.1 now

-- `cancel`
unfoldable pub cancel :
    Venue → (trailing_id : Ident) → (clear_protection : Bool) → Option Reason → Step TrailingState
cancel v i clear_protection reason = do
  require_ready v
  s ← get_trailing_state i
  state ← pure (known s)
  cancel_state v state clear_protection reason

-- `note is not None and not cleared and note != "protection_changed_externally"`
abbrev pub is_blocked : Clearing → Bool
is_blocked (none, done_) = false
is_blocked (some protection_changed_externally, done_) = false
is_blocked (some n, done_) = not done_

abbrev pub as_list : Option ClearNote → List ClearNote
as_list none = []
as_list (some n) = n ∷ []

abbrev pub failed_at : TrailingState → (note : Reason) → (now : DateTime) → TrailingState
failed_at s note now = record s {
  phase = failed;
  quantity = pos 0;
  last_error = some (plain note);
  failure_count = s.failure_count + 1;
  updated_at = now;
}

abbrev pub fail_close :
    TrailingState → (note : Reason) → (reason : Reason) → (now : DateTime) → Step TrailingState
fail_close s note reason now = do
  ensure_transition_allowed s.phase failed
  upsert_trailing_state (failed_at s note now)
  publish (failed_at s note now) s.phase reason
  write_audit trailing_failed (failed_at s note now) s.current_stop s.current_stop note
  give (failed_at s note now)

abbrev pub done_at : TrailingState → Option Reason → (now : DateTime) → TrailingState
done_at s note now = record s {
  phase = done;
  quantity = pos 0;
  last_error = plain_note note;
  updated_at = now;
}

abbrev pub finish_close :
    TrailingState → Clearing → (reason : Reason) → (now : DateTime) → Step TrailingState
finish_close s clearing reason now = do
  ensure_transition_allowed s.phase done
  let after = done_at s (note_text (as_list clearing.0)) now
  upsert_trailing_state after
  publish after s.phase reason
  write_audit trailing_done after s.current_stop s.current_stop reason
  audit_clear clearing.1 s after (note_text (as_list clearing.0))
  give after

-- `_complete_position_close`
unfoldable pub complete_position_close :
    Venue → TrailingState → Reason → (now : DateTime) → Step TrailingState
complete_position_close v s reason now = do
  clearing ← clear_owned_protection v s
  if is_blocked clearing
      then fail_close s (notes (as_list clearing.0)) reason now
      else finish_close s clearing reason now
