-- ===== src/Executor/Closing.antt =====
-- `Executor.close_owned` of execution/engine.py, and the knot of incident management: an incident
-- cancels and closes, which can apply further reports.
use bot_trading.Prelude.{
  String, Bool, false, not, ◌&&◌, Option, none, some, List, any, find_row, str_eq, if◌then◌else◌,
}
use bot_trading.Decimal.{Decimals, Decimal, ◌≤D◌, zero_D}
use bot_trading.Risk.Types.{Stamp}
use bot_trading.Exec.{
  Exec, runtime_error, assertion_error, pure, raise, gets, ◌>>=◌, ◌>>◌, raise_if, skip,
}
use bot_trading.Order.Types.{Mode, mode_eq, IntentKind, kind_eq, OrderIntent, BrokerOrder, Position}
use bot_trading.Store.Access.{audit, intents, position}
use bot_trading.Executor.World.{
  PreparedSubmission, Executor, World, on_store, require_started, pause_entries,
}
use bot_trading.Executor.Orders.{apply_with, send_with, cancel_with, owner_active, submit_close}

module _ ⦃dec : Decimals⦄ {B : Type 0} (x : Executor B) where
  -- The earlier close of the position, if there is one.
  abbrev pub closes : String → OrderIntent → Bool
  closes position_id i =
      kind_eq i.kind IntentKind.close
      && elim i.position_id [ none ↦ false | some own ↦ str_eq own position_id ]

  -- An active entry is cancelled before its position is sold.
  unfoldable pub close_after_cancel :
      (Position → Exec (World B) (Unit {0}))
      → String
      → Option Decimal
      → Option Stamp
      → Exec (World B) (Option OrderIntent)
  close_after_cancel manage position_id price now = do
    cancel_with x manage
    p ← on_store (position position_id)
    all ← gets (λ w. intents w.store)
    (if any (owner_active x p) all
        then (do
          on_store (audit "CLOSE_BLOCKED_PENDING_ENTRY" (some p.owner_intent_id) "")
          pure none)
        else submit_close x manage p price now)

  unfoldable pub close_position :
      (Position → Exec (World B) (Unit {0}))
      → Position
      → List OrderIntent
      → Option Decimal
      → Option Stamp
      → Exec (World B) (Option OrderIntent)
  close_position manage p all price now =
      if p.units ≤D zero_D
      then pure none
      else (if not p.accounting_complete
          then (do
            pause_entries x
            on_store (audit "CLOSE_BLOCKED_ACCOUNTING_PENDING" (some p.owner_intent_id) "")
            pure none)
          else (if any (λ i. kind_eq i.kind IntentKind.entry && owner_active x p i) all
              then close_after_cancel manage p.position_id price now
              else submit_close x manage p price now))

  abbrev close_found :
      (Position → Exec (World B) (Unit {0}))
      → Position
      → List OrderIntent
      → Option Decimal
      → Option Stamp
      → Option OrderIntent
      → Exec (World B) (Option OrderIntent)
  close_found manage p all price now (some old) = pure (some old)
  close_found manage p all price now none = close_position manage p all price now

  unfoldable pub close_with :
      (Position → Exec (World B) (Unit {0}))
      → String
      → Option Decimal
      → Option Stamp
      → Exec (World B) (Option OrderIntent)
  close_with manage position_id price now = do
    require_started
    mode ← gets (λ w. w.store.mode)
    raise_if (mode_eq mode Mode.shadow) (runtime_error "BLOCKED: shadow cannot mutate trading")
    p ← on_store (position position_id)
    all ← gets (λ w. intents w.store)
    close_found manage p all price now (find_row (closes position_id) all)

  -- While an incident is managed no further one is, so this is never reached.
  abbrev pub unreachable : Position → Exec (World B) (Unit {0})
  unreachable p = raise assertion_error

  -- What `_apply` does about an incident.
  unfoldable pub manage : Position → Exec (World B) (Unit {0})
  manage p = do
    cancel_with x unreachable
    close_with unreachable p.position_id (some p.average_entry) none
    skip

  unfoldable pub apply : BrokerOrder → Stamp → Exec (World B) (Unit {0})
  apply = apply_with x manage

  unfoldable pub send :
      OrderIntent → Stamp → Option (PreparedSubmission B) → Exec (World B) (Unit {0})
  send = send_with x manage

  unfoldable pub cancel_pending_entries : Exec (World B) (Unit {0})
  cancel_pending_entries = cancel_with x manage

  unfoldable pub close_owned :
      String → Option Decimal → Option Stamp → Exec (World B) (Option OrderIntent)
  close_owned = close_with manage
