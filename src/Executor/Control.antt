-- ===== src/Executor/Control.antt =====
-- The rest of `Executor` of execution/engine.py: start and stop, arming, reconciliation,
-- flattening, protection, the daily loss and the command queue.
use bot_trading.Prelude.{
  List, ◌+◌, ℕ, String, Bool, true, false, not, ◌&&◌, ◌||◌, Option, none, some, [], ◌∷◌, any,
  str_eq, if◌then◌else◌,
}
use bot_trading.Decimal.{Decimals, Decimal, ◌<D◌}
use bot_trading.Risk.Guards.{daily_loss_reached}
use bot_trading.Exec.{
  Exec, err, lifecycle_error, runtime_error, key_error, pure, raise, gets, ◌>>=◌, ◌>>◌, modify,
  raise_if, when, skip, catch, for_each, all_clean,
}
use bot_trading.Order.State.{
  created, approved, submitting, rejected, expired, unknown, state_eq, state_in, is_active,
}
use bot_trading.Order.Types.{Mode, mode_eq, OrderIntent, BrokerOrder, Position}
use bot_trading.Store.Tables.{Store, Command, CommandStatus}
use bot_trading.Store.Access.{
  get_meta, set_meta, ensure_session, pause, audit, intents, transition, positions, position,
  set_protection,
}
use bot_trading.Store.Portfolio.{portfolio, is_true}
use bot_trading.Store.Commands.{pending_commands, finish_command}
use bot_trading.Executor.World.{
  Executor, World, on_store, on_broker, acquire, release, require_started, pause_entries,
}
use bot_trading.Executor.Closing.{apply, cancel_pending_entries, close_owned}

module _ ⦃dec : Decimals⦄ where
  abbrev pub flag_text : Bool → String
  flag_text true = "true"
  flag_text false = "false"

  abbrev pub any_unknown : Store → Bool
  any_unknown s = any (λ (i : OrderIntent). state_eq i.state unknown) (intents s)

  abbrev pub any_incomplete : Store → Bool
  any_incomplete s = any (λ (p : Position). not p.accounting_complete) (positions false s)

  abbrev pub no_exposure : Store → Bool
  no_exposure s =
      elim (positions true s) [ [] ↦ true | _ ∷ _ ↦ false ]
      && not (any (λ (i : OrderIntent). is_active i.state) (intents s))

module _ ⦃dec : Decimals⦄ {B : Type 0} (x : Executor B) where
  unfoldable pub arm_offline : Exec (World B) (Unit {0})
  arm_offline = do
    require_started
    mode ← gets (λ w. w.store.mode)
    raise_if (not (mode_eq mode Mode.offline) && not (mode_eq mode Mode.backtest))
        (runtime_error "BLOCKED: this method only arms local simulation")
    resolved ← gets (λ w. is_true (get_meta "reconciliation_ok" w.store))
    raise_if (not resolved) (runtime_error "BLOCKED: unresolved reconciliation")
    on_store (pause x.session_id false)

  -- The broker does not know the order.
  unfoldable pub reconcile_missing : OrderIntent → Exec (World B) Bool
  reconcile_missing i =
      if is_active i.state
      then (do
        when (not (state_eq i.state unknown)) (on_store (transition i.intent_id unknown >> skip))
        on_store (audit "RECONCILIATION_UNRESOLVED" (some i.intent_id) "")
        pure false)
      else pure true

  unfoldable pub reconcile_answer : OrderIntent → Option BrokerOrder → Exec (World B) Bool
  reconcile_answer i none = reconcile_missing i
  reconcile_answer i (some update) = do
    now ← on_broker x.broker.clock
    apply x update now
    pure (not (state_eq update.state unknown))

  -- One round of the loop: whether the order is resolved.
  unfoldable pub reconcile_one : OrderIntent → Exec (World B) Bool
  reconcile_one i =
      if state_in i.state (created ∷ approved ∷ rejected ∷ [])
      then pure true
      else catch (do answer ← on_broker (x.broker.query i.intent_id); reconcile_answer i answer)
          (λ e. do on_store (audit "RECONCILIATION_FAILED" (some i.intent_id) ""); pure false)

  -- What the loop's answers and the tables say together.
  unfoldable pub conclude : Bool → Exec (World B) Bool
  conclude answered = do
    unresolved ← gets (λ w. any_unknown w.store)
    incomplete ← gets (λ w. any_incomplete w.store)
    let clean = answered && not unresolved && not incomplete
    on_store (set_meta "reconciliation_ok" (flag_text clean))
    when (not clean) (on_store (pause x.session_id true))
    on_store (audit "RECONCILIATION_COMPLETE" none (if clean then "OK" else "BLOCKED"))
    pure clean

  unfoldable pub reconcile : Exec (World B) Bool
  reconcile = do
    require_started
    all ← gets (λ w. intents w.store)
    answered ← all_clean all reconcile_one true
    conclude answered

  -- The end of `flatten_owned`: the broker is asked again before the exposure is called gone.
  unfoldable pub confirm_flat : Exec (World B) Bool
  confirm_flat = do
    answered ← reconcile
    closed ← gets (λ w. no_exposure w.store)
    let flat = answered && closed
    on_store (audit (if flat then "FLAT_CONFIRMED" else "RESIDUAL_EXPOSURE") none "")
    pure flat

  unfoldable pub close_all : Exec (World B) (Unit {0})
  close_all = do
    require_started
    pause_entries x
    cancel_pending_entries x
    held ← gets (λ w. positions true w.store)
    for_each held (λ p. close_owned x p.position_id none none >> skip)

  unfoldable pub flatten_owned : Exec (World B) Bool
  flatten_owned = do close_all; confirm_flat

  unfoldable pub protection_failed : Position → String → Exec (World B) (Unit {0})
  protection_failed p position_id = do
    pause_entries x
    on_store (audit "PROTECTION_FAILED" (some p.owner_intent_id) "")
    cancel_pending_entries x
    close_owned x position_id none none
    skip

  unfoldable pub tighten_stop : String → Decimal → Exec (World B) Bool
  tighten_stop position_id stop_price = do
    require_started
    p ← on_store (position position_id)
    raise_if (not (dec.is_finite stop_price) || stop_price <D p.stop_price)
        (lifecycle_error "STOP_WIDENING_BLOCKED")
    mode ← gets (λ w. w.store.mode)
    raise_if (mode_eq mode Mode.shadow) (runtime_error "BLOCKED: shadow cannot modify protection")
    protected ← catch (on_broker (x.broker.protect position_id stop_price)) (λ e. pure false)
    (if protected
        then on_store (set_protection position_id stop_price true)
        else protection_failed p position_id)
    pure protected

  unfoldable pub enforce_daily_loss : Exec (World B) Bool
  enforce_daily_loss = do
    require_started
    account ← on_store (portfolio x.session_id)
    let reached = daily_loss_reached x.risk.config account
    when reached (do on_store (audit "DAILY_LOSS_LIMIT" none ""); flatten_owned; skip)
    pure reached

  -- The action of a command, with what it reports; a command of no known kind raises.
  unfoldable pub run_action : String → Exec (World B) Bool
  run_action kind =
      if str_eq kind "PAUSE_ENTRIES"
      then (pause_entries x >> pure true)
      else (if str_eq kind "RECONCILE"
          then reconcile
          else (if str_eq kind "CANCEL_PENDING_ENTRIES"
              then (cancel_pending_entries x >> pure true)
              else (if str_eq kind "FLATTEN_OWNED" then flatten_owned else raise (key_error kind))))

  unfoldable pub process_one : Command → Exec (World B) (Unit {0})
  process_one c =
      catch
        (do
          outcome ← run_action c.kind
          raise_if (not outcome) (runtime_error "CONTROL_OUTCOME_NOT_CONFIRMED")
          on_store (finish_command c.command_id CommandStatus.done))
        (λ e. do
          on_store (finish_command c.command_id CommandStatus.blocked)
          on_store (audit "CONTROL_COMMAND_BLOCKED" none ""))

  -- The loop over the commands, with its count.
  unfoldable pub process_all : ℕ → List Command → Exec (World B) ℕ
  process_all processed [] = pure processed
  process_all processed (c ∷ commands) = do process_one c; process_all (processed + 1) commands

  unfoldable pub process_commands : Exec (World B) ℕ
  process_commands = do
    require_started
    waiting ← gets (λ w. pending_commands w.store)
    process_all 0 waiting

  -- A crash before the broker's answer leaves the order unknown; an unsent one expires.
  unfoldable pub recover_one : OrderIntent → Exec (World B) (Unit {0})
  recover_one i =
      if state_eq i.state submitting
      then on_store (transition i.intent_id unknown >> skip)
      else (if state_in i.state (created ∷ approved ∷ [])
          then on_store (transition i.intent_id expired >> skip)
          else skip)

  unfoldable pub start : Exec (World B) (Unit {0})
  start = do
    on_store (ensure_session x.session_id x.risk.config.allocated_capital >> skip)
    on_store (pause x.session_id true)
    on_store (set_meta "reconciliation_ok" "false")
    modify (λ w. record w { started = true })
    all ← gets (λ w. intents w.store)
    for_each all recover_one
    reconcile
    skip

  -- `__enter__`: an exception of the start gives the lock back.
  unfoldable pub enter : Exec (World B) (Unit {0})
  enter = do acquire; catch start (λ e w. (err e, release (record w { started = false })))

  -- `__exit__`.
  unfoldable pub exit : Exec (World B) (Unit {0})
  exit = do
    pause_entries x
    clear ← gets (λ w. no_exposure w.store)
    when (not clear) (on_store (audit "STOP_WITH_RESIDUAL_EXPOSURE" none ""))
    modify (λ w. release (record w { started = false }))
