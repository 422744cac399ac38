-- ===== src/Executor/Orders.antt =====
-- `Executor._reject_pre_send`, `_send`, `_apply`, `cancel_pending_entries` and `close_owned` of
-- execution/engine.py.
use Prim.Native.String.{◌++◌ as append_text}
use bot_trading.Prelude.{
  String, Bool, true, false, not, ◌&&◌, ◌||◌, Option, none, some, [], ◌∷◌, str_eq, if◌then◌else◌,
}
use bot_trading.Decimal.{Decimals, Decimal, ◌≤D◌, ◌=D◌, zero_D}
use bot_trading.Risk.Types.{Stamp}
use bot_trading.Risk.Engine.{post_fill_risk}
use bot_trading.Exec.{
  Exec, Exn, lifecycle_error, value_error, rejected_before_send, pure, gets, ◌>>=◌, ◌>>◌, modify,
  raise_if, when, skip, catch, finally, for_each,
}
use bot_trading.Order.State.{
  created, approved, submitting, cancel_pending, rejected, expired, unknown, state_eq, state_in,
  is_active,
}
use bot_trading.Order.Types.{
  Mode, mode_text, IntentKind, kind_eq, OrderIntent, BrokerOrder, Position,
}
use bot_trading.Store.Tables.{is_given}
use bot_trading.Store.Access.{set_meta, audit, pause, intent, intents, transition, position}
use bot_trading.Store.Intents.{create_intent}
use bot_trading.Store.Booking.{apply_broker_order}
use bot_trading.Executor.World.{
  PreparedSubmission, Executor, World, on_store, on_broker, require_started,
}

module _ ⦃dec : Decimals⦄ {B : Type 0} (x : Executor B) where
  -- The order's fate is unknown until the broker says more.
  unfoldable pub mark_unknown : String → Exec (World B) (Unit {0})
  mark_unknown intent_id = do
    current ← on_store (intent intent_id)
    when (is_active current.state && not (state_eq current.state unknown))
        (on_store (transition intent_id unknown >> skip))

  unfoldable pub reject_pre_send : OrderIntent → String → Exec (World B) (Unit {0})
  reject_pre_send i text = do
    current ← on_store (intent i.intent_id)
    raise_if
        (not (state_in current.state (approved ∷ submitting ∷ []))
          || not (current.filled_units =D zero_D))
        (lifecycle_error "PRE_SEND_REJECTION_STATE_CONTRADICTION")
    on_store (transition i.intent_id rejected >> skip)
    on_store (pause x.session_id true)
    on_store (audit "REJECTED_PRE_SEND" (some i.intent_id) text)

  -- Whether the order was sent is not known.
  unfoldable pub submission_ambiguous : OrderIntent → Exec (World B) (Unit {0})
  submission_ambiguous i = do
    mark_unknown i.intent_id
    on_store (pause x.session_id true)
    on_store (set_meta "reconciliation_ok" "false")
    on_store (audit "SUBMISSION_AMBIGUOUS" (some i.intent_id) "")

  -- An exception of a submission: only a measured failure before the dispatch rejects the order.
  unfoldable pub submission_failed : OrderIntent → Exn → Exec (World B) (Unit {0})
  submission_failed i (rejected_before_send text) = reject_pre_send i text
  submission_failed i _ = submission_ambiguous i

  unfoldable pub dispatch : OrderIntent → Option (PreparedSubmission B) → Exec (World B) BrokerOrder
  dispatch i (some prepared) = on_broker (prepared.send i)
  dispatch i none = elim i.kind [
    | IntentKind.entry ↦ on_broker (x.broker.submit i)
    | IntentKind.close ↦ on_broker (x.broker.close i)
  ]

  -- Until an incident is managed, a further one is only noted.
  unfoldable pub manage_incident :
      (Position → Exec (World B) (Unit {0})) → Position → Exec (World B) (Unit {0})
  manage_incident manage p = do
    managing ← gets (λ w. w.incident_management)
    when (not managing) (do
      modify (λ w. record w { incident_management = true })
      finally (manage p) (λ w. record w { incident_management = false }))

  unfoldable pub report_incident :
      (Position → Exec (World B) (Unit {0}))
      → String
      → Position
      → Option String
      → Exec (World B) (Unit {0})
  report_incident manage intent_id p none = skip
  report_incident manage intent_id p (some incident) = do
    on_store (pause x.session_id true)
    on_store (audit incident (some intent_id) "")
    manage_incident manage p

  unfoldable pub check_fill :
      (Position → Exec (World B) (Unit {0}))
      → OrderIntent
      → BrokerOrder
      → Option String
      → Exec (World B) (Unit {0})
  check_fill manage i update none = skip
  check_fill manage i update (some position_id) = do
    p ← on_store (position position_id)
    let (_, incident) =
        post_fill_risk x.risk p.units p.average_entry p.stop_price p.planned_risk update.protected
    report_incident manage i.intent_id p incident

  -- `_apply`, over what it does about an incident.
  unfoldable pub apply_with :
      (Position → Exec (World B) (Unit {0})) → BrokerOrder → Stamp → Exec (World B) (Unit {0})
  apply_with manage update now = do
    i ← on_store (apply_broker_order update now)
    when
        (kind_eq i.kind IntentKind.entry
          && not (update.filled_units =D zero_D)
          && is_given update.position_id)
        (check_fill manage i update update.position_id)

  unfoldable pub send_with :
      (Position → Exec (World B) (Unit {0}))
      → OrderIntent
      → Stamp
      → Option (PreparedSubmission B)
      → Exec (World B) (Unit {0})
  send_with manage i now prepared =
      catch (do update ← dispatch i prepared; apply_with manage update now) (submission_failed i)

  unfoldable pub cancellation_failed : OrderIntent → Exn → Exec (World B) (Unit {0})
  cancellation_failed i _ = do
    mark_unknown i.intent_id
    on_store (set_meta "reconciliation_ok" "false")
    on_store (pause x.session_id true)
    on_store (audit "CANCEL_AMBIGUOUS" (some i.intent_id) "")

  unfoldable pub cancel_one :
      (Position → Exec (World B) (Unit {0})) → OrderIntent → Exec (World B) (Unit {0})
  cancel_one manage i =
      if not (kind_eq i.kind IntentKind.entry) || not (is_active i.state)
      then skip
      else (if state_in i.state (created ∷ approved ∷ [])
          then on_store (transition i.intent_id expired >> skip)
          else catch
              (do
                pending ← on_store (transition i.intent_id cancel_pending)
                update ← on_broker (x.broker.cancel pending)
                now ← on_broker x.broker.clock
                apply_with manage update now)
              (cancellation_failed i))

  unfoldable pub cancel_with : (Position → Exec (World B) (Unit {0})) → Exec (World B) (Unit {0})
  cancel_with manage = do
    require_started
    pending ← gets (λ w. intents w.store)
    for_each pending (cancel_one manage)

  -- An active entry that owns the position.
  abbrev pub owner_active : Position → OrderIntent → Bool
  owner_active p i = str_eq i.intent_id p.owner_intent_id && is_active i.state

  abbrev or_else : Option Decimal → Decimal → Decimal
  or_else none d = d
  or_else (some v) d = if v =D zero_D then d else v

  -- The intent of a close, with the defaults of `OrderIntent`.
  abbrev pub close_intent : Mode → Position → Option Decimal → Stamp → OrderIntent
  close_intent mode p price at = record {
    intent_id = x.uuid5 (append_text (mode_text mode) (append_text ":close:" p.position_id));
    session_id = x.session_id;
    signal_id = append_text "close:" p.position_id;
    symbol = p.symbol;
    units = p.units;
    entry_price = or_else price (or_else p.mark_price p.average_entry);
    stop_price = p.stop_price;
    state = approved;
    kind = IntentKind.close;
    position_id = some p.position_id;
    strategy = "ORB_RVOL";
    version = "0.1";
    mode = mode;
    created_at = at;
    planned_risk = zero_D;
    estimated_cost = zero_D;
    broker_order_id = none;
    filled_units = zero_D;
    average_price = none;
    cumulative_cost = zero_D;
  }

  -- What pydantic checks when an intent is built: its three amounts are positive and finite.
  unfoldable pub validated : OrderIntent → Exec (World B) OrderIntent
  validated i = do
    raise_if
        (not (dec.is_finite i.units)
          || i.units ≤D zero_D
          || not (dec.is_finite i.entry_price)
          || i.entry_price ≤D zero_D
          || not (dec.is_finite i.stop_price)
          || i.stop_price ≤D zero_D)
        (value_error "OrderIntent")
    pure i

  unfoldable pub submit_close :
      (Position → Exec (World B) (Unit {0}))
      → Position
      → Option Decimal
      → Option Stamp
      → Exec (World B) (Option OrderIntent)
  submit_close manage p price now = do
    at ← elim now [ some t ↦ pure t | none ↦ on_broker x.broker.clock ]
    mode ← gets (λ w. w.store.mode)
    built ← validated (close_intent mode p price at)
    (kept, fresh) ← on_store (create_intent built)
    when fresh (do
      sending ← on_store (transition kept.intent_id submitting)
      send_with manage sending at none)
    final ← on_store (intent kept.intent_id)
    pure (some final)
