-- ===== src/Executor/Entry.antt =====
-- `Executor.submit_entry` of execution/engine.py.
use Prim.Native.String.{◌++◌ as append_text}
use bot_trading.Prelude.{
  String, Bool, true, false, not, ◌&&◌, Option, none, some, find_row, str_eq, if◌then◌else◌,
}
use bot_trading.Decimal.{Decimals, zero_D}
use bot_trading.Risk.Types.{EntryRequest, RiskDecision, refusal}
use bot_trading.Risk.Engine.{assess}
use bot_trading.Exec.{
  Exec, Result, ok, err, value_error, rejected_before_send, pure, raise, gets, ◌>>=◌, ◌>>◌,
  raise_if,
}
use bot_trading.Order.State.{approved, submitting}
use bot_trading.Order.Types.{Mode, mode_eq, mode_text, IntentKind, kind_eq, OrderIntent}
use bot_trading.Store.Access.{set_meta, audit, intent, intents, transition}
use bot_trading.Store.Intents.{create_intent}
use bot_trading.Store.Portfolio.{portfolio}
use bot_trading.Executor.World.{
  PreparedSubmission, Shared, Executor, World, on_store, on_broker, require_started,
}
use bot_trading.Executor.Orders.{reject_pre_send, validated}
use bot_trading.Executor.Closing.{send}

module _ ⦃dec : Decimals⦄ where
  pub record SubmissionResult : Type 0 where
    pub intent : Option OrderIntent
    pub decision : RiskDecision
    pub duplicate : Bool

  abbrev pub result : Option OrderIntent → RiskDecision → Bool → SubmissionResult
  result i d duplicate = record { intent = i; decision = d; duplicate = duplicate }

  -- An earlier entry of the same strategy, version, session and symbol.
  abbrev pub same_entry : EntryRequest → OrderIntent → Bool
  same_entry r old =
      str_eq old.strategy r.strategy
      && str_eq old.version r.version
      && str_eq old.session_id r.session_id
      && str_eq old.symbol r.symbol
      && kind_eq old.kind IntentKind.entry

  -- The text that `uuid5` names.
  abbrev entry_name : Mode → EntryRequest → String
  entry_name mode r = append_text (mode_text mode) (
      append_text ":" (
        append_text r.strategy (
          append_text ":" (
            append_text r.version (
              append_text ":"
                (append_text r.session_id (append_text ":" (append_text r.symbol ":entry"))))))))

module _ ⦃dec : Decimals⦄ {B : Type 0} (x : Executor B) where
  abbrev pub entry_intent : Mode → EntryRequest → RiskDecision → OrderIntent
  entry_intent mode r d = record {
    intent_id = x.uuid5 (entry_name mode r);
    session_id = r.session_id;
    signal_id = r.signal_id;
    symbol = r.symbol;
    units = d.units;
    entry_price = r.entry_price;
    stop_price = r.stop_price;
    state = approved;
    kind = IntentKind.entry;
    position_id = none;
    strategy = r.strategy;
    version = r.version;
    mode = mode;
    created_at = r.now;
    planned_risk = d.planned_risk;
    estimated_cost = d.estimated_cost;
    broker_order_id = none;
    filled_units = zero_D;
    average_price = none;
    cumulative_cost = zero_D;
  }

  -- The durable intent goes out: it is marked as submitting before the broker is called.
  unfoldable pub send_entry :
      OrderIntent
      → EntryRequest
      → RiskDecision
      → Option (PreparedSubmission B)
      → Exec (World B) SubmissionResult
  send_entry i r d prepared = do
    sending ← on_store (transition i.intent_id submitting)
    send x sending r.now prepared
    final ← on_store (intent sending.intent_id)
    pure (result (some final) d false)

  unfoldable pub prepared_entry :
      OrderIntent
      → EntryRequest
      → RiskDecision
      → PreparedSubmission B
      → Exec (World B) SubmissionResult
  prepared_entry i r d prepared = do
    on_store (set_meta (append_text "prepared:" i.intent_id) prepared.metadata)
    on_store (audit "PREPARED" (some i.intent_id) "")
    send_entry i r d (some prepared)

  -- `prepare` may reject the order before anything is sent; other exceptions go on.
  unfoldable pub after_prepare :
      OrderIntent
      → EntryRequest
      → RiskDecision
      → Result (PreparedSubmission B)
      → Exec (World B) SubmissionResult
  after_prepare i r d (ok prepared) = prepared_entry i r d prepared
  after_prepare i r d (err (rejected_before_send text)) = do
    reject_pre_send x i text
    final ← on_store (intent i.intent_id)
    pure (result (some final) d false)
  after_prepare i r d (err e) = raise e

  unfoldable pub prepare_entry :
      OrderIntent
      → EntryRequest
      → RiskDecision
      → Option (OrderIntent → Exec (Shared B) (PreparedSubmission B))
      → Exec (World B) SubmissionResult
  prepare_entry i r d none w = send_entry i r d none w
  prepare_entry i r d (some prepare) w =
      let (prepared, w') = on_broker (prepare i) w in after_prepare i r d prepared w'

  unfoldable pub submit_approved : EntryRequest → RiskDecision → Exec (World B) SubmissionResult
  submit_approved r d = do
    mode ← gets (λ w. w.store.mode)
    built ← validated x (entry_intent mode r d)
    (kept, fresh) ← on_store (create_intent built)
    (if fresh
        then prepare_entry kept r d x.broker.prepare
        else pure (result (some kept) (refusal "DUPLICATE_INTENT") true))

  unfoldable pub submit_decided : EntryRequest → RiskDecision → Exec (World B) SubmissionResult
  submit_decided r d =
      if d.approved
      then submit_approved r d
      else (do on_store (audit "ENTRY_REJECTED" none d.reason); pure (result none d false))

  unfoldable pub submit_assessed : EntryRequest → Exec (World B) SubmissionResult
  submit_assessed r = do
    account ← on_store (portfolio x.session_id)
    submit_decided r (assess x.risk r account)

  unfoldable pub submit_new : EntryRequest → Exec (World B) SubmissionResult
  submit_new r = do
    mode ← gets (λ w. w.store.mode)
    (if mode_eq mode Mode.shadow
        then pure (result none (refusal "SHADOW_MUTATION_BLOCKED") false)
        else submit_assessed r)

  abbrev submit_found : EntryRequest → Option OrderIntent → Exec (World B) SubmissionResult
  submit_found r (some old) = pure (result (some old) (refusal "DUPLICATE_INTENT") true)
  submit_found r none = submit_new r

  unfoldable pub submit_entry : EntryRequest → Exec (World B) SubmissionResult
  submit_entry r = do
    require_started
    raise_if (not (str_eq r.session_id x.session_id))
        (value_error "Signal session differs from executor session")
    all ← gets (λ w. intents w.store)
    submit_found r (find_row (same_entry r) all)
