-- ===== src/Store/Intents.antt =====
-- `StateStore.create_intent` of persistence/store.py: an intent and its reservation, at once.
use bot_trading.Prelude.{
  String, Bool, true, false, not, ◌&&◌, ◌||◌, Option, none, some, [], ◌∷◌, ◌++◌, any, find_row,
  str_eq,
}
use bot_trading.Decimal.{Decimals, ◌+D◌, ◌*D◌, ◌<D◌}
use bot_trading.Exec.{
  Exec, lifecycle_error, value_error, integrity_error, pure, raise, gets, transaction, ◌>>=◌, ◌>>◌,
  modify, raise_if, skip,
}
use bot_trading.Order.State.{approved, state_eq}
use bot_trading.Order.Types.{IntentKind, kind_eq, mode_eq, OrderIntent}
use bot_trading.Store.Tables.{Store, IntentRow, Reservation}
use bot_trading.Store.Access.{audit, position}

module _ ⦃dec : Decimals⦄ where
  -- An entry is unique for its symbol, a close for its position.
  abbrev pub uniqueness_key : OrderIntent → Option String
  uniqueness_key i = elim i.kind [
    | IntentKind.entry ↦ some i.symbol
    | IntentKind.close ↦ i.position_id
  ]

  -- The row is the one of the unique index.
  abbrev pub same_slot : OrderIntent → String → IntentRow → Bool
  same_slot i key row =
      str_eq row.strategy i.strategy
      && str_eq row.version i.version
      && str_eq row.session_id i.session_id
      && str_eq row.uniqueness_key key
      && kind_eq row.kind i.kind

  abbrev pub new_row : OrderIntent → String → IntentRow
  new_row i key = record {
    strategy = i.strategy;
    version = i.version;
    session_id = i.session_id;
    kind = i.kind;
    uniqueness_key = key;
    payload = i;
  }

  abbrev pub new_reservation : OrderIntent → Reservation
  new_reservation i = record {
    intent_id = i.intent_id;
    cash = i.units *D i.entry_price +D i.estimated_cost;
    risk = i.planned_risk;
  }

  -- `INSERT INTO intents`: the identifier is the primary key.
  unfoldable pub insert_intent : OrderIntent → String → Exec Store (Unit {0})
  insert_intent i key = do
    raise_if
        (← gets
          (λ s. any (λ (row : IntentRow). str_eq row.payload.intent_id i.intent_id) s.intents))
        integrity_error
    modify (λ s. record s { intents = s.intents ++ new_row i key ∷ [] })

  unfoldable pub insert_reservation : OrderIntent → Exec Store (Unit {0})
  insert_reservation i = do
    raise_if
        (← gets (λ s. any (λ (row : Reservation). str_eq row.intent_id i.intent_id) s.reservations))
        integrity_error
    modify (λ s. record s { reservations = s.reservations ++ new_reservation i ∷ [] })

  -- A close sells no more than the reconciled position holds.
  unfoldable pub check_close : OrderIntent → String → Exec Store (Unit {0})
  unfolding position
  check_close i key = do
    held ← position key
    raise_if
        (not (str_eq i.symbol held.symbol) || held.units <D i.units || not held.accounting_complete)
        (lifecycle_error "CLOSE_EXCEEDS_RECONCILED_OWNERSHIP")

  unfoldable pub register : OrderIntent → String → Exec Store (OrderIntent × Bool)
  unfolding insert_intent insert_reservation audit
  register i key = do
    insert_intent i key
    elim i.kind [ IntentKind.entry ↦ insert_reservation i | IntentKind.close ↦ skip ]
    audit "INTENT_DURABLE" (some i.intent_id) ""
    pure (i, true)

  abbrev pub reuse_or_register :
      OrderIntent → String → Option IntentRow → Exec Store (OrderIntent × Bool)
  reuse_or_register i key (some row) = pure (row.payload, false)
  reuse_or_register i key none = register i key

  -- The body of the transaction.
  unfoldable pub claim : OrderIntent → String → Exec Store (OrderIntent × Bool)
  claim i key = do
    elim i.kind [ IntentKind.entry ↦ skip | IntentKind.close ↦ check_close i key ]
    existing ← gets (λ s. find_row (same_slot i key) s.intents)
    reuse_or_register i key existing

  unfoldable pub claim_keyed : OrderIntent → Option String → Exec Store (OrderIntent × Bool)
  claim_keyed i none = raise (value_error "Close requires owned position identifier")
  claim_keyed i (some key) = transaction (claim i key)

  unfoldable pub create_intent : OrderIntent → Exec Store (OrderIntent × Bool)
  create_intent i = do
    mode ← gets (λ s. s.mode)
    raise_if (not (mode_eq i.mode mode) || not (state_eq i.state approved))
        (value_error "Only approved intents in this database mode may reserve exposure")
    claim_keyed i (uniqueness_key i)
