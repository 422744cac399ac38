-- ===== src/Store/Fills.antt =====
-- `StateStore._apply_fill`, `_observe_remaining` and `_add_pnl` of persistence/store.py.
use bot_trading.Prelude.{
  String, Bool, true, false, not, ◌&&◌, ◌||◌, Option, none, some, [], ◌∷◌, ◌++◌, any, find_row,
  update_rows, is_some, ltb, ◌==◌, str_eq,
}
use bot_trading.Decimal.{Decimals, Decimal, ◌+D◌, ◌-D◌, ◌*D◌, ◌/D◌, ◌<D◌, ◌=D◌, zero_D, neg_D}
use bot_trading.Risk.Types.{Stamp}
use bot_trading.Exec.{
  Exec, lifecycle_error, integrity_error, assertion_error, gets, or_raise, ◌>>=◌, ◌>>◌, modify,
  raise_if, when,
}
use bot_trading.Order.State.{filled, state_eq}
use bot_trading.Order.Types.{IntentKind, OrderIntent, BrokerOrder, Fill, Position, TradingSession}
use bot_trading.Store.Tables.{Store, is_given}
use bot_trading.Store.Access.{session, pause, set_meta, audit, intent, position, save_position}

module _ ⦃dec : Decimals⦄ where
  -- Python's `==` of two optional numbers.
  abbrev pub same_amount : Option Decimal → Option Decimal → Bool
  same_amount none none = true
  same_amount (some a) (some b) = a =D b
  same_amount _ _ = false

  unfoldable pub add_pnl : String → Decimal → Exec Store (Unit {0})
  unfolding session
  add_pnl session_id pnl = do
    found ← session session_id
    modify (λ s. record s {
      sessions =
          update_rows (λ (row : TradingSession). str_eq row.session_id session_id)
            (λ row. record row { realized_pnl = found.realized_pnl +D pnl }) s.sessions;
    })

  -- The position after an entry's fill; a further fill keeps its result and averages its price.
  abbrev pub entered :
      OrderIntent → BrokerOrder → String → Option Position → Decimal → Decimal → Position
  entered i update position_id existing delta price =
      let old_units : Decimal = elim existing [ none ↦ zero_D | some p ↦ p.units ] in
      let old_notional : Decimal = elim existing [
        | none ↦ zero_D
        | some p ↦ p.units *D p.average_entry
      ] in
      record {
        position_id = position_id;
        owner_intent_id = i.intent_id;
        session_id = i.session_id;
        symbol = i.symbol;
        units = old_units +D delta;
        average_entry = (old_notional +D delta *D price) /D (old_units +D delta);
        stop_price = i.stop_price;
        protected = update.protected;
        realized_pnl = elim existing [ none ↦ zero_D | some p ↦ p.realized_pnl ];
        mark_price = some price;
        planned_risk = i.planned_risk *D update.filled_units /D i.units;
        mode = i.mode;
        observed_units = none;
        observed_at = none;
        accounting_complete = true;
      }

  abbrev pub close_result : Position → Decimal → Decimal → Decimal → Decimal
  close_result p delta price cost = delta *D (price -D p.average_entry) -D cost

  -- The position after a close's fill.
  abbrev pub reduced : Position → Decimal → Decimal → Decimal → Position
  reduced p delta price cost = record p {
    units = p.units -D delta;
    realized_pnl = p.realized_pnl +D close_result p delta price cost;
    mark_price = some price;
    accounting_complete = elim p.observed_units [
      | none ↦ true
      | some seen ↦ seen =D (p.units -D delta)
    ];
  }

  abbrev owned_elsewhere : OrderIntent → Option Position → Bool
  owned_elsewhere i none = false
  owned_elsewhere i (some p) = not (str_eq p.owner_intent_id i.intent_id)

  unfoldable pub fill_entry :
      OrderIntent → BrokerOrder → String → Decimal → Decimal → Decimal → Exec Store (Unit {0})
  fill_entry i update position_id delta price cost = do
    existing ← gets (λ s. find_row (λ (p : Position). str_eq p.position_id position_id) s.positions)
    raise_if (owned_elsewhere i existing) (lifecycle_error "POSITION_OWNERSHIP_COLLISION")
    save_position (entered i update position_id existing delta price)
    add_pnl i.session_id (neg_D cost)

  unfoldable pub fill_close :
      OrderIntent → String → Decimal → Decimal → Decimal → Exec Store (Unit {0})
  fill_close i position_id delta price cost = do
    raise_if (elim i.position_id [ none ↦ true | some own ↦ not (str_eq own position_id) ])
        (lifecycle_error "CLOSE_POSITION_ID_MISMATCH")
    existing ← position position_id
    raise_if (existing.units <D delta) (lifecycle_error "CLOSE_WOULD_OPEN_SHORT")
    save_position (reduced existing delta price cost)
    add_pnl i.session_id (close_result existing delta price cost)

  -- `INSERT INTO fills`: the broker's order and its filled total are the primary key.
  unfoldable pub insert_fill : Fill → Exec Store (Unit {0})
  insert_fill f = do
    raise_if
        (← gets (λ s.
          any (λ (row : Fill). str_eq row.fill_order f.fill_order && row.fill_total =D f.fill_total)
            s.fills))
        integrity_error
    modify (λ s. record s { fills = s.fills ++ f ∷ [] })

  unfoldable pub fill_position :
      IntentKind
      → OrderIntent
      → BrokerOrder
      → String
      → Decimal
      → Decimal
      → Decimal
      → Exec Store (Unit {0})
  fill_position IntentKind.entry i update position_id delta price cost =
      fill_entry i update position_id delta price cost
  fill_position IntentKind.close i update position_id delta price cost =
      fill_close i position_id delta price cost

  unfoldable pub apply_fill :
      OrderIntent
      → BrokerOrder
      → String
      → Decimal
      → Decimal
      → Decimal
      → Stamp
      → Exec Store (Unit {0})
  apply_fill i update position_id delta price cost now = do
    fill_position i.kind i update position_id delta price cost
    insert_fill (record {
      fill_order = update.broker_order_id;
      fill_total = update.filled_units;
      intent_id = i.intent_id;
      units = delta;
      price = price;
      cost = cost;
      at = now;
    })

  abbrev foreign_observation : OrderIntent → Position → Bool
  foreign_observation i p = elim i.kind [
    | IntentKind.entry ↦ not (str_eq p.owner_intent_id i.intent_id)
    | IntentKind.close ↦ elim i.position_id [
      | none ↦ true
      | some own ↦ not (str_eq own p.position_id)
    ]
  ]

  -- Comparisons with the time of the last observation, if there was one.
  abbrev seen_after : Position → Stamp → Bool
  seen_after p stamp = elim p.observed_at [ none ↦ false | some t ↦ ltb stamp.micros t.micros ]

  abbrev seen_at : Position → Stamp → Bool
  seen_at p stamp = elim p.observed_at [ none ↦ false | some t ↦ t.micros == stamp.micros ]

  abbrev grew : Position → Decimal → Bool
  grew p remaining = elim p.observed_units [ none ↦ false | some seen ↦ seen <D remaining ]

  abbrev observed : Position → Decimal → Stamp → Position
  observed p remaining stamp = record p {
    observed_units = some remaining;
    observed_at = some stamp;
    accounting_complete = p.units =D remaining;
  }

  -- The checks of an observation against the position it names.
  unfoldable pub check_observation :
      OrderIntent → Position → Decimal → Stamp → Stamp → Exec Store (Unit {0})
  check_observation i found remaining stamp now = do
    raise_if (foreign_observation i found) (lifecycle_error "OBSERVATION_OWNERSHIP_MISMATCH")
    raise_if (not stamp.aware || not now.aware || ltb now.micros stamp.micros)
        (lifecycle_error "POSITION_OBSERVATION_TIME_INVALID")
    raise_if (seen_after found stamp) (lifecycle_error "POSITION_SNAPSHOT_STALE")
    raise_if (seen_at found stamp && not (same_amount found.observed_units (some remaining)))
        (lifecycle_error "POSITION_SNAPSHOT_CONFLICT")
    raise_if (found.units <D remaining) (lifecycle_error "POSITION_EXPOSURE_INCONSISTENT")
    when (grew found remaining) (do
      owner ← intent found.owner_intent_id
      raise_if (state_eq owner.state filled) (lifecycle_error "POSITION_EXPOSURE_REGRESSION"))

  -- An observation that the booked units do not explain blocks further entries.
  unfoldable pub block_on_difference : OrderIntent → Position → Decimal → Exec Store (Unit {0})
  block_on_difference i found remaining = when (not (found.units =D remaining)) (do
    pause i.session_id true
    set_meta "reconciliation_ok" "false"
    audit "EXPOSURE_OBSERVED_ACCOUNTING_PENDING" (some i.intent_id) "")

  unfoldable pub observe_remaining :
      OrderIntent → BrokerOrder → Decimal → Stamp → Exec Store (Unit {0})
  observe_remaining i u remaining now = do
    raise_if (not (is_given u.position_id) || not (is_some u.observed_at))
        (lifecycle_error "POSITION_OBSERVATION_INCOMPLETE")
    position_id ← or_raise assertion_error u.position_id
    stamp ← or_raise assertion_error u.observed_at
    found ← position position_id
    check_observation i found remaining stamp now
    save_position (observed found remaining stamp)
    block_on_difference i found remaining
