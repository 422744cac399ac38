-- ===== src/Store/Booking.antt =====
-- `StateStore.apply_broker_order` of persistence/store.py: a cumulative report of the broker is
-- checked and booked in one transaction.
use mathlib.Core.Option
use bot_trading.Prelude.{
  String, Bool, true, false, not, ◌&&◌, ◌||◌, Option, none, some, [], ◌∷◌, find_row, upsert,
  is_some, str_eq, if◌then◌else◌,
}
use bot_trading.Decimal.{Decimals, Decimal, ◌+D◌, ◌-D◌, ◌*D◌, ◌/D◌, ◌≤D◌, ◌<D◌, ◌=D◌, zero_D, neg_D}
use bot_trading.Risk.Types.{Stamp}
use bot_trading.Exec.{
  Exec, lifecycle_error, assertion_error, pure, gets, lift, or_raise, transaction, ◌>>=◌, ◌>>◌,
  modify, raise_if, when, skip,
}
use bot_trading.Order.State.{
  filled, partially_filled, cancelled, expired, state_eq, state_in, is_active, validate_transition,
  state_name,
}
use bot_trading.Order.Types.{IntentKind, kind_eq, OrderIntent, BrokerOrder}
use bot_trading.Store.Tables.{Store, Reservation, BrokerCost, is_given}
use bot_trading.Store.Access.{
  pause, audit, intent, position, save_intent, save_position, delete_reservation,
}
use bot_trading.Store.Fills.{same_amount, add_pnl, apply_fill, observe_remaining}

module _ ⦃dec : Decimals⦄ where
  -- `intent.broker_order_id and intent.broker_order_id != update.broker_order_id`
  abbrev broker_id_changed : OrderIntent → BrokerOrder → Bool
  broker_id_changed i u = elim i.broker_order_id [
    | none ↦ false
    | some known ↦ not (str_eq known "") && not (str_eq known u.broker_order_id)
  ]

  unfoldable pub filled_mismatch : Decimal → BrokerOrder → Bool
  filled_mismatch units u = state_eq u.state filled && not (u.filled_units =D units)

  unfoldable pub partial_mismatch : Decimal → BrokerOrder → Bool
  partial_mismatch units u =
      state_eq u.state partially_filled && not (zero_D <D u.filled_units && u.filled_units <D units)

  unfoldable pub evidence_missing : BrokerOrder → Bool
  evidence_missing u =
      not (u.filled_units =D zero_D)
      && (not (is_given u.position_id) || not (is_some u.average_price))

  -- The checks of the report against the intent, in the order of the source.
  unfoldable pub check_report : OrderIntent → BrokerOrder → Exec Store (Unit {0})
  check_report i u = do
    lift (validate_transition i.state u.state)
    raise_if (broker_id_changed i u) (lifecycle_error "BROKER_ID_CHANGED")
    raise_if (str_eq u.broker_order_id "" || i.units <D u.filled_units)
        (lifecycle_error "OVERFILL_OR_MISSING_BROKER_ID")
    raise_if (u.filled_units <D i.filled_units) (lifecycle_error "CUMULATIVE_FILL_REGRESSION")
    raise_if (filled_mismatch i.units u) (lifecycle_error "FILLED_QUANTITY_MISMATCH")
    raise_if (partial_mismatch i.units u) (lifecycle_error "PARTIAL_QUANTITY_MISMATCH")
    raise_if (evidence_missing u) (lifecycle_error "FILL_EVIDENCE_MISSING")

  unfoldable pub booked_cost : OrderIntent → Store → Decimal
  booked_cost i s =
      elim (find_row (λ (row : BrokerCost). str_eq row.intent_id i.intent_id) s.broker_costs) [
        | none ↦ zero_D
        | some row ↦ row.total
      ]

  abbrev pub updated_intent : OrderIntent → BrokerOrder → OrderIntent
  updated_intent i u = record i {
    state = u.state;
    broker_order_id = some u.broker_order_id;
    filled_units = u.filled_units;
    average_price = u.average_price;
    cumulative_cost = u.cumulative_cost;
  }

  -- The price of the newly filled units, from the two cumulative averages.
  abbrev pub delta_price : OrderIntent → BrokerOrder → Decimal → Decimal → Decimal
  delta_price i u average delta =
      (u.filled_units *D average -D i.filled_units *D Option.get_or i.average_price zero_D) /D delta

  -- A fill of a cancelled or expired order is an incident.
  unfoldable pub report_late_fill : OrderIntent → Exec Store (Unit {0})
  report_late_fill i =
      when (state_in i.state (cancelled ∷ expired ∷ []))
        (do pause i.session_id true; audit "INCIDENT_LATE_FILL" (some i.intent_id) "")

  unfoldable pub book_delta :
      OrderIntent → BrokerOrder → Decimal → Decimal → Stamp → Exec Store (Unit {0})
  book_delta i u delta cost_delta now = do
    average ← or_raise assertion_error u.average_price
    position_id ← or_raise assertion_error u.position_id
    raise_if (delta_price i u average delta ≤D zero_D)
        (lifecycle_error "INVALID_INCREMENTAL_FILL_PRICE")
    apply_fill i u position_id delta (delta_price i u average delta) cost_delta now
    report_late_fill i

  abbrev charge_position : OrderIntent → Option String → Decimal → Exec Store (Unit {0})
  charge_position i none cost_delta = skip
  charge_position i (some position_id) cost_delta = if str_eq position_id "" then skip else (do
    held ← position position_id
    save_position (record held { realized_pnl = held.realized_pnl -D cost_delta }))

  -- Costs that come without a new fill.
  unfoldable pub book_cost : OrderIntent → Decimal → Exec Store (Unit {0})
  book_cost i cost_delta = do
    add_pnl i.session_id (neg_D cost_delta)
    elim i.kind [
      | IntentKind.entry ↦ skip
      | IntentKind.close ↦ charge_position i i.position_id cost_delta
    ]

  unfoldable pub save_cost : OrderIntent → BrokerOrder → Exec Store (Unit {0})
  save_cost i u = modify (λ s. record s {
    broker_costs =
        upsert (λ (row : BrokerCost). str_eq row.intent_id i.intent_id)
          (record { intent_id = i.intent_id; total = u.cumulative_cost }) s.broker_costs;
  })

  -- What an entry keeps reserved while it is active: the unfilled fraction.
  abbrev pub remaining_reservation : OrderIntent → BrokerOrder → Reservation
  remaining_reservation i u =
      let fraction = (i.units -D u.filled_units) /D i.units in
      record {
        intent_id = i.intent_id;
        cash = (i.units *D i.entry_price +D i.estimated_cost) *D fraction;
        risk = i.planned_risk *D fraction;
      }

  unfoldable pub update_reservation : OrderIntent → BrokerOrder → Exec Store (Unit {0})
  update_reservation i u =
      if kind_eq i.kind IntentKind.entry && is_active u.state
      then modify (λ s. record s {
        reservations =
            upsert (λ (row : Reservation). str_eq row.intent_id i.intent_id)
              (remaining_reservation i u) s.reservations;
      })
      else delete_reservation i.intent_id

  abbrev pub observe : OrderIntent → BrokerOrder → Option Decimal → Stamp → Exec Store (Unit {0})
  observe i u none now = skip
  observe i u (some remaining) now = observe_remaining i u remaining now

  -- The fill or the late cost of a report, whichever it brings.
  unfoldable pub book_report :
      OrderIntent → BrokerOrder → Decimal → Decimal → Stamp → Exec Store (Unit {0})
  book_report i u delta cost_delta now =
      if zero_D <D delta
      then book_delta i u delta cost_delta now
      else (if cost_delta =D zero_D then skip else book_cost i cost_delta)

  -- The writes of an accepted report.
  unfoldable pub commit_report :
      OrderIntent → BrokerOrder → Decimal → Stamp → Exec Store OrderIntent
  commit_report i u old_cost now = do
    save_intent (updated_intent i u)
    book_report i u (u.filled_units -D i.filled_units) (u.cumulative_cost -D old_cost) now
    observe i u u.remaining_units now
    save_cost i u
    update_reservation i u
    audit "BROKER_RECONCILED" (some i.intent_id) (state_name u.state)
    pure (updated_intent i u)

  -- The checks against what is already booked.
  unfoldable pub check_booked : OrderIntent → BrokerOrder → Decimal → Exec Store (Unit {0})
  check_booked i u old_cost = do
    raise_if (u.cumulative_cost <D old_cost) (lifecycle_error "CUMULATIVE_COST_REGRESSION")
    raise_if
        ((u.filled_units -D i.filled_units) =D zero_D
          && not (i.filled_units =D zero_D)
          && not (same_amount u.average_price i.average_price))
        (lifecycle_error "CUMULATIVE_PRICE_REVISION_REQUIRES_ACCOUNTING")

  unfoldable pub apply_broker_order : BrokerOrder → Stamp → Exec Store OrderIntent
  apply_broker_order u now = transaction (do
    i ← intent u.intent_id
    check_report i u
    old_cost ← gets (booked_cost i)
    check_booked i u old_cost
    commit_report i u old_cost now)
