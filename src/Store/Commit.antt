-- ===== src/Store/Commit.antt =====
-- What `apply_broker_order` leaves in the tables when it accepts a report.
use bot_trading.Prelude.{
  ◌≡◌, refl, inl, inr, ◌&&◌, List, update_rows, delete_rows, upsert, str_eq, if◌then◌else◌, arith,
}
use bot_trading.Decimal.{Decimals, Decimal, ◌-D◌}
use bot_trading.Risk.Types.{Stamp}
use bot_trading.Exec.{ok, Result-cases}
use bot_trading.Order.State.{is_active}
use bot_trading.Order.Types.{IntentKind, kind_eq, OrderIntent, BrokerOrder}
use bot_trading.Store.Tables.{Store, IntentRow, Reservation, BrokerCost}
use bot_trading.Store.Access.{save_row, save_intent, intent, delete_reservation, audit}
use bot_trading.Store.Booking.{
  updated_intent, remaining_reservation, book_report, observe, save_cost, update_reservation,
  booked_cost, check_report, check_booked, commit_report, apply_broker_order,
}
use bot_trading.Store.Frame.{SameOrders, book_report_frame, observe_frame, intent_same}

module _ ⦃dec : Decimals⦄ where
  abbrev pub saved_rows : OrderIntent → BrokerOrder → Store → List IntentRow
  saved_rows i u s =
      update_rows (λ (row : IntentRow). str_eq row.payload.intent_id i.intent_id)
        (save_row (updated_intent i u)) s.intents

  abbrev pub saved_costs : OrderIntent → BrokerOrder → Store → List BrokerCost
  saved_costs i u s =
      upsert (λ (row : BrokerCost). str_eq row.intent_id i.intent_id)
        (record { intent_id = i.intent_id; total = u.cumulative_cost }) s.broker_costs

  abbrev pub saved_reservations : OrderIntent → BrokerOrder → Store → List Reservation
  saved_reservations i u s =
      if kind_eq i.kind IntentKind.entry && is_active u.state
      then upsert (λ (row : Reservation). str_eq row.intent_id i.intent_id)
          (remaining_reservation i u) s.reservations
      else delete_rows (λ (row : Reservation). str_eq row.intent_id i.intent_id) s.reservations

  -- The intents, the costs and the reservations after an accepted report.
  pub record IsSaved (i : OrderIntent) (u : BrokerOrder) (s s' : Store) : Type 0 where
    pub intents_saved : s'.intents ≡ saved_rows i u s
    pub costs_saved : s'.broker_costs ≡ saved_costs i u s
    pub reservations_saved : s'.reservations ≡ saved_reservations i u s
    pub mode_saved : s'.mode ≡ s.mode

  -- The store after the intent alone is saved.
  abbrev pub with_intent : OrderIntent → BrokerOrder → Store → Store
  with_intent i u s = record s { intents = saved_rows i u s }

  save_intent_lem :
      (i : OrderIntent) (u : BrokerOrder) (s : Store)
      → save_intent (updated_intent i u) s ≡ (ok tt, with_intent i u s)
  unfolding save_intent
  save_intent_lem i u s = refl

  update_reservation-IsSaved :
      (i : OrderIntent) (u : BrokerOrder) (s t : Store)
      → SameOrders (with_intent i u s) t
      → IsSaved i u s (update_reservation i u (save_cost i u t).1).1
  unfolding update_reservation save_cost delete_reservation
  update_reservation-IsSaved i u s t same = ground arith

  pub commit_report-IsSaved :
      (i : OrderIntent) (u : BrokerOrder) (old : Decimal) (now : Stamp) (s s' : Store)
      {i' : OrderIntent}
      → commit_report i u old now s ≡ (ok i', s')
      → IsSaved i u s s'
  unfolding commit_report audit
  commit_report-IsSaved i u old now s s' h =
      let s1 = with_intent i u s in
      let s2 =
        (book_report i u (u.filled_units -D i.filled_units) (u.cumulative_cost -D old) now s1).1 in
      ground (
        arith,
        save_intent_lem i u s,
        update_reservation-IsSaved i u s (observe i u u.remaining_units now s2).1,
        book_report_frame i u (u.filled_units -D i.filled_units) (u.cumulative_cost -D old) now s1,
        observe_frame i u u.remaining_units now s2,
      )

  -- An accepted report returns the intent that it saves.
  pub commit_returns :
      (i : OrderIntent) (u : BrokerOrder) (old : Decimal) (now : Stamp) (s s' : Store)
      {i' : OrderIntent}
      → commit_report i u old now s ≡ (ok i', s')
      → i' ≡ updated_intent i u
  unfolding commit_report
  commit_returns i u old now s s' h = ground arith

  check_report_same : (i : OrderIntent) (u : BrokerOrder) (s : Store) → (check_report i u s).1 ≡ s
  unfolding check_report
  check_report_same i u s = ground arith

  check_booked_same :
      (i : OrderIntent) (u : BrokerOrder) (old : Decimal) (s : Store)
      → (check_booked i u old s).1 ≡ s
  unfolding check_booked
  check_booked_same i u old s = ground arith

  -- An accepted report: the intent it is about, the checks it passed, and its commit.
  pub record IsAccepted (u : BrokerOrder) (now : Stamp) (s s' : Store) (i' i : OrderIntent)
      : Type 0 where
    pub found : intent u.intent_id s ≡ (ok i, s)
    pub checked : check_report i u s ≡ (ok tt, s)
    pub fresh : check_booked i u (booked_cost i s) s ≡ (ok tt, s)
    pub committed : commit_report i u (booked_cost i s) now s ≡ (ok i', s')

  pub apply_broker_order-IsAccepted :
      (u : BrokerOrder) (now : Stamp) (s s' : Store) {i' : OrderIntent}
      → apply_broker_order u now s ≡ (ok i', s')
      → (i : OrderIntent) × IsAccepted u now s s' i' i
  unfolding apply_broker_order
  apply_broker_order-IsAccepted u now s s' {i'} h = elim (Result-cases (intent u.intent_id s).0) [
    | inr (e, failed) ↦ absurd (ground (arith, intent_same u.intent_id s))
    | inl (i, found) ↦ (
      i,
      ground (
        arith,
        intent_same u.intent_id s,
        check_report_same i u s,
        check_booked_same i u (booked_cost i s) s,
      ),
    )
  ]
