-- ===== src/Store/Replay.antt =====
-- A report that the broker delivers twice is booked once.
use mathlib.Core.Path.{subst}
use bot_trading.Prelude.{
  String, ◌≡◌, refl, sym, none, some, [], ◌∷◌, ◌++◌, find_row, str_eq, eq_iff, Option-cases, inl,
  inr, arith,
}
use bot_trading.Prelude.TableLaws.{
  find_row_test, find_row-update_rows, update_rows_twice, find_row-upsert, upsert_twice,
  delete_rows_twice,
}
use bot_trading.Decimal.{Decimals, ◌-D◌, zero_D}
use bot_trading.Decimal.Laws.{IsOrdered}
use bot_trading.Risk.Types.{Stamp}
use bot_trading.Exec.{ok}
use bot_trading.Order.State.{OrderState, validate_transition, state_name}
use bot_trading.Order.Types.{OrderIntent, BrokerOrder}
use bot_trading.Store.Tables.{Store, IntentRow, Reservation, BrokerCost}
use bot_trading.Store.Access.{save_row, save_intent, intent, delete_reservation, audit}
use bot_trading.Store.Booking.{
  updated_intent, remaining_reservation, book_report, save_cost, update_reservation, booked_cost,
  check_report, check_booked, commit_report, apply_broker_order,
}
use bot_trading.Store.Commit.{
  IsSaved, apply_broker_order-IsAccepted, commit_report-IsSaved, commit_returns,
}

module _ ⦃dec : Decimals⦄ where
  -- The store after the row that every accepted report writes to the audit.
  abbrev pub audited : OrderIntent → BrokerOrder → Store → Store
  audited i u s = record s {
    audit =
        s.audit
        ++ record {
          kind = "BROKER_RECONCILED";
          intent_id = some i.intent_id;
          details = state_name u.state;
          mode = s.mode;
        }
          ∷ [];
  }

  pub found_id :
      (id : String) (i : OrderIntent) (s : Store) → intent id s ≡ (ok i, s) → i.intent_id ≡ id
  unfolding intent
  found_id id i s h =
      elim (Option-cases
        (find_row (λ (row : IntentRow). str_eq row.payload.intent_id id) s.intents)) [
          | inl missing ↦ ground arith
          | inr (row, found) ↦ ground (
            arith,
            eq_iff row.payload.intent_id id,
            find_row_test (λ (row : IntentRow). str_eq row.payload.intent_id id) s.intents {x = row}
                found,
          )
        ]

  found_own :
      (i : OrderIntent) (u : BrokerOrder) (s s' : Store)
      → intent i.intent_id s ≡ (ok i, s)
      → IsSaved i u s s'
      → intent i.intent_id s' ≡ (ok (updated_intent i u), s')
  unfolding intent
  found_own i u s s' h saved = ground (
    arith,
    saved.intents_saved,
    find_row-update_rows (λ (row : IntentRow). str_eq row.payload.intent_id i.intent_id)
        (save_row (updated_intent i u)) (λ row p. (eq_iff i.intent_id i.intent_id).1 refl)
        s.intents,
  )

  pub found_again :
      (i : OrderIntent) (u : BrokerOrder) (s s' : Store)
      → intent u.intent_id s ≡ (ok i, s)
      → IsSaved i u s s'
      → intent u.intent_id s' ≡ (ok (updated_intent i u), s')
  found_again i u s s' h saved =
      let same = found_id u.intent_id i s h in
      subst (λ id. intent id s' ≡ (ok (updated_intent i u), s')) same
        (found_own i u s s' (subst (λ id. intent id s ≡ (ok i, s)) (sym same) h) saved)

  validate_self : (t : OrderState) → validate_transition t t ≡ ok tt
  unfolding validate_transition
  validate_self t = ground arith

  checked_again :
      IsOrdered dec
      → (i : OrderIntent) (u : BrokerOrder) (s s' : Store) → check_report i u s ≡ (ok tt, s)
      → check_report (updated_intent i u) u s' ≡ (ok tt, s')
  unfolding check_report
  checked_again ord i u s s' h = ground (
    arith,
    validate_self u.state,
    eq_iff u.broker_order_id u.broker_order_id,
    ord.le_refl u.filled_units,
  )

  booked_again :
      (i : OrderIntent) (u : BrokerOrder) (s s' : Store)
      → IsSaved i u s s'
      → booked_cost (updated_intent i u) s' ≡ u.cumulative_cost
  unfolding booked_cost
  booked_again i u s s' saved = ground (
    arith,
    saved.costs_saved,
    eq_iff i.intent_id i.intent_id,
    find_row-upsert (λ (row : BrokerCost). str_eq row.intent_id i.intent_id)
        (record { intent_id = i.intent_id; total = u.cumulative_cost }) s.broker_costs,
  )

  fresh_again :
      IsOrdered dec
      → (i : OrderIntent) (u : BrokerOrder) (s' : Store)
      → check_booked (updated_intent i u) u u.cumulative_cost s' ≡ (ok tt, s')
  unfolding check_booked
  fresh_again ord i u s' = elim (Option-cases u.average_price) [
    | inl missing ↦ ground (arith, ord.le_refl u.cumulative_cost)
    | inr (price, given) ↦ ground (arith, ord.le_refl u.cumulative_cost, ord.le_refl price)
  ]

  rows_again :
      (i : OrderIntent) (u : BrokerOrder) (s s' : Store)
      → IsSaved i u s s'
      → save_intent (updated_intent (updated_intent i u) u) s' ≡ (ok tt, s')
  unfolding save_intent
  rows_again i u s s' saved = ground (
    arith,
    saved.intents_saved,
    update_rows_twice (λ (row : IntentRow). str_eq row.payload.intent_id i.intent_id)
        (save_row (updated_intent i u)) (λ row p. (eq_iff i.intent_id i.intent_id).1 refl)
        (λ row. refl) s.intents,
  )

  costs_again :
      (i : OrderIntent) (u : BrokerOrder) (s s' : Store)
      → IsSaved i u s s'
      → save_cost (updated_intent i u) u s' ≡ (ok tt, s')
  unfolding save_cost
  costs_again i u s s' saved = ground (
    arith,
    saved.costs_saved,
    eq_iff i.intent_id i.intent_id,
    upsert_twice (λ (row : BrokerCost). str_eq row.intent_id i.intent_id)
        (record { intent_id = i.intent_id; total = u.cumulative_cost }) s.broker_costs,
  )

  reservations_again :
      (i : OrderIntent) (u : BrokerOrder) (s s' : Store)
      → IsSaved i u s s'
      → update_reservation (updated_intent i u) u s' ≡ (ok tt, s')
  unfolding update_reservation delete_reservation
  reservations_again i u s s' saved = ground (
    arith,
    saved.reservations_saved,
    eq_iff i.intent_id i.intent_id,
    upsert_twice (λ (row : Reservation). str_eq row.intent_id i.intent_id)
        (remaining_reservation i u) s.reservations,
    delete_rows_twice (λ (row : Reservation). str_eq row.intent_id i.intent_id) s.reservations,
  )

  nothing_to_book :
      IsOrdered dec
      → (i : OrderIntent) (u : BrokerOrder) (now : Stamp) (s : Store)
      → book_report i u
          (u.filled_units -D u.filled_units)
          (u.cumulative_cost -D u.cumulative_cost)
          now
          s
        ≡ (ok tt, s)
  unfolding book_report
  nothing_to_book ord i u now s =
      ground
        (arith, ord.sub_self u.filled_units, ord.sub_self u.cumulative_cost, ord.le_refl zero_D)

  commit_again :
      IsOrdered dec
      → (i : OrderIntent) (u : BrokerOrder) (now : Stamp) (s s' : Store) → u.remaining_units ≡ none
      → IsSaved i u s s'
      → commit_report (updated_intent i u) u u.cumulative_cost now s'
        ≡ (ok (updated_intent i u), audited i u s')
  unfolding commit_report audit
  commit_again ord i u now s s' unseen saved = ground (
    arith,
    rows_again i u s s' saved,
    nothing_to_book ord (updated_intent i u) u now s',
    costs_again i u s s' saved,
    reservations_again i u s s' saved,
  )

  -- A report that was accepted and comes again changes no table but the audit, which notes it: no
  -- fill, no cost, no reservation and no result is booked twice. (Reports with an observation of
  -- the remaining units are left out.)
  pub apply-apply_same :
      IsOrdered dec
      → (u : BrokerOrder) (now later : Stamp) (s s' : Store) {i' : OrderIntent}
      → u.remaining_units ≡ none
      → apply_broker_order u now s ≡ (ok i', s')
      → apply_broker_order u later s' ≡ (ok i', audited i' u s')
  unfolding apply_broker_order
  apply-apply_same ord u now later s s' {i'} unseen h =
      let (i, accepted) = apply_broker_order-IsAccepted u now s s' h in
      let saved = commit_report-IsSaved i u (booked_cost i s) now s s' accepted.committed in
      let returned = commit_returns i u (booked_cost i s) now s s' accepted.committed in
      ground (
        arith,
        returned,
        found_again i u s s' accepted.found saved,
        checked_again ord i u s s' accepted.checked,
        booked_again i u s s' saved,
        fresh_again ord i u s',
        commit_again ord i u later s s' unseen saved,
      )
