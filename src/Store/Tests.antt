-- ===== src/Store/Tests.antt =====
-- The store at concrete inputs: an entry that is filled in two reports, the second one repeated.
use bot_trading.Prelude.{◌≡◌, refl, true, none, some, [], ◌∷◌, map, ◌⊎◌, inl}
use bot_trading.Prelude.Int.{negsuc}
use bot_trading.Decimal.Fixed.{fixed, fixed-IsOrdered, milli}
use bot_trading.Risk.Types.{at_second}
use bot_trading.Exec.{ok, ◌>>◌}
use bot_trading.Order.State.{
  approved, submitting, partially_filled, filled, cancelled, expired, validate_transition,
}
use bot_trading.Order.Types.{Mode, IntentKind, OrderIntent, BrokerOrder}
use bot_trading.Order.Lifecycle.{Reach, here, next, Reach-final, inactive_step, Reach-filled}
use bot_trading.Store.Tables.{Store, empty_store}
use bot_trading.Store.Access.{
  ensure_session, audit, intent, transition, save_intent, save_position, delete_reservation,
}
use bot_trading.Store.Intents.{register, claim, claim_keyed, create_intent}
use bot_trading.Store.Fills.{add_pnl, fill_entry, fill_position, insert_fill, apply_fill}
use bot_trading.Store.Booking.{
  filled_mismatch, partial_mismatch, evidence_missing, check_report, booked_cost, book_delta,
  report_late_fill, save_cost, update_reservation, book_report, commit_report, check_booked,
  apply_broker_order,
}
use bot_trading.Store.Replay.{audited, apply-apply_same}

abbrev pub entry : OrderIntent ⦃dec = fixed⦄
entry = record {
  intent_id = "i1";
  session_id = "day";
  signal_id = "signal";
  symbol = "AAPL";
  units = milli 10_000;
  entry_price = milli 100_000;
  stop_price = milli 99_000;
  state = approved;
  kind = IntentKind.entry;
  position_id = none;
  strategy = "ORB_RVOL";
  version = "0.1";
  mode = Mode.offline;
  created_at = at_second 100;
  planned_risk = milli 10_000;
  estimated_cost = milli 300;
  broker_order_id = none;
  filled_units = milli 0;
  average_price = none;
  cumulative_cost = milli 0;
}

abbrev partial : BrokerOrder ⦃dec = fixed⦄
partial = record {
  broker_order_id = "b1";
  intent_id = "i1";
  state = partially_filled;
  filled_units = milli 4000;
  average_price = some (milli 100_000);
  position_id = some "p1";
  protected = true;
  cumulative_cost = milli 20;
  remaining_units = none;
  observed_at = none;
}

abbrev complete : BrokerOrder ⦃dec = fixed⦄
complete = record partial {
  state = filled;
  filled_units = milli 10_000;
  average_price = some (milli 100_600);
  cumulative_cost = milli 50;
}

-- The session, the intent and its submission.
abbrev sent : Store ⦃dec = fixed⦄
sent =
    let prepare =
      (ensure_session "day" (milli 10_000_000) >> create_intent entry)
      >> transition "i1" submitting in
    (prepare (empty_store Mode.offline)).1

-- The store after the first report.
abbrev half : Store ⦃dec = fixed⦄
half = (apply_broker_order partial (at_second 101) sent).1

-- The store after both reports.
abbrev whole : Store ⦃dec = fixed⦄
whole = (apply_broker_order complete (at_second 102) half).1

abbrev booked_half : OrderIntent ⦃dec = fixed⦄
booked_half = record entry {
  state = partially_filled;
  broker_order_id = some "b1";
  filled_units = milli 4000;
  average_price = some (milli 100_000);
  cumulative_cost = milli 20;
}

half_booked : apply_broker_order partial (at_second 101) sent ≡ (ok booked_half, half)
unfolding ensure_session create_intent claim_keyed claim register transition apply_broker_order
    commit_report check_report check_booked filled_mismatch partial_mismatch evidence_missing
    booked_cost book_report book_delta apply_fill fill_position fill_entry insert_fill save_position
    add_pnl report_late_fill save_cost update_reservation save_intent audit intent
    validate_transition
half_booked = refl

-- Four units at 100 and six at 101 average 100.6; the costs lower the result.
whole_books :
    (map (λ p. p.units) whole.positions ≡ milli 10_000 ∷ [])
    × (map (λ p. p.average_entry) whole.positions ≡ milli 100_600 ∷ [])
    × (map (λ f. f.units) whole.fills ≡ milli 4000 ∷ milli 6000 ∷ [])
    × (map (λ f. f.price) whole.fills ≡ milli 100_000 ∷ milli 101_000 ∷ [])
    × (map (λ r. r.realized_pnl) whole.sessions ≡ negsuc 49_999 ∷ [])
    × (whole.reservations ≡ [])
unfolding ensure_session create_intent claim_keyed claim register transition apply_broker_order
    commit_report check_report check_booked filled_mismatch partial_mismatch evidence_missing
    booked_cost book_report book_delta apply_fill fill_position fill_entry insert_fill save_position
    add_pnl report_late_fill save_cost update_reservation save_intent audit intent
    validate_transition delete_reservation
whole_books = (refl, refl, refl, refl, refl, refl)

apply-apply_same_example :
    apply_broker_order partial (at_second 105) half
    ≡ (ok booked_half, audited booked_half partial half)
apply-apply_same_example =
    apply-apply_same fixed-IsOrdered partial (at_second 101) (at_second 105) sent half refl
      half_booked

Reach-final_example : filled ≡ filled
unfolding validate_transition
Reach-final_example = Reach-final (inl refl) (next {t = filled} here refl)

inactive_step_example :
    (partially_filled ≡ cancelled)
    ⊎ (((cancelled ≡ cancelled) ⊎ (cancelled ≡ expired))
        × ((partially_filled ≡ partially_filled) ⊎ (partially_filled ≡ filled)))
unfolding validate_transition
inactive_step_example = inactive_step cancelled partially_filled refl refl

Reach-filled_example : Reach cancelled filled
Reach-filled_example = Reach-filled cancelled (λ e. cc)
