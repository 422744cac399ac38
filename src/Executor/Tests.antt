-- ===== src/Executor/Tests.antt =====
-- The executor over the simulator at concrete inputs.
use bot_trading.Prelude.{
  update_rows, ◌++◌, str_eq, ◌≡◌, ◌≢◌, refl, true, false, none, some, [], ◌∷◌, ◌⊎◌, find_row,
}
use bot_trading.Decimal.Fixed.{fixed}
use bot_trading.Risk.Types.{at_second, refusal}
use bot_trading.Exec.{ok, other_error, pure, skip, for_each, all_clean}
use bot_trading.Order.State.{submitting, validate_transition}
use bot_trading.Order.Types.{Mode, OrderIntent, BrokerOrder}
use bot_trading.Store.Tables.{Store, empty_store, Command, CommandStatus}
use bot_trading.Store.Access.{
  intent, intents, positions, get_meta, set_meta, audit, pause, transition, save_intent,
  delete_reservation,
}
use bot_trading.Store.Intents.{new_row}
use bot_trading.Store.Commands.{simulator_get, simulator_save, pending_commands}
use bot_trading.Store.Portfolio.{is_true}
use bot_trading.Store.Tests.{entry}
use bot_trading.Risk.Tests.{engine, request}
use bot_trading.Executor.World.{Executor, World, acquire, require_started, pause_entries}
use bot_trading.Executor.Orders.{dispatch, apply_with, send_with, cancel_with}
use bot_trading.Executor.Closing.{cancel_pending_entries}
use bot_trading.Executor.Entry.{result, same_entry, submit_entry}
use bot_trading.Executor.Control.{
  arm_offline, reconcile_missing, reconcile_answer, reconcile_one, conclude, reconcile,
  confirm_flat, close_all, flatten_owned, process_one, process_commands, enter,
}
use bot_trading.Executor.Safety.{
  reconciled, settled, paused, flat_store, reconcile_sound, flatten_owned_flat, arm_offline_guarded,
}
use bot_trading.Executor.Gate.{IsJudged, IsRefused, submit_entry_gated}
use bot_trading.Executor.Faults.{
  waits, process_one_finishes, Worked, process_commands_total, enter_failed, apply_with_managing,
}
use bot_trading.Executor.Lost.{IsUnresolved, send_with_lost}
use bot_trading.Simulator.{
  Calls, filled_cost, filled_order, valid_order, accept, query, fill, submit, broker,
}
use bot_trading.Simulator.Tests.{no_calls, losing_answers, holding}

abbrev executor : Executor ⦃dec = fixed⦄ Calls
executor = record {
  broker = broker losing_answers (pure (at_second 102));
  risk = engine;
  session_id = "day";
  uuid5 = λ s. s;
}

abbrev pending : OrderIntent ⦃dec = fixed⦄
pending = record entry { state = submitting }

abbrev sending : Store ⦃dec = fixed⦄
sending = record (empty_store Mode.offline) { intents = new_row pending "AAPL" ∷ [] }

-- A world that runs on a store.
abbrev running : Store ⦃dec = fixed⦄ → World ⦃dec = fixed⦄ Calls
running s = record {
  store = s;
  outside = no_calls;
  started = true;
  incident_management = false;
  lock_handle = true;
  lock_taken = false;
}

-- The broker does not know the order, so the reconciliation fails.
reconcile_sound_example :
    (reconciled (reconcile executor (running sending)).1.store ≡ false)
    × (false ≡ true → settled (reconcile executor (running sending)).1.store ≡ true)
    × (false ≡ false → paused "day" (reconcile executor (running sending)).1.store ≡ true)
unfolding reconcile conclude require_started intents all_clean reconcile_one reconcile_answer
    reconcile_missing query simulator_get audit pause set_meta transition intent save_intent
    validate_transition delete_reservation positions
reconcile_sound_example =
    reconcile_sound executor (running sending) (reconcile executor (running sending)).1
      {clean = false} refl

flatten_owned_flat_example :
    flat_store (flatten_owned executor (running (empty_store Mode.offline))).1.store ≡ true
unfolding flatten_owned close_all confirm_flat reconcile conclude require_started pause_entries
    cancel_pending_entries cancel_with intents positions for_each all_clean audit pause set_meta
flatten_owned_flat_example =
    flatten_owned_flat executor (running (empty_store Mode.offline))
      (flatten_owned executor (running (empty_store Mode.offline))).1 refl

abbrev clean_store : Store ⦃dec = fixed⦄
clean_store = record (empty_store Mode.offline) {
  metadata = record { key = "reconciliation_ok"; value = "true" } ∷ [];
}

arm_offline_guarded_example :
    (true ≡ true)
    × (true ≡ true)
    × ((Mode.offline ≡ Mode.offline) ⊎ (Mode.offline ≡ Mode.backtest))
    × (reconciled clean_store ≡ true)
    × ((arm_offline executor (running clean_store)).1 ≡ record (running clean_store) {
      store = record clean_store {
        sessions =
            update_rows
              (λ row. str_eq row.session_id "day")
              (λ row. record row { entries_paused = false })
              clean_store.sessions;
        audit =
            clean_store.audit
            ++ record {
              kind = "ENTRIES_ARMED";
              intent_id = none;
              details = "day";
              mode = Mode.offline;
            }
              ∷ [];
      };
    })
unfolding arm_offline require_started get_meta is_true pause audit
arm_offline_guarded_example =
    arm_offline_guarded executor (running clean_store)
      (arm_offline executor (running clean_store)).1 refl

-- The symbol was entered before, so the request is refused as a duplicate.
submit_entry_gated_example :
    (true ≡ true)
    × (true ≡ true)
    × (request.session_id ≡ executor.session_id)
    × (((Mode.offline ≢ Mode.shadow)
          × (find_row (same_entry request) (intents sending) ≡ none)
          × IsJudged executor request (refusal "DUPLICATE_INTENT") (running sending))
        ⊎ ((false ≡ false) × IsRefused executor (running sending) (running sending)))
unfolding submit_entry require_started intents
submit_entry_gated_example =
    submit_entry_gated executor request (running sending) (running sending)
      {res = result (some pending) (refusal "DUPLICATE_INTENT") true} refl

abbrev flatten : Command
flatten = record { command_id = "c1"; kind = "FLATTEN_OWNED"; status = CommandStatus.pending }

abbrev asked : Store ⦃dec = fixed⦄
asked = record sending { commands = flatten ∷ [] }

process_one_finishes_example :
    ((process_one executor flatten (running asked)).0 ≡ ok tt)
    × (waits "c1" (process_one executor flatten (running asked)).1.store ≡ false)
process_one_finishes_example = process_one_finishes executor flatten (running asked)

process_commands_total_example :
    ((process_commands executor (running asked)).0 ≡ ok 1)
    × Worked executor (flatten ∷ []) (running asked) (process_commands executor (running asked)).1
unfolding pending_commands
process_commands_total_example = process_commands_total executor (running asked) refl refl

abbrev locked : World ⦃dec = fixed⦄ Calls
locked = record (running sending) { started = false; lock_handle = false; lock_taken = true }

enter_failed_example :
    ((locked ≡ locked) × ((false ≡ true) ⊎ (true ≡ true))) ⊎ ((false ≡ false) × (false ≡ false))
unfolding enter acquire
enter_failed_example = enter_failed executor locked locked refl

abbrev managing : World ⦃dec = fixed⦄ Calls
managing = record (running holding) { incident_management = true }

abbrev report : BrokerOrder ⦃dec = fixed⦄
report = filled_order losing_answers entry

apply_with_managing_example :
    apply_with executor (λ p. skip) report (at_second 103) managing
    ≡ apply_with executor (λ p. pause_entries executor) report (at_second 103) managing
apply_with_managing_example =
    apply_with_managing executor (λ p. skip) (λ p. pause_entries executor) report (at_second 103)
      managing refl

-- The simulator accepts the order and loses the answer.
send_with_lost_example :
    ((send_with executor (λ p. skip) pending (at_second 103) none (running sending)).0 ≡ ok tt)
    × IsUnresolved executor "i1" pending
        (send_with executor (λ p. skip) pending (at_second 103) none (running sending)).1.store
unfolding dispatch submit fill query accept valid_order filled_order filled_cost simulator_get
    simulator_save intent
send_with_lost_example =
    send_with_lost executor (λ p. skip) pending pending (at_second 103) none (running sending)
      (dispatch executor pending none (running sending)).1 other_error refl refl refl refl
