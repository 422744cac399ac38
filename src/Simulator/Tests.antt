-- ===== src/Simulator/Tests.antt =====
-- The simulator at a concrete order of ten units, which it fills by half or whole.
use bot_trading.Prelude.{◌≡◌, refl, true, false, none, some, [], ◌∷◌}
use bot_trading.Decimal.Fixed.{fixed, milli}
use bot_trading.Exec.{ok}
use bot_trading.Order.State.{partially_filled}
use bot_trading.Order.Types.{Mode, IntentKind, OrderIntent, Position}
use bot_trading.Store.Tables.{Store, empty_store}
use bot_trading.Store.Commands.{simulator_save, simulator_get}
use bot_trading.Store.Tests.{entry}
use bot_trading.Store.Intents.{new_row}
use bot_trading.Risk.Tests.{costs}
use bot_trading.Executor.World.{Shared}
use bot_trading.Simulator.{
  Calls, Simulator, filled_cost, filled_order, valid_order, accept, query, fill, submit, close,
}
use bot_trading.Simulator.Orders.{counted, submit-submit, query-submit_timeout}

abbrev pub no_calls : Calls
no_calls = record { submit_calls = 0; close_calls = 0 }

abbrev pub half_filling : Simulator ⦃dec = fixed⦄
half_filling = record {
  costs = costs;
  fill_fraction = milli 500;
  timeout_after_accept = false;
  native_protection = true;
}

abbrev pub losing_answers : Simulator ⦃dec = fixed⦄
losing_answers = record half_filling { timeout_after_accept = true }

-- The intent of the entry was bought by half: five units are held.
abbrev pub bought : OrderIntent ⦃dec = fixed⦄
bought = record entry { state = partially_filled; filled_units = milli 5000 }

abbrev held : Position ⦃dec = fixed⦄
held = record {
  position_id = "p1";
  owner_intent_id = "i1";
  session_id = "day";
  symbol = "AAPL";
  units = milli 5000;
  average_entry = milli 100_000;
  stop_price = milli 99_000;
  protected = true;
  realized_pnl = milli 0;
  mark_price = none;
  planned_risk = milli 10_000;
  mode = Mode.offline;
  observed_units = none;
  observed_at = none;
  accounting_complete = true;
}

abbrev pub holding : Store ⦃dec = fixed⦄
holding = record (empty_store Mode.offline) {
  intents = new_row bought "AAPL" ∷ [];
  positions = held ∷ [];
}

abbrev pub before : Shared ⦃dec = fixed⦄ Calls
before = record { store = holding; outside = no_calls }

abbrev after : Shared ⦃dec = fixed⦄ Calls
after = (submit half_filling entry before).1

abbrev sale : OrderIntent ⦃dec = fixed⦄
sale = record entry {
  intent_id = "c1";
  kind = IntentKind.close;
  position_id = some "p1";
  units = milli 5000;
}

-- Five of ten units at 100, at a commission of 0.005 a unit.
half_filled :
    ((filled_order half_filling entry).filled_units ≡ milli 5000)
    × ((filled_order half_filling entry).cumulative_cost ≡ milli 25)
    × ((filled_order half_filling entry).state ≡ partially_filled)
unfolding filled_order filled_cost
half_filled = (refl, refl, refl)

submit-submit_example :
    submit half_filling entry after
    ≡ (ok (filled_order half_filling entry), counted half_filling after)
unfolding submit fill query accept valid_order filled_order filled_cost simulator_get simulator_save
submit-submit_example = submit-submit half_filling entry before after refl

query-submit_timeout_example :
    query losing_answers "i1" (submit losing_answers entry before).1
    ≡ (ok (some (filled_order losing_answers entry)), (submit losing_answers entry before).1)
unfolding submit fill query accept valid_order filled_order filled_cost simulator_get simulator_save
query-submit_timeout_example =
    query-submit_timeout losing_answers entry before (submit losing_answers entry before).1 refl
