-- ===== src/Simulator/Orders.antt =====
-- What the simulator's calls leave behind: an accepted order is durable and is accepted once.
use bot_trading.Prelude.{
  ◌≡◌, ◌+◌, refl, some, Option-cases, inl, inr, str_eq, eq_iff, arith, String,
}
use bot_trading.Prelude.TableLaws.{find_row-upsert}
use bot_trading.Decimal.{Decimals}
use bot_trading.Exec.{ok, err, other_error}
use bot_trading.Order.Types.{OrderIntent, BrokerOrder}
use bot_trading.Store.Tables.{Store}
use bot_trading.Store.Commands.{simulator_save, simulator_get}
use bot_trading.Executor.World.{Shared}
use bot_trading.Simulator.{Calls, Simulator, filled_order, accept, query, fill, submit}

module _ ⦃dec : Decimals⦄ where
  simulator_get-save :
      (u : BrokerOrder) (id : String) (s : Store)
      → u.intent_id ≡ id
      → simulator_get id (simulator_save u s).1 ≡ some u
  unfolding simulator_get simulator_save
  simulator_get-save u id s h = ground (
    arith,
    eq_iff u.intent_id u.intent_id,
    find_row-upsert (λ (row : BrokerOrder). str_eq row.intent_id u.intent_id) u s.simulator_orders,
  )

module _ ⦃dec : Decimals⦄ (sim : Simulator) where
  -- An accepted order can be asked for.
  accept_known :
      (i : OrderIntent) (w w' : Shared Calls) {u : BrokerOrder}
      → accept sim i (simulator_get i.intent_id w.store) w ≡ (ok u, w')
      → simulator_get i.intent_id w'.store ≡ some u
  unfolding accept filled_order
  accept_known i w w' {u} h = elim (Option-cases (simulator_get i.intent_id w.store)) [
    | inl missing ↦ ground (arith, simulator_get-save (filled_order sim i) i.intent_id w.store refl)
    | inr (old, found) ↦ ground arith
  ]

  accept_mode :
      (i : OrderIntent) (w : Shared Calls)
      → (accept sim i (simulator_get i.intent_id w.store) w).1.store.mode ≡ w.store.mode
  unfolding accept filled_order simulator_save
  accept_mode i w = ground arith

  -- The world with one more counted submission.
  abbrev pub counted : Shared Calls → Shared Calls
  counted w = record w { outside = record w.outside { submit_calls = w.outside.submit_calls + 1 } }

  -- A submission that was accepted once, by an earlier call or this one, is answered the second
  -- time with the same order, and only the counter of calls changes.
  pub submit-submit :
      (i : OrderIntent) (w w' : Shared Calls) {u : BrokerOrder}
      → submit sim i w ≡ (ok u, w')
      → submit sim i w' ≡ (ok u, counted w')
  unfolding submit fill query accept
  submit-submit i w w' {u} h =
      ground (arith, accept_known i (counted w) w' {u = u}, accept_mode i (counted w))

  -- When a submission is answered by a timeout, the order was accepted all the same: asking for it
  -- afterwards returns the order that the intent and the fill fraction determine.
  pub query-submit_timeout :
      (i : OrderIntent) (w w' : Shared Calls)
      → submit sim i w ≡ (err other_error, w')
      → query sim i.intent_id w' ≡ (ok (some (filled_order sim i)), w')
  unfolding submit fill query accept filled_order
  query-submit_timeout i w w' h =
      ground (arith, simulator_get-save (filled_order sim i) i.intent_id w.store refl)
