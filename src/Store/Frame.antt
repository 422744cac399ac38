-- ===== src/Store/Frame.antt =====
-- What the parts of a booking leave alone: the intents, the costs, the reservations and the other
-- tables that only `apply_broker_order` itself writes.
use bot_trading.Prelude.{String, ◌≡◌, Bool, Option, none, some, arith}
use bot_trading.Decimal.{Decimals, Decimal}
use bot_trading.Risk.Types.{Stamp}
use bot_trading.Exec.{Exec}
use bot_trading.Order.Types.{IntentKind, OrderIntent, BrokerOrder, Fill, Position}
use bot_trading.Store.Tables.{Store}
use bot_trading.Store.Access.{pause, set_meta, audit, intent, position, save_position}
use bot_trading.Store.Fills.{
  add_pnl, fill_entry, fill_close, insert_fill, fill_position, apply_fill, check_observation,
  block_on_difference, observe_remaining,
}
use bot_trading.Store.Booking.{report_late_fill, book_delta, book_cost, book_report, observe}

module _ ⦃dec : Decimals⦄ where
  -- The tables that a booking step does not touch.
  pub record SameOrders (s s' : Store) : Type 0 where
    pub mode_same : s'.mode ≡ s.mode
    pub intents_same : s'.intents ≡ s.intents
    pub reservations_same : s'.reservations ≡ s.reservations
    pub costs_same : s'.broker_costs ≡ s.broker_costs
    pub simulator_same : s'.simulator_orders ≡ s.simulator_orders
    pub commands_same : s'.commands ≡ s.commands

  pub SameOrders-trans : {s t u : Store} → SameOrders s t → SameOrders t u → SameOrders s u
  SameOrders-trans h k = ground arith

  abbrev pub Frames : {A : Type 0} → Exec Store A → Type 0
  Frames m = (s : Store) → SameOrders s (m s).1

  save_position_frame : (p : Position) → Frames (save_position p)
  unfolding save_position
  save_position_frame p s = ground arith

  pub position_same : (id : String) (s : Store) → (position id s).1 ≡ s
  unfolding position
  position_same id s = ground arith

  pub intent_same : (id : String) (s : Store) → (intent id s).1 ≡ s
  unfolding intent
  intent_same id s = ground arith

  add_pnl_frame : (sid : String) (x : Decimal) → Frames (add_pnl sid x)
  unfolding add_pnl
  add_pnl_frame sid x s = ground arith

  pause_frame : (sid : String) (b : Bool) → Frames (pause sid b)
  unfolding pause
  pause_frame sid b s = ground arith

  pub audit_frame :
      (kind : String) (id : Option String) (text : String) → Frames (audit kind id text)
  unfolding audit
  audit_frame kind id text s = ground arith

  set_meta_frame : (key value : String) → Frames (set_meta key value)
  unfolding set_meta
  set_meta_frame key value s = ground arith

  insert_fill_frame : (f : Fill) → Frames (insert_fill f)
  unfolding insert_fill
  insert_fill_frame f s = ground arith

  fill_entry_frame :
      (i : OrderIntent) (u : BrokerOrder) (id : String) (delta price cost : Decimal)
      → Frames (fill_entry i u id delta price cost)
  unfolding fill_entry
  fill_entry_frame i u id delta price cost s = grind (arith, save_position_frame, add_pnl_frame)

  fill_close_frame :
      (i : OrderIntent) (id : String) (delta price cost : Decimal)
      → Frames (fill_close i id delta price cost)
  unfolding fill_close
  fill_close_frame i id delta price cost s =
      grind (arith, position_same, save_position_frame, add_pnl_frame)

  fill_position_frame :
      (k : IntentKind) (i : OrderIntent) (u : BrokerOrder) (id : String)
      (delta price cost : Decimal)
      → Frames (fill_position k i u id delta price cost)
  unfolding fill_position
  fill_position_frame IntentKind.entry i u id delta price cost s =
      fill_entry_frame i u id delta price cost s
  fill_position_frame IntentKind.close i u id delta price cost s =
      fill_close_frame i id delta price cost s

  apply_fill_frame :
      (i : OrderIntent) (u : BrokerOrder) (id : String) (delta price cost : Decimal) (now : Stamp)
      → Frames (apply_fill i u id delta price cost now)
  unfolding apply_fill
  apply_fill_frame i u id delta price cost now s =
      grind (arith, fill_position_frame, insert_fill_frame)

  check_observation_same :
      (i : OrderIntent) (p : Position) (remaining : Decimal) (stamp now : Stamp) (s : Store)
      → (check_observation i p remaining stamp now s).1 ≡ s
  unfolding check_observation
  check_observation_same i p remaining stamp now s = ground (arith, intent_same p.owner_intent_id s)

  block_on_difference_frame :
      (i : OrderIntent) (p : Position) (remaining : Decimal)
      → Frames (block_on_difference i p remaining)
  unfolding block_on_difference
  block_on_difference_frame i p remaining s =
      grind (arith, pause_frame, set_meta_frame, audit_frame)

  observe_remaining_frame :
      (i : OrderIntent) (u : BrokerOrder) (remaining : Decimal) (now : Stamp)
      → Frames (observe_remaining i u remaining now)
  unfolding observe_remaining
  observe_remaining_frame i u remaining now s =
      grind (
        arith, position_same, check_observation_same, save_position_frame,
        block_on_difference_frame,
      )

  report_late_fill_frame : (i : OrderIntent) → Frames (report_late_fill i)
  unfolding report_late_fill
  report_late_fill_frame i s = grind (arith, pause_frame, audit_frame)

  pub observe_frame :
      (i : OrderIntent) (u : BrokerOrder) (o : Option Decimal) (now : Stamp)
      → Frames (observe i u o now)
  observe_frame i u none now s = ground arith
  observe_frame i u (some remaining) now s = observe_remaining_frame i u remaining now s

  book_delta_frame :
      (i : OrderIntent) (u : BrokerOrder) (delta cost : Decimal) (now : Stamp)
      → Frames (book_delta i u delta cost now)
  unfolding book_delta
  book_delta_frame i u delta cost now s = grind (arith, apply_fill_frame, report_late_fill_frame)

  book_cost_frame : (i : OrderIntent) (cost : Decimal) → Frames (book_cost i cost)
  unfolding book_cost
  book_cost_frame i cost s = grind (arith, add_pnl_frame, position_same, save_position_frame)

  pub book_report_frame :
      (i : OrderIntent) (u : BrokerOrder) (delta cost : Decimal) (now : Stamp)
      → Frames (book_report i u delta cost now)
  unfolding book_report
  book_report_frame i u delta cost now s =
      ground (arith, book_delta_frame i u delta cost now s, book_cost_frame i cost s)
