-- ===== src/Simulator.antt =====
-- `SimulatorBroker` of brokers/simulator.py: a local broker that keeps its orders in the store.
pub mod Orders
pub mod Tests
use Prim.Native.String.{◌++◌ as append_text}
use bot_trading.Prelude.{
  ℕ, ◌+◌, String, Bool, true, false, not, ◌&&◌, ◌||◌, Option, none, some, if◌then◌else◌,
}
use bot_trading.Decimal.{Decimals, Decimal, ◌+D◌, ◌*D◌, ◌≤D◌, ◌<D◌, ◌=D◌, of_ℕ, zero_D, max_D}
use bot_trading.Risk.Types.{Stamp, CostConfig}
use bot_trading.Exec.{
  Exec, lifecycle_error, value_error, other_error, pure, raise, gets, ◌>>=◌, ◌>>◌, modify, raise_if,
}
use bot_trading.Order.State.{
  OrderState, acknowledged, partially_filled, filled, cancelled, state_eq,
}
use bot_trading.Order.Types.{Mode, mode_eq, IntentKind, kind_eq, OrderIntent, BrokerOrder}
use bot_trading.Store.Tables.{Store, is_given}
use bot_trading.Store.Access.{position}
use bot_trading.Store.Commands.{simulator_save, simulator_get}
use bot_trading.Executor.World.{Shared, Broker}

-- The simulator's counters of accepted calls.
pub record Calls : Type 0 where
  pub submit_calls : ℕ
  pub close_calls : ℕ

module _ ⦃dec : Decimals⦄ where
  pub record Simulator : Type 0 where
    pub costs : CostConfig
    pub fill_fraction : Decimal
    pub timeout_after_accept : Bool
    pub native_protection : Bool

  -- What the constructor checks.
  unfoldable pub valid_simulator : Simulator → Mode → Bool
  valid_simulator sim mode =
      (mode_eq mode Mode.offline || mode_eq mode Mode.backtest)
      && dec.is_finite sim.fill_fraction
      && zero_D ≤D sim.fill_fraction
      && sim.fill_fraction ≤D of_ℕ 1

  abbrev pub in_store : {A : Type 0} → Exec Store A → Exec (Shared Calls) A
  in_store m w = let (r, s) = m w.store in (r, record w { store = s })

  abbrev pub position_or : Option String → String → String
  position_or none default = default
  position_or (some p) default = if is_given (some p) then p else default

module _ ⦃dec : Decimals⦄ (sim : Simulator) where
  unfoldable pub filled_cost : OrderIntent → Decimal → Decimal
  filled_cost i units =
      if units =D zero_D
      then zero_D
      else sim.costs.fixed_per_side
        +D max_D sim.costs.minimum_per_side (
            units *D sim.costs.per_unit_per_side
            +D units *D i.entry_price *D sim.costs.notional_rate_per_side)

  unfoldable pub filled_order : OrderIntent → BrokerOrder
  filled_order i =
      let units = i.units *D sim.fill_fraction in
      record {
        broker_order_id = append_text "sim-order-" i.intent_id;
        intent_id = i.intent_id;
        state =
            if units =D i.units
            then filled
            else (if units =D zero_D then acknowledged else partially_filled);
        filled_units = units;
        average_price = if units =D zero_D then none else some i.entry_price;
        position_id = some (position_or i.position_id (append_text "sim-position-" i.intent_id));
        protected = sim.native_protection;
        cumulative_cost = filled_cost i units;
        remaining_units = none;
        observed_at = none;
      }

  -- What pydantic checks of the amounts when the order is built.
  unfoldable pub valid_order : BrokerOrder → Bool
  valid_order u =
      dec.is_finite u.filled_units
      && zero_D ≤D u.filled_units
      && dec.is_finite u.cumulative_cost
      && zero_D ≤D u.cumulative_cost

  unfoldable pub accept : OrderIntent → Option BrokerOrder → Exec (Shared Calls) BrokerOrder
  accept i (some existing) = pure existing
  accept i none = do
    let order = filled_order i
    raise_if (not (valid_order order)) (value_error "BrokerOrder")
    in_store (simulator_save order)
    raise_if sim.timeout_after_accept other_error
    pure order

  unfoldable pub query : String → Exec (Shared Calls) (Option BrokerOrder)
  query intent_id = gets (λ w. simulator_get intent_id w.store)

  -- `_fill`.
  unfoldable pub fill : OrderIntent → Exec (Shared Calls) BrokerOrder
  fill i = do existing ← query i.intent_id; accept i existing

  unfoldable pub submit : OrderIntent → Exec (Shared Calls) BrokerOrder
  submit i = do
    mode ← gets (λ w. w.store.mode)
    raise_if (not (kind_eq i.kind IntentKind.entry) || not (mode_eq i.mode mode))
        (lifecycle_error "INVALID_SIMULATOR_ENTRY")
    modify
        (λ w. record w { outside = record w.outside { submit_calls = w.outside.submit_calls + 1 } })
    fill i

  unfoldable pub close_at : OrderIntent → Option String → Exec (Shared Calls) BrokerOrder
  close_at i none = raise (lifecycle_error "INVALID_SIMULATOR_CLOSE")
  close_at i (some position_id) = do
    mode ← gets (λ w. w.store.mode)
    raise_if (not (kind_eq i.kind IntentKind.close) || not (mode_eq i.mode mode))
        (lifecycle_error "INVALID_SIMULATOR_CLOSE")
    held ← in_store (position position_id)
    raise_if (held.units <D i.units) (lifecycle_error "CLOSE_WOULD_OPEN_SHORT")
    modify
        (λ w. record w { outside = record w.outside { close_calls = w.outside.close_calls + 1 } })
    fill i

  unfoldable pub close : OrderIntent → Exec (Shared Calls) BrokerOrder
  close i = close_at i i.position_id

  unfoldable pub cancel_found : Option BrokerOrder → Exec (Shared Calls) BrokerOrder
  cancel_found none = raise (lifecycle_error "SIMULATOR_ORDER_NOT_FOUND")
  cancel_found (some order) = if state_eq order.state filled then pure order else (do
    let cancelled_order = record order { state = cancelled }
    in_store (simulator_save cancelled_order)
    pure cancelled_order)

  unfoldable pub cancel : OrderIntent → Exec (Shared Calls) BrokerOrder
  cancel i = do order ← query i.intent_id; cancel_found order

  unfoldable pub protect : String → Decimal → Exec (Shared Calls) Bool
  protect position_id stop_price = do
    held ← in_store (position position_id)
    raise_if (stop_price <D held.stop_price) (lifecycle_error "STOP_WIDENING_BLOCKED")
    pure sim.native_protection

  unfoldable pub set_order : BrokerOrder → Exec (Shared Calls) (Unit {0})
  set_order order = do
    known ← query order.intent_id
    raise_if (elim known [ none ↦ true | some _ ↦ false ])
        (lifecycle_error "Cannot inject an unsubmitted simulated order")
    in_store (simulator_save order)

  -- The simulator as the broker of the executor, which prepares nothing.
  abbrev pub broker : Exec (Shared Calls) Stamp → Broker Calls
  broker clock = record {
    submit = submit;
    query = query;
    cancel = cancel;
    close = close;
    protect = protect;
    prepare = none;
    clock = clock;
  }
