-- ===== src/Store/Commands.antt =====
-- The durable orders of the simulator and the command queue of persistence/store.py.
use bot_trading.Prelude.{
  ℕ, ◌==◌, String, Bool, not, Option, List, [], ◌∷◌, ◌++◌, any, find_row, update_rows, upsert,
  select, str_eq, if◌then◌else◌,
}
use bot_trading.Decimal.{Decimals}
use bot_trading.Exec.{Exec, value_error, pure, gets, ◌>>=◌, ◌>>◌, modify, raise_if}
use bot_trading.Order.Types.{BrokerOrder}
use bot_trading.Store.Tables.{Store, Command, CommandStatus}

abbrev status_tag : CommandStatus → ℕ
status_tag CommandStatus.pending = 0
status_tag CommandStatus.done = 1
status_tag CommandStatus.blocked = 2

abbrev pub status_eq : CommandStatus → CommandStatus → Bool
status_eq a b = status_tag a == status_tag b

abbrev pub command_kinds : List String
command_kinds = "PAUSE_ENTRIES" ∷ "RECONCILE" ∷ "CANCEL_PENDING_ENTRIES" ∷ "FLATTEN_OWNED" ∷ []

module _ ⦃dec : Decimals⦄ where
  unfoldable pub simulator_save : BrokerOrder → Exec Store (Unit {0})
  simulator_save order = modify (λ s. record s {
    simulator_orders =
        upsert (λ (row : BrokerOrder). str_eq row.intent_id order.intent_id) order
          s.simulator_orders;
  })

  unfoldable pub simulator_get : String → Store → Option BrokerOrder
  simulator_get intent_id s =
      find_row (λ (row : BrokerOrder). str_eq row.intent_id intent_id) s.simulator_orders

  -- `INSERT OR IGNORE`: the result says whether the command is new.
  unfoldable pub enqueue_command : String → String → Exec Store Bool
  enqueue_command command_id kind = do
    raise_if (not (any (str_eq kind) command_kinds)) (value_error "Unsupported executor command")
    known ← gets (λ s. any (λ (c : Command). str_eq c.command_id command_id) s.commands)
    modify (λ s. if known then s else record s {
      commands =
          s.commands
          ++ record { command_id = command_id; kind = kind; status = CommandStatus.pending } ∷ [];
    })
    pure (not known)

  unfoldable pub pending_commands : Store → List Command
  pending_commands s = select (λ (c : Command). status_eq c.status CommandStatus.pending) s.commands

  unfoldable pub finish_command : String → CommandStatus → Exec Store (Unit {0})
  finish_command command_id status = modify (λ s. record s {
    commands =
        update_rows (λ (c : Command). str_eq c.command_id command_id)
          (λ c. record c { status = status }) s.commands;
  })
