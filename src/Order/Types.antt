-- ===== src/Order/Types.antt =====
-- The records of execution/models.py: intents, broker orders, fills, positions, sessions.
use bot_trading.Prelude.{ℕ, ◌==◌, String, Bool, Option}
use bot_trading.Decimal.{Decimals, Decimal}
use bot_trading.Risk.Types.{Stamp}
use bot_trading.Order.State.{OrderState}

pub data Mode : Type 0 where
  offline backtest shadow etoro_demo : Mode

abbrev mode_tag : Mode → ℕ
mode_tag offline = 0
mode_tag backtest = 1
mode_tag shadow = 2
mode_tag etoro_demo = 3

abbrev pub mode_text : Mode → String
mode_text offline = "offline"
mode_text backtest = "backtest"
mode_text shadow = "shadow"
mode_text etoro_demo = "etoro_demo"

abbrev pub mode_eq : Mode → Mode → Bool
mode_eq a b = mode_tag a == mode_tag b

-- The `kind` of an intent, "entry" or "close".
pub data IntentKind : Type 0 where
  entry close : IntentKind

abbrev kind_tag : IntentKind → ℕ
kind_tag entry = 0
kind_tag close = 1

abbrev pub kind_eq : IntentKind → IntentKind → Bool
kind_eq a b = kind_tag a == kind_tag b

module _ ⦃dec : Decimals⦄ where
  pub record OrderIntent : Type 0 where
    pub intent_id : String
    pub session_id : String
    pub signal_id : String
    pub symbol : String
    pub units : Decimal
    pub entry_price : Decimal
    pub stop_price : Decimal
    pub state : OrderState
    pub kind : IntentKind
    pub position_id : Option String
    pub strategy : String
    pub version : String
    pub mode : Mode
    pub created_at : Stamp
    pub planned_risk : Decimal
    pub estimated_cost : Decimal
    pub broker_order_id : Option String
    pub filled_units : Decimal
    pub average_price : Option Decimal
    pub cumulative_cost : Decimal

  pub record BrokerOrder : Type 0 where
    pub broker_order_id : String
    pub intent_id : String
    pub state : OrderState
    pub filled_units : Decimal
    pub average_price : Option Decimal
    pub position_id : Option String
    pub protected : Bool
    pub cumulative_cost : Decimal
    pub remaining_units : Option Decimal
    pub observed_at : Option Stamp

  -- A row of `fills`. Its key, the text of the broker's order and of the filled total, is kept as
  -- that pair.
  pub record Fill : Type 0 where
    pub fill_order : String
    pub fill_total : Decimal
    pub intent_id : String
    pub units : Decimal
    pub price : Decimal
    pub cost : Decimal
    pub at : Stamp

  pub record Position : Type 0 where
    pub position_id : String
    pub owner_intent_id : String
    pub session_id : String
    pub symbol : String
    pub units : Decimal
    pub average_entry : Decimal
    pub stop_price : Decimal
    pub protected : Bool
    pub realized_pnl : Decimal
    pub mark_price : Option Decimal
    pub planned_risk : Decimal
    pub mode : Mode
    pub observed_units : Option Decimal
    pub observed_at : Option Stamp
    pub accounting_complete : Bool

  pub record TradingSession : Type 0 where
    pub session_id : String
    pub reference_capital : Decimal
    pub realized_pnl : Decimal
    pub entries_paused : Bool

-- A row of `audit`, without its time.
pub record AuditEvent : Type 0 where
  pub kind : String
  pub intent_id : Option String
  pub details : String
  pub mode : Mode
