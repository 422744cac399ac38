-- ===== src/Store/Tables.antt =====
-- The tables of `StateStore._migrate` of persistence/store.py, as the fields of a record.
use Prim.Native.String.{compare}
use Prim.Native.Nat.{Ordering}
use bot_trading.Prelude.{String, Bool, true, false, not, Option, none, some, List, [], str_eq}
use bot_trading.Decimal.{Decimals, Decimal}
use bot_trading.Order.Types.{
  Mode, IntentKind, OrderIntent, BrokerOrder, Fill, Position, TradingSession, AuditEvent,
}

-- The order of texts in `ORDER BY`.
abbrev pub text_before : String → String → Bool
text_before s t = elim (compare s t) [ Ordering.lt ↦ true | _ ↦ false ]

-- A text is given and is not empty.
abbrev pub is_given : Option String → Bool
is_given none = false
is_given (some s) = not (str_eq s "")

pub data CommandStatus : Type 0 where
  pending done blocked : CommandStatus

pub record Command : Type 0 where
  pub command_id : String
  pub kind : String
  pub status : CommandStatus

pub record Metadatum : Type 0 where
  pub key : String
  pub value : String

module _ ⦃dec : Decimals⦄ where
  -- A row of `intents`: the columns of its uniqueness, and the intent.
  pub record IntentRow : Type 0 where
    pub strategy : String
    pub version : String
    pub session_id : String
    pub kind : IntentKind
    pub uniqueness_key : String
    pub payload : OrderIntent

  pub record Reservation : Type 0 where
    pub intent_id : String
    pub cash : Decimal
    pub risk : Decimal

  pub record BrokerCost : Type 0 where
    pub intent_id : String
    pub total : Decimal

  pub record Store : Type 0 where
    pub mode : Mode
    pub metadata : List Metadatum
    pub sessions : List TradingSession
    pub intents : List IntentRow
    pub reservations : List Reservation
    pub positions : List Position
    pub fills : List Fill
    pub broker_costs : List BrokerCost
    pub audit : List AuditEvent
    pub simulator_orders : List BrokerOrder
    pub commands : List Command

  -- An empty database of a mode.
  abbrev pub empty_store : Mode → Store
  empty_store m = record {
    mode = m;
    metadata = [];
    sessions = [];
    intents = [];
    reservations = [];
    positions = [];
    fills = [];
    broker_costs = [];
    audit = [];
    simulator_orders = [];
    commands = [];
  }
