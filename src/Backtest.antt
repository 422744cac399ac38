-- ===== src/Backtest.antt =====
-- The research backtest of backtesting/engine.py: its configuration, its books and its prices.
pub mod Replay
pub mod Orders
pub mod Events
pub mod Handlers
pub mod Run
pub mod Once
pub mod Intents
pub mod Causal
pub mod Invariants
pub mod Knowledge
pub mod Stops
pub mod Tests
use bot_trading.Prelude.{ℕ, String, Option, Bool, true, false, ◌&&◌, List, leb, if◌then◌else◌}
use bot_trading.Decimal.{
  Decimals, Decimal, ◌+D◌, ◌*D◌, ◌/D◌, ◌≤D◌, ◌<D◌, of_ℕ, zero_D, neg_D, max_D,
}
use bot_trading.Risk.Types.{Stamp, CostConfig, RiskDecision}
use bot_trading.Domain.{Signal}

module _ ⦃dec : Decimals⦄ where
  pub record BacktestConfig : Type 0 where
    pub starting_capital : Decimal
    pub latency_ms : ℕ
    pub spread_bps : Decimal
    pub slippage_bps : Decimal
    pub seed : ℕ
    pub bootstrap_samples : ℕ
    pub bootstrap_block_sessions : ℕ

  -- The fields' own bounds.
  unfoldable pub valid_backtest : BacktestConfig → Bool
  valid_backtest c =
      dec.is_finite c.starting_capital
      && zero_D <D c.starting_capital
      && leb 1 c.latency_ms
      && leb c.latency_ms 120_000
      && dec.is_finite c.spread_bps
      && zero_D ≤D c.spread_bps
      && c.spread_bps ≤D of_ℕ 1000
      && dec.is_finite c.slippage_bps
      && zero_D ≤D c.slippage_bps
      && c.slippage_bps ≤D of_ℕ 1000
      && leb 10 c.bootstrap_samples
      && leb c.bootstrap_samples 10_000
      && leb 1 c.bootstrap_block_sessions
      && leb c.bootstrap_block_sessions 20

  pub record Pending : Type 0 where
    pub signal : Signal
    pub sent_at : Stamp
    pub decision : RiskDecision

  pub record Position : Type 0 where
    pub pending : Pending
    pub filled_at : Stamp
    pub entry : Decimal
    pub entry_fee : Decimal
    pub mark : Decimal
    pub friction : Decimal

  -- An item of the dictionaries `pending` and `positions`.
  pub record PendingItem : Type 0 where
    pub symbol : String
    pub order : Pending

  pub record PositionItem : Type 0 where
    pub symbol : String
    pub position : Position

  pub record Trade : Type 0 where
    pub signal_id : String
    pub symbol : String
    pub session_date : ℕ
    pub submitted_at : Stamp
    pub entry_at : Stamp
    pub exit_at : Stamp
    pub units : Decimal
    pub entry_price : Decimal
    pub exit_price : Decimal
    pub stop_price : Decimal
    pub exit_reason : String
    pub net_pnl : Decimal
    pub planned_risk : Decimal
    pub r_multiple : Decimal
    pub costs : Decimal
    pub fees : Decimal
    pub spread_slippage : Decimal
    pub turnover : Decimal

  pub record EntryReject : Type 0 where
    pub symbol : String
    pub at : Stamp
    pub reason : String
    pub signal_id : Option String

  pub record Incident : Type 0 where
    pub symbols : List String
    pub at : Stamp
    pub reason : String
    pub risk : Option Decimal

  pub record EquityPoint : Type 0 where
    pub session_date : ℕ
    pub equity : Decimal
    pub cash : Decimal
    pub open_positions : ℕ

  -- The variables of `run_backtest` that its events change.
  pub record Books : Type 0 where
    pub cash : Decimal
    pub pending : List PendingItem
    pub positions : List PositionItem
    pub seen_intents : List String
    pub trades : List Trade
    pub rejects : List EntryReject
    pub incidents : List Incident
    pub equity_curve : List EquityPoint

-- The direction of an order: a purchase pays more than the price, a sale gets less.
pub data Side : Type 0 where
  purchase sale : Side

module _ ⦃dec : Decimals⦄ (config : BacktestConfig) (costs : CostConfig) where
  unfoldable pub fee : Decimal → Decimal → Decimal
  fee units price =
      costs.fixed_per_side
      +D max_D costs.minimum_per_side
          (units *D costs.per_unit_per_side +D units *D price *D costs.notional_rate_per_side)
      +D costs.quadratic_impact *D units *D units /D of_ℕ 2

  abbrev signed : Side → Decimal → Decimal
  signed Side.purchase x = x
  signed Side.sale x = neg_D x

  unfoldable pub executable : Decimal → Side → Decimal
  executable price side =
      price
        *D (of_ℕ 1
            +D signed side (config.spread_bps /D of_ℕ 2 +D config.slippage_bps) /D of_ℕ 10_000)
      +D signed side costs.slippage_per_unit /D of_ℕ 2
