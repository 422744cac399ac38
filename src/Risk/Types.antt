-- ===== src/Risk/Types.antt =====
-- The configuration, requests, portfolios and decisions of risk/engine.py.
use bot_trading.Prelude.{ℕ, ◌*◌, String, Bool, true, Option, ◌&&◌, leb}
use bot_trading.Prelude.Int.{ℤ}
use bot_trading.Decimal.{Decimals, Decimal, ◌≤D◌, ◌<D◌, zero_D, of_ℕ}

-- A `datetime`: an instant in microseconds, and whether it carries a time zone.
pub record Stamp : Type 0 where
  pub micros : ℕ
  pub aware : Bool

-- A second of the clock, with its time zone.
abbrev pub at_second : ℕ → Stamp
at_second s = record { micros = s * 1_000_000; aware = true }

module _ ⦃dec : Decimals⦄ where
  pub record RiskConfig : Type 0 where
    pub allocated_capital : Decimal
    pub risk_fraction : Decimal
    pub daily_loss_fraction : Decimal
    pub max_positions : ℕ
    pub max_gross_fraction : Decimal
    pub max_position_fraction : Decimal
    pub max_spread_fraction : Decimal
    pub max_price_deviation : Decimal
    pub max_source_divergence : Decimal
    pub max_quote_age_seconds : ℕ
    pub signal_ttl_seconds : ℕ

  -- A field with `gt=0, le=bound`; a `Decimal` field is finite unless it says otherwise.
  abbrev pub positive_up_to : Decimal → Decimal → Bool
  positive_up_to bound x = dec.is_finite x && zero_D <D x && x ≤D bound

  -- What pydantic checks when a `RiskConfig` is built.
  unfoldable pub valid_config : RiskConfig → Bool
  valid_config c =
      dec.is_finite c.allocated_capital
      && zero_D <D c.allocated_capital
      && positive_up_to (dec.scaled 1 3) c.risk_fraction
      && positive_up_to (dec.scaled 5 3) c.daily_loss_fraction
      && leb 1 c.max_positions
      && leb c.max_positions 2
      && positive_up_to (of_ℕ 1) c.max_gross_fraction
      && positive_up_to (of_ℕ 1) c.max_position_fraction
      && positive_up_to (dec.scaled 5 2) c.max_spread_fraction
      && positive_up_to (dec.scaled 5 2) c.max_price_deviation
      && positive_up_to (dec.scaled 5 2) c.max_source_divergence
      && leb c.max_quote_age_seconds 10
      && leb 1 c.signal_ttl_seconds
      && leb c.signal_ttl_seconds 10

  pub record CostConfig : Type 0 where
    pub known : Bool
    pub fixed_per_side : Decimal
    pub minimum_per_side : Decimal
    pub per_unit_per_side : Decimal
    pub notional_rate_per_side : Decimal
    pub slippage_per_unit : Decimal
    pub quadratic_impact : Decimal

  abbrev nonnegative : Decimal → Bool
  nonnegative x = dec.is_finite x && zero_D ≤D x

  -- What pydantic checks when a `CostConfig` is built: no term is negative.
  unfoldable pub valid_costs : CostConfig → Bool
  valid_costs c =
      nonnegative c.fixed_per_side
      && nonnegative c.minimum_per_side
      && nonnegative c.per_unit_per_side
      && nonnegative c.notional_rate_per_side
      && nonnegative c.slippage_per_unit
      && nonnegative c.quadratic_impact

  pub record InstrumentRules : Type 0 where
    pub unit_step : Decimal
    pub minimum_units : Decimal
    pub maximum_units : Decimal
    pub minimum_notional : Decimal
    pub maximum_notional : Decimal
    pub currency : String
    pub effective_product : String
    pub eligibility_verified : Bool
    pub native_stop_supported : Bool

  pub record EntryRequest : Type 0 where
    pub signal_id : String
    pub session_id : String
    pub symbol : String
    pub available_at : Stamp
    pub expires_at : Stamp
    pub now : Stamp
    pub entry_price : Decimal
    pub stop_price : Decimal
    pub bid : Decimal
    pub ask : Decimal
    pub quote_at : Stamp
    pub reference_price : Option Decimal
    pub source_price : Option Decimal
    pub entry_window_open : Bool
    pub rules : InstrumentRules
    pub strategy : String
    pub version : String

  pub record RiskPortfolio : Type 0 where
    pub reference_capital : Decimal
    pub equity : Decimal
    pub cash : Decimal
    pub gross_exposure : Decimal
    pub reserved_cash : Decimal
    pub reserved_risk : Decimal
    pub potential_positions : ℤ
    pub realized_pnl : Decimal
    pub unrealized_pnl : Decimal
    pub entries_paused : Bool
    pub reconciliation_ok : Bool

  pub record RiskDecision : Type 0 where
    pub approved : Bool
    pub reason : String
    pub units : Decimal
    pub planned_risk : Decimal
    pub notional : Decimal
    pub estimated_cost : Decimal
    pub cost_to_r : Decimal

  -- `RiskDecision(False, reason)`: the amounts keep their default, zero.
  abbrev pub refusal : String → RiskDecision
  refusal reason = record {
    approved = Bool.false;
    reason = reason;
    units = zero_D;
    planned_risk = zero_D;
    notional = zero_D;
    estimated_cost = zero_D;
    cost_to_r = zero_D;
  }

  pub record RiskEngine : Type 0 where
    pub config : RiskConfig
    pub costs : CostConfig
