-- ===== src/Risk/Tests.antt =====
-- The risk engine at concrete inputs: the example of the risk policy, and the theorems there.
use bot_trading.Prelude.{◌≡◌, refl, ◌↔◌, if◌then◌else◌, true, false, none, some}
use bot_trading.Prelude.Int.{pos}
use bot_trading.Decimal.{◌+D◌, ◌-D◌, ◌*D◌, ◌≤D◌, ◌=D◌, of_ℕ, zero_D, max_D}
use bot_trading.Decimal.Fixed.{fixed, fixed-IsOrdered, milli}
use bot_trading.Risk.Types.{
  at_second, RiskConfig, CostConfig, InstrumentRules, EntryRequest, RiskPortfolio, RiskEngine,
  valid_config, valid_costs,
}
use bot_trading.Risk.Costs.{commission, estimate, estimate_mono}
use bot_trading.Risk.Guards.{all_finite, reject_market, reject_rules, reject_reason}
use bot_trading.Risk.Clear.{IsClear, reject_reason-none}
use bot_trading.Risk.Engine.{
  bisect, feasible, highest_step, steps, decide, size, assess, risk_budget, cash_budget,
  effective_capital, loss_headroom, post_fill_risk,
}
use bot_trading.Risk.Sizing.{IsLast}
use bot_trading.Risk.Approval.{assess_approved, steps-IsLast, assess_within_budgets}
use bot_trading.Risk.Limits.{
  assess_limits, post_fill_as_planned, IsEmpty, assess_refused, post_fill_incident,
}

abbrev config : RiskConfig ⦃dec = fixed⦄
config = record {
  allocated_capital = milli 10_000_000;
  risk_fraction = milli 1;
  daily_loss_fraction = milli 5;
  max_positions = 2;
  max_gross_fraction = milli 1000;
  max_position_fraction = milli 600;
  max_spread_fraction = milli 3;
  max_price_deviation = milli 5;
  max_source_divergence = milli 5;
  max_quote_age_seconds = 3;
  signal_ttl_seconds = 10;
}

-- In all 0.03 a unit, as in the policy's example.
abbrev pub costs : CostConfig ⦃dec = fixed⦄
costs = record {
  known = true;
  fixed_per_side = milli 0;
  minimum_per_side = milli 0;
  per_unit_per_side = milli 5;
  notional_rate_per_side = milli 0;
  slippage_per_unit = milli 20;
  quadratic_impact = milli 0;
}

abbrev pub engine : RiskEngine ⦃dec = fixed⦄
engine = record { config = config; costs = costs }

abbrev pub rules : InstrumentRules ⦃dec = fixed⦄
rules = record {
  unit_step = milli 1;
  minimum_units = milli 1;
  maximum_units = milli 1_000_000_000;
  minimum_notional = milli 1000;
  maximum_notional = milli 1_000_000_000;
  currency = "USD";
  effective_product = "common_stock";
  eligibility_verified = true;
  native_stop_supported = true;
}

abbrev pub request : EntryRequest ⦃dec = fixed⦄
request = record {
  signal_id = "signal";
  session_id = "day";
  symbol = "AAPL";
  available_at = at_second 100;
  expires_at = at_second 110;
  now = at_second 101;
  entry_price = milli 100_000;
  stop_price = milli 99_000;
  bid = milli 99_990;
  ask = milli 100_000;
  quote_at = at_second 100;
  reference_price = some (milli 100_000);
  source_price = none;
  entry_window_open = true;
  rules = rules;
  strategy = "ORB_RVOL";
  version = "0.1";
}

abbrev pub account : RiskPortfolio ⦃dec = fixed⦄
account = record {
  reference_capital = milli 10_000_000;
  equity = milli 10_000_000;
  cash = milli 10_000_000;
  gross_exposure = milli 0;
  reserved_cash = milli 0;
  reserved_risk = milli 0;
  potential_positions = pos 0;
  realized_pnl = milli 0;
  unrealized_pnl = milli 0;
  entries_paused = false;
  reconciliation_ok = true;
}

-- 9.708 units: 9.709 would risk more than 10 dollars.
assess_example : (assess engine request account).units ≡ milli 9708
unfolding assess reject_reason reject_rules reject_market all_finite size steps bisect feasible
    estimate commission decide risk_budget cash_budget
assess_example = refl

approved_example : (assess engine request account).approved ≡ true
unfolding assess reject_reason reject_rules reject_market all_finite size steps bisect feasible
    estimate commission decide risk_budget cash_budget
approved_example = refl

valid_config_example : valid_config config ≡ true
unfolding valid_config
valid_config_example = refl

valid_costs_example : valid_costs costs ≡ true
unfolding valid_costs
valid_costs_example = refl

request-IsClear : IsClear engine request account
request-IsClear = (assess_approved engine request account approved_example).0

reject_reason-none_example :
    (reject_reason engine request account ≡ none) ↔ IsClear engine request account
reject_reason-none_example = reject_reason-none engine request account

estimate_mono_example :
    (estimate costs (milli 3000) (milli 100_000) ≤D estimate costs (milli 4000) (milli 100_000))
    ≡ true
estimate_mono_example =
    estimate_mono fixed-IsOrdered costs valid_costs_example (milli 3000) (milli 4000)
      (milli 100_000) refl refl refl

steps-IsLast_example :
    IsLast
      (feasible engine request account)
      0
      (highest_step engine request account)
      (steps engine request account)
steps-IsLast_example =
    steps-IsLast fixed-IsOrdered engine request account valid_costs_example request-IsClear

assess_within_budgets_example :
    let d = assess engine request account in
    ((d.planned_risk ≤D risk_budget config account) ≡ true)
    × (((d.notional +D d.estimated_cost) ≤D cash_budget config account) ≡ true)
assess_within_budgets_example =
    assess_within_budgets fixed-IsOrdered engine request account valid_costs_example
      approved_example

assess_limits_example :
    let d = assess engine request account in
    let capital = effective_capital config account in
    let outlay = d.notional +D d.estimated_cost in
    ((d.planned_risk ≤D (config.allocated_capital *D config.risk_fraction)) ≡ true)
    × ((d.planned_risk ≤D loss_headroom config account) ≡ true)
    × ((outlay ≤D (account.cash -D account.reserved_cash)) ≡ true)
    × ((outlay ≤D (
          capital *D config.max_gross_fraction -D account.gross_exposure -D account.reserved_cash))
        ≡ true)
    × ((outlay ≤D (capital *D config.max_position_fraction)) ≡ true)
assess_limits_example =
    assess_limits fixed-IsOrdered engine request account valid_config_example valid_costs_example
      approved_example

post_fill_as_planned_example :
    let d = assess engine request account in
    post_fill_risk engine d.units request.entry_price request.stop_price d.planned_risk true
    ≡ (d.planned_risk, none)
post_fill_as_planned_example =
    post_fill_as_planned fixed-IsOrdered engine request account approved_example

abbrev paused : RiskPortfolio ⦃dec = fixed⦄
paused = record account { entries_paused = true }

paused_refused : (assess engine request paused).approved ≡ false
unfolding assess reject_reason all_finite
paused_refused = refl

assess_refused_example : IsEmpty (assess engine request paused)
assess_refused_example = assess_refused engine request paused paused_refused

post_fill_incident_example :
    let c = engine.costs in
    let side =
      c.fixed_per_side
      +D max_D c.minimum_per_side (
          milli 1000 *D c.per_unit_per_side
          +D milli 1000 *D milli 101_000 *D c.notional_rate_per_side) in
    let cost =
      if milli 1000 =D zero_D
      then zero_D
      else of_ℕ 2 *D side
        +D milli 1000 *D c.slippage_per_unit
        +D c.quadratic_impact *D milli 1000 *D milli 1000 in
    let risk = max_D zero_D (milli 1000 *D (milli 101_000 -D milli 99_000)) +D cost in
    let (reported, incident) =
      post_fill_risk engine (milli 1000) (milli 101_000) (milli 99_000) (milli 1500) true in
    (reported ≡ risk) × ((incident ≡ none) ↔ ((true ≡ true) × ((risk ≤D milli 1500) ≡ true)))
post_fill_incident_example =
    post_fill_incident engine (milli 1000) (milli 101_000) (milli 99_000) (milli 1500) true
