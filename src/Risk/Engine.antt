-- ===== src/Risk/Engine.antt =====
-- `RiskEngine.assess` and `RiskEngine.post_fill_risk` of risk/engine.py.
use bot_trading.Prelude.{
  ℕ, zero, suc, ◌+◌, ◌-◌, ◌/◌, String, Bool, true, not, ◌&&◌, ◌||◌, Option, none, some, ltb,
  if◌then◌else◌,
}
use bot_trading.Decimal.{
  Decimals, Decimal, ◌+D◌, ◌-D◌, ◌*D◌, ◌/D◌, ◌≤D◌, ◌<D◌, of_ℕ, zero_D, min_D, max_D,
}
use bot_trading.Risk.Types.{
  RiskConfig, EntryRequest, RiskPortfolio, RiskDecision, refusal, RiskEngine,
}
use bot_trading.Risk.Costs.{estimate}
use bot_trading.Risk.Guards.{reject_reason}

-- `while low < high`: the interval halves, so `high - low` rounds of fuel are enough.
unfoldable pub bisect : ℕ → (ℕ → Bool) → ℕ → ℕ → ℕ
bisect zero feasible low high = low
bisect (suc fuel) feasible low high =
    let middle = (low + high + 1) / 2 in
    let rest =
      bisect fuel feasible (if feasible middle then middle else low)
        (if feasible middle then high else middle - 1) in
    if ltb low high then rest else low

module _ ⦃dec : Decimals⦄ where
  abbrev pub effective_capital : RiskConfig → RiskPortfolio → Decimal
  effective_capital c p = min_D (min_D c.allocated_capital p.reference_capital) p.equity

  abbrev pub loss_headroom : RiskConfig → RiskPortfolio → Decimal
  loss_headroom c p =
      p.reference_capital *D c.daily_loss_fraction
      +D min_D zero_D (p.realized_pnl +D p.unrealized_pnl)
      -D p.reserved_risk

  unfoldable pub risk_budget : RiskConfig → RiskPortfolio → Decimal
  risk_budget c p = min_D (effective_capital c p *D c.risk_fraction) (loss_headroom c p)

  unfoldable pub cash_budget : RiskConfig → RiskPortfolio → Decimal
  cash_budget c p =
      min_D
        (min_D (p.cash -D p.reserved_cash)
          (effective_capital c p *D c.max_gross_fraction -D p.gross_exposure -D p.reserved_cash))
        (effective_capital c p *D c.max_position_fraction)

  -- The greatest number of units that the rules and each budget alone would let through.
  abbrev pub maximum_units : RiskEngine → EntryRequest → RiskPortfolio → Decimal
  maximum_units e r p =
      min_D
        (min_D (min_D r.rules.maximum_units (r.rules.maximum_notional /D r.entry_price))
          (risk_budget e.config p /D (r.entry_price -D r.stop_price)))
        (cash_budget e.config p /D r.entry_price)

  -- The loop's test: so many steps fit both budgets, costs included.
  unfoldable pub feasible : RiskEngine → EntryRequest → RiskPortfolio → ℕ → Bool
  feasible e r p middle =
      let units = r.rules.unit_step *D of_ℕ middle in
      let costs = estimate e.costs units r.entry_price in
      (units *D (r.entry_price -D r.stop_price) +D costs) ≤D risk_budget e.config p
      && (units *D r.entry_price +D costs) ≤D cash_budget e.config p

  abbrev pub highest_step : RiskEngine → EntryRequest → RiskPortfolio → ℕ
  highest_step e r p = dec.floor (maximum_units e r p /D r.rules.unit_step)

  unfoldable pub steps : RiskEngine → EntryRequest → RiskPortfolio → ℕ
  steps e r p = let high = highest_step e r p in bisect high (feasible e r p) 0 high

  -- The decision for a number of units, after the bisection.
  unfoldable pub decide : RiskEngine → EntryRequest → Decimal → RiskDecision
  decide e r units =
      let notional = units *D r.entry_price in
      let cost = estimate e.costs units r.entry_price in
      let risk = units *D (r.entry_price -D r.stop_price) +D cost in
      if units ≤D zero_D || units <D r.rules.minimum_units || notional <D r.rules.minimum_notional
      then refusal "MINIMUM_INCOMPATIBLE"
      else record {
        approved = true;
        reason = "APPROVED";
        units = units;
        planned_risk = risk;
        notional = notional;
        estimated_cost = cost;
        cost_to_r = cost /D risk;
      }

  unfoldable pub size : RiskEngine → EntryRequest → RiskPortfolio → RiskDecision
  size e r p =
      if risk_budget e.config p ≤D zero_D || cash_budget e.config p ≤D zero_D
      then refusal "BUDGET_EXHAUSTED"
      else decide e r (r.rules.unit_step *D of_ℕ (steps e r p))

  unfoldable pub assess : RiskEngine → EntryRequest → RiskPortfolio → RiskDecision
  assess e r p = elim (reject_reason e r p) [ some reason ↦ refusal reason | none ↦ size e r p ]

  unfoldable pub post_fill_risk :
      RiskEngine → Decimal → Decimal → Decimal → Decimal → Bool → Decimal × Option String
  post_fill_risk e units fill_price stop_price planned_risk protected =
      let risk =
        max_D zero_D (units *D (fill_price -D stop_price)) +D estimate e.costs units fill_price in
      if not protected
      then (risk, some "MISSING_PROTECTION")
      else if planned_risk <D risk
      then (risk, some "POST_FILL_RISK_EXCEEDED")
      else (risk, none)
