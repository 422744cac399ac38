-- ===== src/Risk/Limits.antt =====
-- The limits of the risk policy that every approval respects, and what follows a fill.
use bot_trading.Prelude.{◌≡◌, ◌↔◌, refl, String, Bool, true, false, none, if◌then◌else◌, arith}
use bot_trading.Risk.Costs.{estimate, commission}
use bot_trading.Decimal.{
  Decimals, Decimal, ◌+D◌, ◌-D◌, ◌*D◌, ◌≤D◌, of_ℕ, zero_D, min_D, max_D, ◌=D◌,
}
use bot_trading.Decimal.Laws.{IsOrdered, le_of_lt, min_D-le_left, min_D-le_right, mul_nonneg}
use bot_trading.Risk.Types.{
  RiskEngine, EntryRequest, RiskPortfolio, RiskDecision, valid_config, valid_costs, refusal,
}
use bot_trading.Risk.Clear.{IsClear}
use bot_trading.Risk.Engine.{
  decide, size, steps, assess, risk_budget, cash_budget, effective_capital, loss_headroom,
  post_fill_risk,
}
use bot_trading.Risk.Approval.{assess_approved, assess_within_budgets}

module _ ⦃dec : Decimals⦄ where
  effective_capital_nonneg :
      (e : RiskEngine) (r : EntryRequest) (p : RiskPortfolio)
      → IsOrdered dec
      → valid_config e.config ≡ true
      → IsClear e r p
      → (zero_D ≤D effective_capital e.config p) ≡ true
  unfolding valid_config
  effective_capital_nonneg e r p ord valid clear = ground (
    arith,
    clear.account.capital_pos,
    clear.account.equity_pos,
    ord.le_total zero_D e.config.allocated_capital,
    ord.le_total zero_D p.reference_capital,
    ord.le_total zero_D p.equity,
  )

  fraction_nonneg :
      (e : RiskEngine)
      → IsOrdered dec
      → valid_config e.config ≡ true
      → (zero_D ≤D e.config.risk_fraction) ≡ true
  unfolding valid_config
  fraction_nonneg e ord valid = ground (arith, ord.le_total zero_D e.config.risk_fraction)

module _ ⦃dec : Decimals⦄ (ord : IsOrdered dec) (e : RiskEngine) where
  -- An approval keeps to the policy: the risk stays within the fraction of the allocated capital
  -- and within what is left of the daily loss; the outlay stays within the free cash, the gross
  -- exposure limit and the limit of one position.
  pub assess_limits :
      (r : EntryRequest) (p : RiskPortfolio)
      → valid_config e.config ≡ true
      → valid_costs e.costs ≡ true
      → (assess e r p).approved ≡ true
      → let d = assess e r p in
        let capital = effective_capital e.config p in
        let outlay = d.notional +D d.estimated_cost in
        ((d.planned_risk ≤D (e.config.allocated_capital *D e.config.risk_fraction)) ≡ true)
        × ((d.planned_risk ≤D loss_headroom e.config p) ≡ true)
        × ((outlay ≤D (p.cash -D p.reserved_cash)) ≡ true)
        × ((outlay
              ≤D (capital *D e.config.max_gross_fraction -D p.gross_exposure -D p.reserved_cash))
            ≡ true)
        × ((outlay ≤D (capital *D e.config.max_position_fraction)) ≡ true)
  unfolding risk_budget cash_budget
  assess_limits r p config costs h =
      let (risk, cash) = assess_within_budgets ord e r p costs h in
      let clear = (assess_approved e r p h).0 in
      let capital_le =
        ord.le_trans _ _ _
          (min_D-le_left ord (min_D e.config.allocated_capital p.reference_capital) p.equity)
          (min_D-le_left ord e.config.allocated_capital p.reference_capital) in
      let allocated =
        ord.mul_mono _ _ _ _ (effective_capital_nonneg e r p ord config clear) capital_le
          (fraction_nonneg e ord config) (ord.le_refl e.config.risk_fraction) in
      (
        ord.le_trans _ _ _ risk (ord.le_trans _ _ _ (min_D-le_left ord _ _) allocated),
        ord.le_trans _ _ _ risk (min_D-le_right ord _ _),
        ord.le_trans _ _ _ cash
            (ord.le_trans _ _ _ (min_D-le_left ord _ _) (min_D-le_left ord _ _)),
        ord.le_trans _ _ _ cash
            (ord.le_trans _ _ _ (min_D-le_left ord _ _) (min_D-le_right ord _ _)),
        ord.le_trans _ _ _ cash (min_D-le_right ord _ _),
      )

  -- A fill of the approved units at the planned price, with its stop in place, has exactly the
  -- planned risk and raises no incident.
  pub post_fill_as_planned :
      (r : EntryRequest) (p : RiskPortfolio)
      → (assess e r p).approved ≡ true
      → let d = assess e r p in
        post_fill_risk e d.units r.entry_price r.stop_price d.planned_risk true
        ≡ (d.planned_risk, none)
  unfolding post_fill_risk
  post_fill_as_planned r p h =
      let (clear, sized) = assess_approved e r p h in
      let d = assess e r p in
      let exposed =
        mul_nonneg ord d.units (r.entry_price -D r.stop_price) (le_of_lt ord _ _ sized.units_pos)
          (ord.sub_nonneg _ _ (le_of_lt ord _ _ clear.market.stop_below_entry)) in
      ground (
        arith,
        exposed,
        sized.risk_eq,
        sized.cost_eq,
        ord.le_refl d.planned_risk,
        ord.le_antisym zero_D (d.units *D (r.entry_price -D r.stop_price)),
      )

module _ ⦃dec : Decimals⦄ where
  -- The amounts of a decision that reserves nothing.
  pub record IsEmpty (d : RiskDecision) : Type 0 where
    pub no_units : d.units ≡ zero_D
    pub no_risk : d.planned_risk ≡ zero_D
    pub no_notional : d.notional ≡ zero_D
    pub no_cost : d.estimated_cost ≡ zero_D
    pub no_ratio : d.cost_to_r ≡ zero_D

  refusal-IsEmpty : (reason : String) → IsEmpty (refusal reason)
  refusal-IsEmpty reason = record {
    no_units = refl;
    no_risk = refl;
    no_notional = refl;
    no_cost = refl;
    no_ratio = refl;
  }

module _ ⦃dec : Decimals⦄ (e : RiskEngine) where
  decide_refused :
      (r : EntryRequest) (units : Decimal)
      → (decide e r units).approved ≡ false
      → decide e r units ≡ refusal (decide e r units).reason
  unfolding decide
  decide_refused r units h = ground arith

  assess_bare :
      (r : EntryRequest) (p : RiskPortfolio)
      → (assess e r p).approved ≡ false
      → assess e r p ≡ refusal (assess e r p).reason
  unfolding assess size
  assess_bare r p h = ground (arith, decide_refused r (r.rules.unit_step *D of_ℕ (steps e r p)))

  -- A decision that is not an approval reserves nothing: its units, its risk, its notional, its
  -- estimated cost and its ratio of the cost to the risk are all zero.
  pub assess_refused :
      (r : EntryRequest) (p : RiskPortfolio)
      → (assess e r p).approved ≡ false
      → IsEmpty (assess e r p)
  assess_refused r p h = rw (assess_bare r p h) (refusal-IsEmpty (assess e r p).reason)

  -- The risk after a fill is the loss at the stop, or zero when the stop is above the fill, and the
  -- cost of both sides: twice the fixed charge and the commission, the slippage and the impact, or
  -- no cost when there are no units. A fill without its stop, or one that risks more than planned,
  -- is an incident, and no other is.
  pub post_fill_incident :
      (units fill stop planned : Decimal) (protected : Bool)
      → let c = e.costs in
        let side =
          c.fixed_per_side
          +D max_D c.minimum_per_side
              (units *D c.per_unit_per_side +D units *D fill *D c.notional_rate_per_side) in
        let cost =
          if units =D zero_D
          then zero_D
          else of_ℕ 2 *D side
            +D units *D c.slippage_per_unit
            +D c.quadratic_impact *D units *D units in
        let risk = max_D zero_D (units *D (fill -D stop)) +D cost in
        let (reported, incident) = post_fill_risk e units fill stop planned protected in
        (reported ≡ risk) × ((incident ≡ none) ↔ ((protected ≡ true) × ((risk ≤D planned) ≡ true)))
  unfolding post_fill_risk estimate commission
  post_fill_incident units fill stop planned protected =
      (ground arith, (λ h. ground arith, λ h. ground arith))
