-- ===== src/Risk/Approval.antt =====
-- What an approval by `RiskEngine.assess` guarantees.
use bot_trading.Prelude.{ℕ, ◌≡◌, ◌≢◌, ap, ◌∙◌, inl, inr, true, none, arith}
use bot_trading.Decimal.{Decimals, ◌+D◌, ◌-D◌, ◌*D◌, ◌≤D◌, ◌<D◌, of_ℕ, zero_D}
use bot_trading.Decimal.Laws.{IsOrdered, le_of_lt, lt_of_le_of_lt, mul_nonneg}
use bot_trading.Risk.Types.{RiskEngine, EntryRequest, RiskPortfolio, RiskDecision, valid_costs}
use bot_trading.Risk.Costs.{estimate, estimate_mono}
use bot_trading.Risk.Guards.{reject_reason}
use bot_trading.Risk.Clear.{IsClear, reject_reason-none}
use bot_trading.Risk.Engine.{
  feasible, highest_step, steps, decide, size, assess, risk_budget, cash_budget,
}
use bot_trading.Risk.Sizing.{IsDownward, IsLast, bisect-IsLast}

module _ ⦃dec : Decimals⦄ where
  -- The amounts of a decision are those of `k` steps of the instrument.
  pub record IsSized (e : RiskEngine) (r : EntryRequest) (k : ℕ) (d : RiskDecision) : Type 0 where
    pub units_eq : d.units ≡ r.rules.unit_step *D of_ℕ k
    pub notional_eq : d.notional ≡ d.units *D r.entry_price
    pub cost_eq : d.estimated_cost ≡ estimate e.costs d.units r.entry_price
    pub risk_eq : d.planned_risk ≡ d.units *D (r.entry_price -D r.stop_price) +D d.estimated_cost
    pub units_pos : (zero_D <D d.units) ≡ true
    pub units_minimum : (r.rules.minimum_units ≤D d.units) ≡ true
    pub notional_minimum : (r.rules.minimum_notional ≤D d.notional) ≡ true

  decide_approved :
      (e : RiskEngine) (r : EntryRequest) (k : ℕ)
      → (decide e r (r.rules.unit_step *D of_ℕ k)).approved ≡ true
      → IsSized e r k (decide e r (r.rules.unit_step *D of_ℕ k))
  unfolding decide
  decide_approved e r k h = ground arith

  size_approved :
      (e : RiskEngine) (r : EntryRequest) (p : RiskPortfolio)
      → (size e r p).approved ≡ true
      → IsSized e r (steps e r p) (size e r p)
  unfolding size
  size_approved e r p h = ground (arith, decide_approved e r (steps e r p))

  assess-eq-size :
      (e : RiskEngine) (r : EntryRequest) (p : RiskPortfolio)
      → (assess e r p).approved ≡ true
      → (reject_reason e r p ≡ none) × (assess e r p ≡ size e r p)
  unfolding assess
  assess-eq-size e r p h = ground arith

  pub assess_approved :
      (e : RiskEngine) (r : EntryRequest) (p : RiskPortfolio)
      → (assess e r p).approved ≡ true
      → IsClear e r p × IsSized e r (steps e r p) (assess e r p)
  assess_approved e r p h =
      let (passed, same) = assess-eq-size e r p h in
      ((reject_reason-none e r p).0 passed, rw same (size_approved e r p (rw same at h)))

  feasible_budgets :
      (e : RiskEngine) (r : EntryRequest) (p : RiskPortfolio) (k : ℕ)
      → feasible e r p k ≡ true
      → let units = r.rules.unit_step *D of_ℕ k in
        let costs = estimate e.costs units r.entry_price in
        ((units *D (r.entry_price -D r.stop_price) +D costs ≤D risk_budget e.config p) ≡ true)
        × ((units *D r.entry_price +D costs ≤D cash_budget e.config p) ≡ true)
  unfolding feasible
  feasible_budgets e r p k h = ground arith

module _ ⦃dec : Decimals⦄ (ord : IsOrdered dec) (e : RiskEngine) where
  -- More steps need more of both budgets: the comment in the source, proved with rounding.
  pub feasible-IsDownward :
      (r : EntryRequest) (p : RiskPortfolio)
      → valid_costs e.costs ≡ true
      → IsClear e r p
      → IsDownward (feasible e r p)
  unfolding feasible
  feasible-IsDownward r p valid clear i j le h =
      let step_nonneg = le_of_lt ord _ _ clear.instrument.step_pos in
      let price_nonneg = le_of_lt ord _ _ (
        lt_of_le_of_lt ord _ _ _ (le_of_lt ord _ _ clear.market.stop_pos)
          clear.market.stop_below_entry) in
      let distance_nonneg =
        ord.sub_nonneg r.entry_price r.stop_price
          (le_of_lt ord _ _ clear.market.stop_below_entry) in
      let more =
        ord.mul_mono _ _ _ _ step_nonneg (ord.le_refl r.rules.unit_step)
          (ord.scaled_mono 0 i 0 (omega arith)) (ord.scaled_mono i j 0 le) in
      let units_nonneg = mul_nonneg ord _ _ step_nonneg (ord.scaled_mono 0 i 0 (omega arith)) in
      let costs =
        estimate_mono ord e.costs valid _ _ r.entry_price units_nonneg more price_nonneg in
      let risk =
        ord.add_mono _ _ _ _
          (ord.mul_mono _ _ _ _ units_nonneg more distance_nonneg (ord.le_refl _)) costs in
      let cash =
        ord.add_mono _ _ _ _ (ord.mul_mono _ _ _ _ units_nonneg more price_nonneg (ord.le_refl _))
          costs in
      ground (
        arith,
        ord.le_trans _ _ (risk_budget e.config p) risk,
        ord.le_trans _ _ (cash_budget e.config p) cash,
      )

  -- The sizing loop ends, and finds the last step count, up to the instrument's and the budgets'
  -- own maximum, whose risk and outlay with costs fit both budgets.
  pub steps-IsLast :
      (r : EntryRequest) (p : RiskPortfolio)
      → valid_costs e.costs ≡ true
      → IsClear e r p
      → IsLast (feasible e r p) 0 (highest_step e r p) (steps e r p)
  unfolding steps
  steps-IsLast r p valid clear =
      bisect-IsLast (highest_step e r p) (feasible e r p) (feasible-IsDownward r p valid clear) 0
        (highest_step e r p) (omega arith) (omega arith)

  approved_steps_pos : (r : EntryRequest) (k : ℕ) (d : RiskDecision) → IsSized e r k d → k ≢ 0
  approved_steps_pos r k d sized none_ =
      let empty : d.units ≡ zero_D =
        sized.units_eq
        ∙ ap (λ (n : ℕ). r.rules.unit_step *D of_ℕ n) none_
        ∙ ord.mul_zero r.rules.unit_step in
      ground (arith, sized.units_pos, ord.le_refl zero_D, empty)

  -- An approved entry fits both budgets: the loss at the stop and the outlay, each with the
  -- reserved costs.
  pub assess_within_budgets :
      (r : EntryRequest) (p : RiskPortfolio)
      → valid_costs e.costs ≡ true
      → (assess e r p).approved ≡ true
      → let d = assess e r p in
        ((d.planned_risk ≤D risk_budget e.config p) ≡ true)
        × (((d.notional +D d.estimated_cost) ≤D cash_budget e.config p) ≡ true)
  assess_within_budgets r p valid h =
      let (clear, sized) = assess_approved e r p h in
      elim (steps-IsLast r p valid clear).passes [
        | inl none_ ↦ absurd (approved_steps_pos r (steps e r p) (assess e r p) sized none_)
        | inr fits ↦
            rw (sized.risk_eq, sized.notional_eq, sized.cost_eq, sized.units_eq)
              (feasible_budgets e r p (steps e r p) fits)
      ]
