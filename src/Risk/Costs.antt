-- ===== src/Risk/Costs.antt =====
-- `CostConfig.estimate` of risk/engine.py, and that it never falls as the units grow.
use bot_trading.Prelude.{ℕ, ◌≡◌, true, if◌then◌else◌, arith}
use bot_trading.Decimal.{Decimals, Decimal, ◌+D◌, ◌*D◌, ◌≤D◌, ◌=D◌, of_ℕ, zero_D, max_D}
use bot_trading.Decimal.Laws.{IsOrdered, add_nonneg, mul_nonneg, le-max_D_left, max_D_mono}
use bot_trading.Risk.Types.{CostConfig, valid_costs}

module _ ⦃dec : Decimals⦄ where
  -- One side's commission, which `estimate` doubles.
  unfoldable pub commission : CostConfig → Decimal → Decimal → Decimal
  commission c units entry_price =
      max_D c.minimum_per_side
        (units *D c.per_unit_per_side +D units *D entry_price *D c.notional_rate_per_side)

  unfoldable pub estimate : CostConfig → Decimal → Decimal → Decimal
  unfolding commission
  estimate c units entry_price =
      if units =D zero_D
      then zero_D
      else of_ℕ 2 *D (c.fixed_per_side +D commission c units entry_price)
        +D units *D c.slippage_per_unit
        +D c.quadratic_impact *D units *D units

  -- The terms of the estimate are not negative.
  record NoNegativeTerm (c : CostConfig) : Type 0 where
    fixed_nonneg : (zero_D ≤D c.fixed_per_side) ≡ true
    minimum_nonneg : (zero_D ≤D c.minimum_per_side) ≡ true
    per_unit_nonneg : (zero_D ≤D c.per_unit_per_side) ≡ true
    rate_nonneg : (zero_D ≤D c.notional_rate_per_side) ≡ true
    slippage_nonneg : (zero_D ≤D c.slippage_per_unit) ≡ true
    impact_nonneg : (zero_D ≤D c.quadratic_impact) ≡ true

  valid_costs-NoNegativeTerm : (c : CostConfig) → valid_costs c ≡ true → NoNegativeTerm c
  unfolding valid_costs
  valid_costs-NoNegativeTerm c h = ground arith

module _ ⦃dec : Decimals⦄ (ord : IsOrdered dec) (c : CostConfig) (terms : NoNegativeTerm c) where
  -- The estimate without the test for zero units.
  charged : Decimal → Decimal → Decimal
  charged units price =
      of_ℕ 2 *D (c.fixed_per_side +D commission c units price)
      +D units *D c.slippage_per_unit
      +D c.quadratic_impact *D units *D units

  zero-le-of_ℕ : (n : ℕ) → (zero_D ≤D of_ℕ n) ≡ true
  zero-le-of_ℕ n = ord.scaled_mono 0 n 0 (omega arith)

  commission_nonneg : (u price : Decimal) → (zero_D ≤D commission c u price) ≡ true
  unfolding commission
  commission_nonneg u price = ord.le_trans _ _ _ terms.minimum_nonneg (le-max_D_left ord _ _)

  commission_mono :
      (u v price : Decimal)
      → (zero_D ≤D u) ≡ true
      → (u ≤D v) ≡ true
      → (zero_D ≤D price) ≡ true
      → (commission c u price ≤D commission c v price) ≡ true
  unfolding commission
  commission_mono u v price hu huv hp =
      let traded =
        ord.mul_mono _ _ _ _ hu huv terms.per_unit_nonneg (ord.le_refl c.per_unit_per_side) in
      let notional = ord.mul_mono _ _ _ _ hu huv hp (ord.le_refl price) in
      let rated =
        ord.mul_mono _ _ _ _ (mul_nonneg ord _ _ hu hp) notional terms.rate_nonneg
          (ord.le_refl c.notional_rate_per_side) in
      max_D_mono ord _ _ _ _ (ord.le_refl _) (ord.add_mono _ _ _ _ traded rated)

  charged_mono :
      (u v price : Decimal)
      → (zero_D ≤D u) ≡ true
      → (u ≤D v) ≡ true
      → (zero_D ≤D price) ≡ true
      → (charged u price ≤D charged v price) ≡ true
  unfolding charged
  charged_mono u v price hu huv hp =
      let side =
        ord.add_mono _ _ _ _ (ord.le_refl c.fixed_per_side) (commission_mono u v price hu huv hp) in
      let side_nonneg = add_nonneg ord _ _ terms.fixed_nonneg (commission_nonneg u price) in
      let sides = ord.mul_mono _ _ _ _ (zero-le-of_ℕ 2) (ord.le_refl (of_ℕ 2)) side_nonneg side in
      let slipped =
        ord.mul_mono _ _ _ _ hu huv terms.slippage_nonneg (ord.le_refl c.slippage_per_unit) in
      let linear =
        ord.mul_mono _ _ _ _ terms.impact_nonneg (ord.le_refl c.quadratic_impact) hu huv in
      let impact = ord.mul_mono _ _ _ _ (mul_nonneg ord _ _ terms.impact_nonneg hu) linear hu huv in
      ord.add_mono _ _ _ _ (ord.add_mono _ _ _ _ sides slipped) impact

  charged_nonneg : (u price : Decimal) → (zero_D ≤D u) ≡ true → (zero_D ≤D charged u price) ≡ true
  unfolding charged
  charged_nonneg u price hu =
      add_nonneg ord _ _
        (add_nonneg ord _ _
          (mul_nonneg ord _ _ (zero-le-of_ℕ 2)
            (add_nonneg ord _ _ terms.fixed_nonneg (commission_nonneg u price)))
          (mul_nonneg ord _ _ hu terms.slippage_nonneg))
        (mul_nonneg ord _ _ (mul_nonneg ord _ _ terms.impact_nonneg hu) hu)

module _ ⦃dec : Decimals⦄ (ord : IsOrdered dec) (c : CostConfig)
    (valid : valid_costs c ≡ true) where
  -- The reserve is never negative.
  pub estimate_nonneg :
      (u price : Decimal) → (zero_D ≤D u) ≡ true → (zero_D ≤D estimate c u price) ≡ true
  unfolding estimate charged
  estimate_nonneg u price hu = ground (
    arith,
    ord.le_refl zero_D,
    charged_nonneg ord c (valid_costs-NoNegativeTerm c valid) u price hu,
  )

  -- More units never cost less, at any price that is not negative.
  pub estimate_mono :
      (u v price : Decimal)
      → (zero_D ≤D u) ≡ true
      → (u ≤D v) ≡ true
      → (zero_D ≤D price) ≡ true
      → (estimate c u price ≤D estimate c v price) ≡ true
  unfolding estimate charged
  estimate_mono u v price hu huv hp =
      let terms = valid_costs-NoNegativeTerm c valid in
      ground (
        arith,
        ord.le_refl zero_D,
        ord.le_trans u v zero_D huv,
        charged_mono ord c terms u v price hu huv hp,
        charged_nonneg ord c terms v price (ord.le_trans zero_D u v hu huv),
      )
