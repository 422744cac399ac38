-- ===== src/Risk/Clear.antt =====
-- What an entry must satisfy to pass every guard of `_reject_reason`, stated fact by fact.
use bot_trading.Prelude.{◌-◌, ◌*◌, ◌≤◌, ◌<◌, ◌≡◌, ◌≢◌, ◌↔◌, true, false, none, eq_iff, arith}
use bot_trading.Prelude.Int.{pos, leb_ℤ}
use bot_trading.Decimal.{Decimals, ◌-D◌, ◌/D◌, ◌≤D◌, ◌<D◌, zero_D}
use bot_trading.Risk.Types.{RiskConfig, RiskEngine, EntryRequest, RiskPortfolio}
use bot_trading.Risk.Guards.{
  all_finite, daily_loss_reached, deviates, reject_market, reject_rules, reject_reason,
}

module _ ⦃dec : Decimals⦄ where
  pub record MarketIsClear (c : RiskConfig) (r : EntryRequest) : Type 0 where
    pub stop_pos : (zero_D <D r.stop_price) ≡ true
    pub stop_below_entry : (r.stop_price <D r.entry_price) ≡ true
    pub bid_pos : (zero_D <D r.bid) ≡ true
    pub bid_le_ask : (r.bid ≤D r.ask) ≡ true
    pub ask_le_entry : (r.ask ≤D r.entry_price) ≡ true
    pub now_aware : r.now.aware ≡ true
    pub quote_aware : r.quote_at.aware ≡ true
    pub available_aware : r.available_at.aware ≡ true
    pub expires_aware : r.expires_at.aware ≡ true
    pub available_past : r.available_at.micros ≤ r.now.micros
    pub quote_past : r.quote_at.micros ≤ r.now.micros
    pub window_open : r.entry_window_open ≡ true
    pub unexpired : r.now.micros < r.expires_at.micros
    pub signal_fresh : r.now.micros - r.available_at.micros ≤ c.signal_ttl_seconds * 1_000_000
    pub quote_fresh : r.now.micros - r.quote_at.micros ≤ c.max_quote_age_seconds * 1_000_000
    pub spread_small : (((r.ask -D r.bid) /D r.ask) ≤D c.max_spread_fraction) ≡ true
    pub near_reference : deviates r.entry_price c.max_price_deviation r.reference_price ≡ false
    pub near_source : deviates r.entry_price c.max_source_divergence r.source_price ≡ false

  pub record RulesAreClear (e : RiskEngine) (r : EntryRequest) : Type 0 where
    pub costs_known : e.costs.known ≡ true
    pub in_dollars : r.rules.currency ≡ "USD"
    pub common_stock : r.rules.effective_product ≡ "common_stock"
    pub eligible : r.rules.eligibility_verified ≡ true
    pub native_stop : r.rules.native_stop_supported ≡ true
    pub step_pos : (zero_D <D r.rules.unit_step) ≡ true
    pub minimum_units_nonneg : (zero_D ≤D r.rules.minimum_units) ≡ true
    pub maximum_units_pos : (zero_D <D r.rules.maximum_units) ≡ true
    pub minimum_notional_nonneg : (zero_D ≤D r.rules.minimum_notional) ≡ true
    pub maximum_notional_pos : (zero_D <D r.rules.maximum_notional) ≡ true
    pub units_ordered : (r.rules.minimum_units ≤D r.rules.maximum_units) ≡ true
    pub notionals_ordered : (r.rules.minimum_notional ≤D r.rules.maximum_notional) ≡ true

  pub record AccountIsClear (e : RiskEngine) (r : EntryRequest) (p : RiskPortfolio) : Type 0 where
    pub finite : all_finite r p ≡ true
    pub cash_nonneg : (zero_D ≤D p.cash) ≡ true
    pub exposure_nonneg : (zero_D ≤D p.gross_exposure) ≡ true
    pub reserved_cash_nonneg : (zero_D ≤D p.reserved_cash) ≡ true
    pub reserved_risk_nonneg : (zero_D ≤D p.reserved_risk) ≡ true
    pub capital_pos : (zero_D <D p.reference_capital) ≡ true
    pub equity_pos : (zero_D <D p.equity) ≡ true
    pub positions_nonneg : leb_ℤ (pos 0) p.potential_positions ≡ true
    pub signal_named : r.signal_id ≢ ""
    pub session_named : r.session_id ≢ ""
    pub symbol_named : r.symbol ≢ ""
    pub armed : p.entries_paused ≡ false
    pub reconciled : p.reconciliation_ok ≡ true
    pub loss_left : daily_loss_reached e.config p ≡ false
    pub slot_left : leb_ℤ (pos e.config.max_positions) p.potential_positions ≡ false

  pub record IsClear (e : RiskEngine) (r : EntryRequest) (p : RiskPortfolio) : Type 0 where
    pub account : AccountIsClear e r p
    pub instrument : RulesAreClear e r
    pub market : MarketIsClear e.config r

  market_clear : (c : RiskConfig) (r : EntryRequest) → reject_market c r ≡ none → MarketIsClear c r
  unfolding reject_market
  market_clear c r h = ground arith

  clear_market : (c : RiskConfig) (r : EntryRequest) → MarketIsClear c r → reject_market c r ≡ none
  unfolding reject_market
  clear_market c r h = ground arith

  rules_clear :
      (e : RiskEngine) (r : EntryRequest)
      → reject_rules e r ≡ none
      → RulesAreClear e r × (reject_market e.config r ≡ none)
  unfolding reject_rules
  rules_clear e r h =
      ground (arith, eq_iff r.rules.currency "USD", eq_iff r.rules.effective_product "common_stock")

  clear_rules :
      (e : RiskEngine) (r : EntryRequest)
      → RulesAreClear e r
      → reject_market e.config r ≡ none
      → reject_rules e r ≡ none
  unfolding reject_rules
  clear_rules e r h k =
      ground (arith, eq_iff r.rules.currency "USD", eq_iff r.rules.effective_product "common_stock")

  account_clear :
      (e : RiskEngine) (r : EntryRequest) (p : RiskPortfolio)
      → reject_reason e r p ≡ none
      → AccountIsClear e r p × (reject_rules e r ≡ none)
  unfolding reject_reason
  account_clear e r p h =
      ground (arith, eq_iff r.signal_id "", eq_iff r.session_id "", eq_iff r.symbol "")

  clear_account :
      (e : RiskEngine) (r : EntryRequest) (p : RiskPortfolio)
      → AccountIsClear e r p
      → reject_rules e r ≡ none
      → reject_reason e r p ≡ none
  unfolding reject_reason
  clear_account e r p h k =
      ground (arith, eq_iff r.signal_id "", eq_iff r.session_id "", eq_iff r.symbol "")

  -- No guard refuses the entry exactly when all these facts hold of the account, the instrument
  -- and the market.
  pub reject_reason-none :
      (e : RiskEngine) (r : EntryRequest) (p : RiskPortfolio)
      → (reject_reason e r p ≡ none) ↔ IsClear e r p
  reject_reason-none e r p = (
    λ h.
        let (account, rules_passed) = account_clear e r p h in
        let (instrument, market_passed) = rules_clear e r rules_passed in
        record {
          account = account;
          instrument = instrument;
          market = market_clear e.config r market_passed;
        },
    λ h.
        clear_account e r p h.account
          (clear_rules e r h.instrument (clear_market e.config r h.market)),
  )
