-- ===== src/Risk/Guards.antt =====
-- `RiskEngine._reject_reason` of risk/engine.py.
use bot_trading.Prelude.{
  ℕ, ◌-◌, ◌*◌, String, Bool, false, not, ◌||◌, Option, none, some, List, [], ◌∷◌, ◌++◌, all, ltb,
  leb, if◌then◌else◌, str_eq,
}
use bot_trading.Prelude.Int.{pos, leb_ℤ}
use bot_trading.Decimal.{
  Decimals, Decimal, ◌+D◌, ◌-D◌, ◌*D◌, ◌/D◌, ◌≤D◌, ◌<D◌, zero_D, neg_D, abs_D,
}
use bot_trading.Risk.Types.{
  Stamp, RiskConfig, InstrumentRules, EntryRequest, RiskPortfolio, RiskEngine,
}

-- `not s`, of a text.
abbrev pub is_blank : String → Bool
is_blank s = str_eq s ""

-- `(later - earlier).total_seconds() > seconds`, where `earlier` is not after `later`.
abbrev pub older_than : ℕ → Stamp → Stamp → Bool
older_than seconds later earlier = ltb (seconds * 1_000_000) (later.micros - earlier.micros)

module _ ⦃dec : Decimals⦄ where
  abbrev pub given : Option Decimal → List Decimal
  given none = []
  given (some x) = x ∷ []

  -- The amounts that have to be finite.
  abbrev pub amounts : EntryRequest → RiskPortfolio → List Decimal
  amounts r p =
      (r.entry_price ∷ r.stop_price ∷ r.bid ∷ r.ask ∷ [])
      ++ (given r.reference_price
          ++ (given r.source_price
              ++ (p.reference_capital ∷ p.equity ∷ p.cash ∷ p.gross_exposure ∷ p.reserved_cash
                  ∷ p.reserved_risk ∷ p.realized_pnl ∷ p.unrealized_pnl ∷ r.rules.unit_step
                  ∷ r.rules.minimum_units ∷ r.rules.maximum_units ∷ r.rules.minimum_notional
                  ∷ r.rules.maximum_notional ∷ [])))

  unfoldable pub all_finite : EntryRequest → RiskPortfolio → Bool
  all_finite r p = all dec.is_finite (amounts r p)

  abbrev invalid_portfolio : RiskPortfolio → Bool
  invalid_portfolio p =
      p.cash <D zero_D
      || p.gross_exposure <D zero_D
      || p.reserved_cash <D zero_D
      || p.reserved_risk <D zero_D
      || p.reference_capital ≤D zero_D
      || p.equity ≤D zero_D
      || not (leb_ℤ (pos 0) p.potential_positions)

  abbrev invalid_rules : InstrumentRules → Bool
  invalid_rules rule =
      rule.unit_step ≤D zero_D
      || rule.minimum_units <D zero_D
      || rule.maximum_units ≤D zero_D
      || rule.minimum_notional <D zero_D
      || rule.maximum_notional ≤D zero_D
      || rule.maximum_units <D rule.minimum_units
      || rule.maximum_notional <D rule.minimum_notional

  abbrev naive_time : EntryRequest → Bool
  naive_time r =
      not r.now.aware || not r.quote_at.aware || not r.available_at.aware || not r.expires_at.aware

  -- A given price that is not positive, or further from the entry than the limit.
  abbrev pub deviates : Decimal → Decimal → Option Decimal → Bool
  deviates entry_price limit none = false
  deviates entry_price limit (some price) =
      price ≤D zero_D || limit <D (abs_D (entry_price -D price) /D price)

  -- The day's result has used up the daily loss.
  abbrev pub daily_loss_reached : RiskConfig → RiskPortfolio → Bool
  daily_loss_reached c p =
      (p.realized_pnl +D p.unrealized_pnl) ≤D neg_D (p.reference_capital *D c.daily_loss_fraction)

  -- The checks of the quote, of the times and of the prices, which come last.
  unfoldable pub reject_market : RiskConfig → EntryRequest → Option String
  reject_market c r =
      if r.stop_price ≤D zero_D || r.entry_price ≤D r.stop_price
      then some "INVALID_STOP_DISTANCE"
      else if r.bid ≤D zero_D || r.ask <D r.bid || r.entry_price <D r.ask
      then some "INVALID_EXECUTABLE_QUOTE"
      else if naive_time r
      then some "NAIVE_TIMESTAMP"
      else if ltb r.now.micros r.available_at.micros || ltb r.now.micros r.quote_at.micros
      then some "FUTURE_DATA"
      else if not r.entry_window_open
      then some "ENTRY_WINDOW_CLOSED"
      else if leb r.expires_at.micros r.now.micros
          || older_than c.signal_ttl_seconds r.now r.available_at
      then some "SIGNAL_EXPIRED"
      else if older_than c.max_quote_age_seconds r.now r.quote_at
      then some "STALE_QUOTE"
      else if c.max_spread_fraction <D ((r.ask -D r.bid) /D r.ask)
      then some "SPREAD_LIMIT"
      else if deviates r.entry_price c.max_price_deviation r.reference_price
      then some "PRICE_DEVIATION"
      else if deviates r.entry_price c.max_source_divergence r.source_price
      then some "SOURCE_DIVERGENCE"
      else none

  -- The checks of the costs and of the instrument, and those of the market.
  unfoldable pub reject_rules : RiskEngine → EntryRequest → Option String
  reject_rules e r =
      if not e.costs.known
      then some "COSTS_UNKNOWN"
      else if not (str_eq r.rules.currency "USD")
          || not (str_eq r.rules.effective_product "common_stock")
      then some "PRODUCT_INELIGIBLE"
      else if not r.rules.eligibility_verified
      then some "ELIGIBILITY_UNVERIFIED"
      else if not r.rules.native_stop_supported
      then some "NATIVE_STOP_REQUIRED"
      else if invalid_rules r.rules
      then some "INVALID_INSTRUMENT_RULES"
      else reject_market e.config r

  unfoldable pub reject_reason : RiskEngine → EntryRequest → RiskPortfolio → Option String
  reject_reason e r p =
      if not (all_finite r p)
      then some "INVALID_DECIMAL"
      else if invalid_portfolio p
      then some "INVALID_PORTFOLIO"
      else if is_blank r.signal_id || is_blank r.session_id || is_blank r.symbol
      then some "INVALID_IDENTITY"
      else if p.entries_paused
      then some "ENTRIES_PAUSED"
      else if not p.reconciliation_ok
      then some "RECONCILIATION_REQUIRED"
      else if daily_loss_reached e.config p
      then some "DAILY_LOSS_LIMIT"
      else if leb_ℤ (pos e.config.max_positions) p.potential_positions
      then some "POSITION_LIMIT"
      else reject_rules e r
