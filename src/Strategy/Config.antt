-- ===== src/Strategy/Config.antt =====
-- `StrategyConfig` of strategies/orb.py; fields with one possible value are left out.
use bot_trading.Prelude.{ℕ, ◌==◌, String, Bool, true, false, not, ◌&&◌, leb}
use bot_trading.Decimal.{Decimals, Decimal, ◌≤D◌, ◌<D◌, ◌=D◌, zero_D, of_ℕ}
use bot_trading.Exec.{value_error, Result}
use bot_trading.Exec.Results.{◌>>◌, raise_if}

pub data StrategyVersion : Type 0 where
  orb_rvol_v0 orb_base_v0 orb_rvol_v1 : StrategyVersion

abbrev pub version_text : StrategyVersion → String
version_text StrategyVersion.orb_rvol_v0 = "ORB_RVOL_v0.1"
version_text StrategyVersion.orb_base_v0 = "ORB_BASE_v0.1"
version_text StrategyVersion.orb_rvol_v1 = "ORB_RVOL_v1.0"

abbrev pub is_base : StrategyVersion → Bool
is_base StrategyVersion.orb_base_v0 = true
is_base _ = false

module _ ⦃dec : Decimals⦄ where
  pub record StrategyConfig : Type 0 where
    pub version : StrategyVersion
    pub min_previous_close : Decimal
    pub min_average_dollar_volume : Decimal
    pub min_rvol : Decimal
    pub max_selected : ℕ
    pub entry_window_minutes : ℕ
    pub selection_wait_seconds : ℕ
    pub signal_ttl_seconds : ℕ
    pub relative_strength_enabled : Bool

  -- The fields' own bounds.
  unfoldable pub valid_strategy : StrategyConfig → Bool
  valid_strategy c =
      dec.is_finite c.min_previous_close
      && zero_D ≤D c.min_previous_close
      && dec.is_finite c.min_average_dollar_volume
      && zero_D ≤D c.min_average_dollar_volume
      && dec.is_finite c.min_rvol
      && zero_D <D c.min_rvol
      && leb 1 c.max_selected
      && leb c.max_selected 10
      && leb 6 c.entry_window_minutes
      && leb c.entry_window_minutes 60
      && leb c.selection_wait_seconds 10
      && leb 1 c.signal_ttl_seconds
      && leb c.signal_ttl_seconds 10

  abbrev frozen : Bool → String → Result (Unit {0})
  frozen same key = raise_if (not same) (value_error key)

  -- Version 1 fixes every parameter.
  unfoldable pub frozen_values : StrategyConfig → Result (Unit {0})
  frozen_values c = do
    frozen (c.min_previous_close =D of_ℕ 10) "STRATEGY_V1_FROZEN_PARAMETER: min_previous_close"
    frozen (c.min_average_dollar_volume =D of_ℕ 50_000_000)
        "STRATEGY_V1_FROZEN_PARAMETER: min_average_dollar_volume"
    frozen (c.min_rvol =D of_ℕ 2) "STRATEGY_V1_FROZEN_PARAMETER: min_rvol"
    frozen (c.max_selected == 10) "STRATEGY_V1_FROZEN_PARAMETER: max_selected"
    frozen (c.entry_window_minutes == 60) "STRATEGY_V1_FROZEN_PARAMETER: entry_window_minutes"
    frozen (c.selection_wait_seconds == 2) "STRATEGY_V1_FROZEN_PARAMETER: selection_wait_seconds"
    frozen (c.signal_ttl_seconds == 10) "STRATEGY_V1_FROZEN_PARAMETER: signal_ttl_seconds"
    frozen c.relative_strength_enabled "STRATEGY_V1_FROZEN_PARAMETER: relative_strength_enabled"

  abbrev check_version : StrategyVersion → StrategyConfig → Result (Unit {0})
  check_version StrategyVersion.orb_rvol_v1 c = frozen_values c
  check_version _ c = raise_if c.relative_strength_enabled (value_error "RS_REQUIRES_STRATEGY_V1")

  unfoldable pub version_contract : StrategyConfig → Result (Unit {0})
  version_contract c = check_version c.version c
