-- ===== src/Strategy.antt =====
-- The opening-range strategy: strategies/features.py, and the opening metrics and the test of
-- relative strength of strategies/orb.py.
pub mod Opening
pub mod Laws
pub mod Config
pub mod Screen
pub mod Session
pub mod PointInTime
pub mod Signals
pub mod SessionTests
pub mod Tests
use bot_trading.Prelude.{
  ℕ, ◌==◌, String, Bool, true, false, not, ◌&&◌, ◌||◌, Option, none, some, List, [], ◌∷◌, all,
  find_row, select, str_eq, ltb, leb, if◌then◌else◌,
}
use bot_trading.Decimal.{Decimals, Decimal, ◌-D◌, ◌/D◌, ◌≤D◌, zero_D}
use bot_trading.Risk.Types.{Stamp}
use bot_trading.Exec.{value_error, Result, ok, err}
use bot_trading.Market.{Calendar}
use bot_trading.Domain.{AssetClass, asset_eq, Instrument, instrument_eq, earlier, Bar}

module _ ⦃dec : Decimals⦄ where
  unfoldable pub relative_strength : Decimal → Decimal → Decimal → Decimal → Result Decimal
  relative_strength stock_open stock_now benchmark_open benchmark_now =
      if stock_open ≤D zero_D || benchmark_open ≤D zero_D
      then err (value_error "opening prices must be positive")
      else ok (stock_now /D stock_open -D benchmark_now /D benchmark_open)

module _ ⦃dec : Decimals⦄ (calendar : Calendar) where
  -- `grouped.get((symbol, day), {}).get(time)`, over the first final arrivals as one list.
  abbrev pub bar_at : String → ℕ → Stamp → List Bar → Option Bar
  bar_at symbol day time = find_row (λ (b : Bar).
      str_eq b.instrument.symbol symbol
      && calendar.day_of b.event_time == day
      && b.event_time.micros == time.micros)

  -- A bar of the benchmark serves the decision: the same source, and known when it was made.
  unfoldable pub usable : Instrument → Bar → Bar → Bool
  usable identity candidate b =
      instrument_eq b.instrument identity
      && str_eq b.instrument.currency "USD"
      && str_eq b.source candidate.source
      && not (earlier candidate.available_at b.available_at)
      && not (earlier candidate.available_at b.received_at)
      && b.final
      && b.revision == 0
      && not (b.volume ≤D zero_D)

  abbrev judge_strength : Result Decimal → Result (Option String)
  judge_strength (err e) = err e
  judge_strength (ok strength) =
      if strength ≤D zero_D then ok (some "RS_NOT_STRONGER_THAN_BOTH") else ok none

  unfoldable pub compare_bars :
      Instrument → Bar → Bar → Option Bar → Option Bar → Result (Option String)
  compare_bars identity stock_open candidate (some opening) (some current) =
      if not (usable identity candidate opening) || not (usable identity candidate current)
      then ok (some "RS_BENCHMARK_INVALID_OR_UNAVAILABLE")
      else judge_strength
          (relative_strength stock_open.open_price candidate.close opening.open_price current.close)
  compare_bars identity stock_open candidate _ _ = ok (some "RS_SYNCHRONIZED_DATA_MISSING")

  abbrev pub identities : String → List Instrument → List Instrument
  identities symbol = select (λ (i : Instrument). str_eq i.symbol symbol)

  -- One round of `_rs_reason`, for the identities of a benchmark.
  unfoldable pub benchmark_reason :
      List Bar → Bar → Bar → String → List Instrument → Result (Option String)
  benchmark_reason grouped stock_open candidate symbol (identity ∷ []) =
      let day = calendar.day_of candidate.event_time in
      if not (asset_eq identity.asset_class AssetClass.etf)
      then ok (some "RS_BENCHMARK_IDENTITY_INVALID")
      else (if calendar.is_session day
          then compare_bars identity stock_open candidate
              (bar_at symbol day (calendar.open_of day) grouped)
              (bar_at symbol day candidate.event_time grouped)
          else err (value_error "NOT_TRADING_SESSION"))
  benchmark_reason grouped stock_open candidate symbol _ = ok (some "RS_BENCHMARK_IDENTITY_INVALID")

  abbrev or_next : Result (Option String) → Result (Option String) → Result (Option String)
  or_next (ok none) next = next
  or_next first next = first

  unfoldable pub rs_reason : List Instrument → List Bar → Bar → Bar → Result (Option String)
  rs_reason instruments grouped stock_open candidate =
      or_next (benchmark_reason grouped stock_open candidate "SPY" (identities "SPY" instruments))
        (benchmark_reason grouped stock_open candidate "QQQ" (identities "QQQ" instruments))
