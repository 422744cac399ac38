-- ===== src/Strategy/Tests.antt =====
-- The strategy's tests at a concrete opening: the stock gains two parts in a hundred, each benchmark
-- one.
use bot_trading.Prelude.{ℕ, ◌+◌, ◌*◌, ◌≡◌, refl, true, none, List, [], ◌∷◌, String, all, length}
use bot_trading.Decimal.{Decimal, ◌≤D◌, ◌<D◌, zero_D}
use bot_trading.Decimal.Fixed.{fixed, fixed-IsOrdered, milli}
use bot_trading.Risk.Types.{at_second}
use bot_trading.Domain.{AssetClass, Instrument, Bar}
use bot_trading.Market.{Calendar}
use bot_trading.Strategy.{
  usable, relative_strength, compare_bars, identities, benchmark_reason, rs_reason,
}
use bot_trading.Strategy.Opening.{OpeningMetrics, metrics_of, opening_metrics}
use bot_trading.Strategy.Laws.{IsStronger, rs_reason-none, opening_metrics_range}

-- One day, which opens at 600 seconds.
abbrev calendar : Calendar
calendar = record {
  day_of = λ t. 0;
  is_session = λ d. true;
  open_of = λ d. at_second 600;
  close_of = λ d. at_second 24_000;
  sessions_in_range = λ a b. [];
}

abbrev listed : String → AssetClass → Instrument
listed symbol class = record {
  symbol = symbol;
  exchange = "XNYS";
  currency = "USD";
  asset_class = class;
  stable_id = none;
  broker_id = none;
}

abbrev minute : Instrument → ℕ → ℕ → ℕ → Bar ⦃dec = fixed⦄
minute i n from to = record {
  instrument = i;
  event_time = at_second (600 + n * 60);
  received_at = at_second (660 + n * 60);
  available_at = at_second (661 + n * 60);
  open_price = milli from;
  high = milli (to + 500);
  low = milli from;
  close = milli to;
  volume = milli 1_000_000;
  source = "fixture";
  final = true;
  revision = 0;
}

abbrev stock : Instrument
stock = listed "AAPL" AssetClass.common_stock

abbrev spy : Instrument
spy = listed "SPY" AssetClass.etf

abbrev qqq : Instrument
qqq = listed "QQQ" AssetClass.etf

abbrev arrivals : List (Bar ⦃dec = fixed⦄)
arrivals =
    minute spy 0 100_000 100_500
    ∷ minute spy 5 100_900 101_000
    ∷ minute qqq 0 100_000 100_500
    ∷ minute qqq 5 100_900 101_000
    ∷ []

abbrev first : Bar ⦃dec = fixed⦄
first = minute stock 0 100_000 100_500

abbrev breakout : Bar ⦃dec = fixed⦄
breakout = minute stock 5 101_000 102_000

rs_reason-none_example :
    IsStronger calendar arrivals first breakout "SPY"
      (identities calendar "SPY" (stock ∷ spy ∷ qqq ∷ []))
    × IsStronger calendar arrivals first breakout "QQQ"
        (identities calendar "QQQ" (stock ∷ spy ∷ qqq ∷ []))
unfolding rs_reason benchmark_reason compare_bars usable relative_strength
rs_reason-none_example =
    rs_reason-none calendar (stock ∷ spy ∷ qqq ∷ []) arrivals first breakout refl

abbrev opening : List (Bar ⦃dec = fixed⦄)
opening =
    first
    ∷ minute stock 1 100_500 100_800
    ∷ minute stock 2 99_800 100_100
    ∷ minute stock 3 100_100 101_200
    ∷ minute stock 4 101_200 101_300
    ∷ []

abbrev five : List (Decimal ⦃dec = fixed⦄) → List (Decimal ⦃dec = fixed⦄)
five rest =
    milli 1_000_000 ∷ milli 2_000_000 ∷ milli 3_000_000 ∷ milli 2_000_000 ∷ milli 1_000_000 ∷ rest

abbrev earlier_volumes : List (Decimal ⦃dec = fixed⦄)
earlier_volumes = five (five (five (five [])))

abbrev metrics : OpeningMetrics ⦃dec = fixed⦄
metrics =
    metrics_of first
      (minute stock 1 100_500 100_800
        ∷ minute stock 2 99_800 100_100
        ∷ minute stock 3 100_100 101_200
        ∷ minute stock 4 101_200 101_300
        ∷ [])
      earlier_volumes

opening_metrics_range_example :
    (length opening ≡ 5)
    × (length earlier_volumes ≡ 20)
    × (all (λ (b : Bar ⦃dec = fixed⦄). b.high ≤D metrics.or_high) opening ≡ true)
    × (all (λ (b : Bar ⦃dec = fixed⦄). metrics.or_low ≤D b.low) opening ≡ true)
    × ((zero_D <D metrics.opening_volume) ≡ true)
unfolding opening_metrics
opening_metrics_range_example =
    opening_metrics_range fixed-IsOrdered calendar opening earlier_volumes {m = metrics} refl
