-- ===== src/Strategy/Laws.antt =====
-- What a passed test of relative strength and a computed opening range stand for.
use bot_trading.Prelude.{
  String, ◌≡◌, refl, true, Option, none, some, List, [], ◌∷◌, all, length, map, arith,
}
use bot_trading.Decimal.{Decimals, Decimal, ◌-D◌, ◌/D◌, ◌≤D◌, ◌<D◌, zero_D, min_D, max_D}
use bot_trading.Decimal.Laws.{
  IsOrdered, min_D-le_left, min_D-le_right, le-max_D_left, le-max_D_right,
}
use bot_trading.Exec.{ok}
use bot_trading.Domain.{AssetClass, asset_eq, Instrument, Bar}
use bot_trading.Market.{Calendar}
use bot_trading.Strategy.{
  bar_at, usable, relative_strength, compare_bars, identities, benchmark_reason, rs_reason,
}
use bot_trading.Strategy.Opening.{OpeningMetrics, greatest, least, opening_metrics}

module _ ⦃dec : Decimals⦄ (calendar : Calendar) where
  -- The stock gained more since the opening than the benchmark did, on bars that were known.
  pub record IsStronger (grouped : List Bar) (stock_open candidate : Bar) (symbol : String)
      (found : List Instrument) : Type 0 where
    pub identity : Instrument
    pub opening : Bar
    pub current : Bar
    pub only : found ≡ identity ∷ []
    pub is_etf : asset_eq identity.asset_class AssetClass.etf ≡ true
    pub opening_found :
        bar_at calendar symbol
          (calendar.day_of candidate.event_time)
          (calendar.open_of (calendar.day_of candidate.event_time))
          grouped
        ≡ some opening
    pub current_found :
        bar_at calendar symbol (calendar.day_of candidate.event_time) candidate.event_time grouped
        ≡ some current
    pub opening_usable : usable calendar identity candidate opening ≡ true
    pub current_usable : usable calendar identity candidate current ≡ true
    pub stronger :
        (zero_D
          <D (candidate.close /D stock_open.open_price -D current.close /D opening.open_price))
        ≡ true

  compare_bars-none :
      (identity : Instrument) (stock_open candidate opening current : Bar)
      → compare_bars calendar identity stock_open candidate (some opening) (some current) ≡ ok none
      → (usable calendar identity candidate opening ≡ true)
        × (usable calendar identity candidate current ≡ true)
        × ((zero_D
              <D (candidate.close /D stock_open.open_price -D current.close /D opening.open_price))
            ≡ true)
  unfolding compare_bars relative_strength
  compare_bars-none identity stock_open candidate opening current h = ground arith

  compare_bars_found :
      (identity : Instrument) (stock_open candidate : Bar) (o c : Option Bar)
      → compare_bars calendar identity stock_open candidate o c ≡ ok none
      → (opening : Bar) × (current : Bar) × (o ≡ some opening) × (c ≡ some current)
  unfolding compare_bars
  compare_bars_found identity stock_open candidate (some o) (some c) h = (o, c, refl, refl)
  compare_bars_found identity stock_open candidate none c h = ground arith
  compare_bars_found identity stock_open candidate (some o) none h = ground arith

  benchmark-IsStronger :
      (grouped : List Bar) (stock_open candidate : Bar) (symbol : String) (found : List Instrument)
      → benchmark_reason calendar grouped stock_open candidate symbol found ≡ ok none
      → IsStronger grouped stock_open candidate symbol found
  unfolding benchmark_reason
  benchmark-IsStronger grouped stock_open candidate symbol [] h = ground arith
  benchmark-IsStronger grouped stock_open candidate symbol (i ∷ j ∷ more) h = ground arith
  benchmark-IsStronger grouped stock_open candidate symbol (identity ∷ []) h =
      let day = calendar.day_of candidate.event_time in
      let o = bar_at calendar symbol day (calendar.open_of day) grouped in
      let c = bar_at calendar symbol day candidate.event_time grouped in
      let compared : compare_bars calendar identity stock_open candidate o c ≡ ok none =
        ground arith in
      let (opening, current, eo, ec) =
        compare_bars_found identity stock_open candidate o c compared in
      let (opened, now_usable, gained) =
        compare_bars-none identity stock_open candidate opening current (ground arith) in
      record {
        identity = identity;
        opening = opening;
        current = current;
        only = refl;
        is_etf = ground arith;
        opening_found = eo;
        current_found = ec;
        opening_usable = opened;
        current_usable = now_usable;
        stronger = gained;
      }

  -- When the test of relative strength gives no reason to reject, each of the two benchmarks has
  -- one identity, an ETF, its bars at the opening and at the candidate's time are there and usable, and
  -- the stock's gain since the opening is greater than the benchmark's.
  pub rs_reason-none :
      (instruments : List Instrument) (grouped : List Bar) (stock_open candidate : Bar)
      → rs_reason calendar instruments grouped stock_open candidate ≡ ok none
      → IsStronger grouped stock_open candidate "SPY" (identities calendar "SPY" instruments)
        × IsStronger grouped stock_open candidate "QQQ" (identities calendar "QQQ" instruments)
  unfolding rs_reason
  rs_reason-none instruments grouped stock_open candidate h = (
    benchmark-IsStronger grouped stock_open candidate "SPY" _ (ground arith),
    benchmark-IsStronger grouped stock_open candidate "QQQ" _ (ground arith),
  )

module _ ⦃dec : Decimals⦄ (ord : IsOrdered dec) where
  le-greatest : (m : Decimal) (xs : List Decimal) → (m ≤D greatest m xs) ≡ true
  le-greatest m [] = ord.le_refl m
  le-greatest m (x ∷ xs) = ord.le_trans _ _ _ (le-max_D_left ord m x) (le-greatest (max_D m x) xs)

  least-le : (m : Decimal) (xs : List Decimal) → (least m xs ≤D m) ≡ true
  least-le m [] = ord.le_refl m
  least-le m (x ∷ xs) = ord.le_trans _ _ _ (least-le (min_D m x) xs) (min_D-le_left ord m x)

  highs_below :
      (m : Decimal) (bars : List Bar)
      → all (λ (b : Bar). b.high ≤D greatest m (map (λ (b : Bar). b.high) bars)) bars ≡ true
  highs_below m [] = refl
  highs_below m (b ∷ bars) =
      let rest = map (λ (b : Bar). b.high) bars in
      let top = greatest (max_D m b.high) rest in
      ground (
        arith,
        highs_below (max_D m b.high) bars,
        ord.le_trans b.high (max_D m b.high) top (le-max_D_right ord m b.high)
            (le-greatest (max_D m b.high) rest),
      )

  lows_above :
      (m : Decimal) (bars : List Bar)
      → all (λ (b : Bar). least m (map (λ (b : Bar). b.low) bars) ≤D b.low) bars ≡ true
  lows_above m [] = refl
  lows_above m (b ∷ bars) =
      let rest = map (λ (b : Bar). b.low) bars in
      let bottom = least (min_D m b.low) rest in
      ground (
        arith,
        lows_above (min_D m b.low) bars,
        ord.le_trans bottom (min_D m b.low) b.low (least-le (min_D m b.low) rest)
            (min_D-le_right ord m b.low),
      )

  -- Opening metrics that are computed come from five bars and twenty earlier sessions, their range
  -- holds the high and the low of every bar, and the opening volume is positive.
  pub opening_metrics_range :
      (calendar : Calendar) (bars : List Bar) (previous : List Decimal) {m : OpeningMetrics}
      → opening_metrics calendar bars previous ≡ ok m
      → (length bars ≡ 5)
        × (length previous ≡ 20)
        × (all (λ (b : Bar). b.high ≤D m.or_high) bars ≡ true)
        × (all (λ (b : Bar). m.or_low ≤D b.low) bars ≡ true)
        × ((zero_D <D m.opening_volume) ≡ true)
  unfolding opening_metrics
  opening_metrics_range calendar [] previous h = ground arith
  opening_metrics_range calendar (first ∷ rest) previous h = ground (
    arith,
    highs_below first.high rest,
    lows_above first.low rest,
    le-greatest first.high (map (λ (b : Bar). b.high) rest),
    least-le first.low (map (λ (b : Bar). b.low) rest),
  )
