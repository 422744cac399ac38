-- ===== src/Strategy/Screen.antt =====
-- The first half of `ORBStrategy.process_session` of strategies/orb.py: the first final arrivals,
-- and what becomes of one instrument.
use bot_trading.Prelude.{
  ℕ, ◌+◌, ◌*◌, ◌==◌, String, Bool, true, false, not, ◌&&◌, ◌||◌, Option, none, some, List, [], ◌∷◌,
  map, any, length, select, str_eq, ltb, zero, suc, if◌then◌else◌,
}
use bot_trading.Prelude.Sorting.{sort_by}
use bot_trading.Decimal.{Decimals, Decimal, ◌*D◌, ◌/D◌, ◌≤D◌, ◌<D◌, zero_D, of_ℕ}
use bot_trading.Risk.Types.{Stamp}
use bot_trading.Exec.{other_error, Result, ok}
use bot_trading.Exec.Results.{◌>>=◌, or_raise}
use bot_trading.Domain.{
  AssetClass, asset_eq, Instrument, earlier, after_seconds, Bar, DataManifest, VolumeKind,
  AvailabilityKind, Adjustments,
}
use bot_trading.Market.{Calendar, Session, session, minutes}
use bot_trading.Store.Portfolio.{sum_D}
use bot_trading.Strategy.Opening.{OpeningMetrics, volume, opening_metrics}
use bot_trading.Strategy.Config.{StrategyConfig, is_base}

module _ ⦃dec : Decimals⦄ where
  pub record Candidate : Type 0 where
    pub instrument : Instrument
    pub rank : ℕ
    pub rvol : Decimal
    pub average_dollar_volume : Decimal
    pub or_high : Decimal
    pub or_low : Decimal
    pub or_open : Decimal
    pub or_close : Decimal
    pub opening_volume : Decimal
    pub historical_opening_volume : Decimal

  -- What becomes of an instrument: refused, evaluated with too little volume, or a candidate.
  pub data Verdict : Type 0 where
    refused : String → Verdict
    quiet : Verdict
    fit : Candidate → Verdict

  abbrev pub arrives_before : Bar → Bar → Bool
  arrives_before a b =
      earlier a.available_at b.available_at
      || (a.available_at.micros == b.available_at.micros && ltb a.revision b.revision)

  -- `grouped`, as one list: the final first versions in the order of their arrival. The dictionary
  -- keeps the first bar of a key, so a key is looked up by the first row.
  unfoldable pub group : List Bar → List Bar
  group bars = select (λ (b : Bar). b.final && b.revision == 0) (sort_by arrives_before bars)

  abbrev pub is_timely : Stamp → Bar → Bool
  is_timely cutoff b = not (earlier cutoff b.available_at)

  -- A reading of the bars: of a symbol, a day and a minute.
  abbrev pub Reading : Type 0
  Reading = String → ℕ → Stamp → Option Bar

  -- The minutes of a window, from its opening on.
  abbrev pub stamps : Stamp → ℕ → ℕ → List Stamp
  stamps start i zero = []
  stamps start i (suc n) = after_seconds start (i * 60) ∷ stamps start (i + 1) n

  abbrev also : Option Bar → Option (List Bar) → Option (List Bar)
  also (some b) (some bars) = some (b ∷ bars)
  also _ _ = none

  -- The bars of all the minutes, or none.
  abbrev pub collect : (Stamp → Option Bar) → List Stamp → Option (List Bar)
  collect look [] = some []
  collect look (t ∷ ts) = also (look t) (collect look ts)

  abbrev take_five : List Bar → List Bar
  take_five (a ∷ b ∷ c ∷ d ∷ e ∷ _) = a ∷ b ∷ c ∷ d ∷ e ∷ []
  take_five bars = bars

  abbrev pub last_bar : List Bar → Option Bar
  last_bar [] = none
  last_bar (b ∷ []) = some b
  last_bar (b ∷ c ∷ bars) = last_bar (c ∷ bars)

  abbrev last_day : List (List Bar) → List Bar
  last_day [] = []
  last_day (d ∷ []) = d
  last_day (d ∷ e ∷ days) = last_day (e ∷ days)

  abbrev add_day : Option (List Bar) → List (List Bar) → List (List Bar)
  add_day none days = days
  add_day (some d) days = d ∷ days

  abbrev traded : List Bar → Decimal
  traded bars = sum_D (map (λ (b : Bar). b.close *D b.volume) bars)

  unfoldable pub liquidity : List (List Bar) → Decimal
  liquidity daily = sum_D (map traded daily) /D of_ℕ 20

  abbrev usable_volume : VolumeKind → Bool
  usable_volume VolumeKind.synthetic_shares = true
  usable_volume VolumeKind.consolidated_shares = true
  usable_volume _ = false

  abbrev is_observed : AvailabilityKind → Bool
  is_observed AvailabilityKind.observed = true
  is_observed _ = false

  abbrev unknown_adjustments : Adjustments → Bool
  unknown_adjustments Adjustments.unknown = true
  unknown_adjustments _ = false

  -- Why an instrument is out before its bars are read.
  unfoldable pub universe_reason : DataManifest → Instrument → Option String
  universe_reason m i =
      if not m.is_synthetic && not (is_observed m.availability_kind)
      then some "OBSERVED_AVAILABILITY_REQUIRED"
      else (if not (asset_eq i.asset_class AssetClass.common_stock)
            || not (str_eq i.currency "USD")
            || not (str_eq i.exchange "XNYS" || str_eq i.exchange "XNAS")
            || str_eq i.symbol "SPY"
            || str_eq i.symbol "QQQ"
          then some "UNIVERSE_INELIGIBLE"
          else (if not (usable_volume m.volume_kind) || unknown_adjustments m.adjustments
              then some "VOLUME_OR_ADJUSTMENTS_UNVERIFIED"
              else none))

module _ ⦃dec : Decimals⦄ (calendar : Calendar) (config : StrategyConfig) where
  -- The earlier days with every minute of their session.
  unfoldable pub daily_bars : Reading → String → List ℕ → Result (List (List Bar))
  daily_bars look symbol [] = ok []
  daily_bars look symbol (day ∷ days) = do
    market ← session calendar day
    rest ← daily_bars look symbol days
    ok (add_day (collect (look symbol day) (stamps market.open_at 0 (minutes market))) rest)

  abbrev candidate_of : Instrument → Decimal → OpeningMetrics → Bar → Bar → Candidate
  candidate_of i liquid m first last = record {
    instrument = i;
    rank = 1;
    rvol = m.rvol;
    average_dollar_volume = liquid;
    or_high = m.or_high;
    or_low = m.or_low;
    or_open = first.open_price;
    or_close = last.close;
    opening_volume = m.opening_volume;
    historical_opening_volume = m.historical_opening_volume;
  }

  unfoldable pub judge_metrics :
      Instrument → Decimal → Bar → List Bar → OpeningMetrics → Result Verdict
  judge_metrics i liquid first opening m =
      if not (is_base config.version) && m.rvol <D config.min_rvol then ok quiet else (do
        last ← or_raise other_error (last_bar opening)
        ok (fit (candidate_of i liquid m first last)))

  unfoldable pub judge_opening :
      Instrument → Decimal → List Decimal → Option (List Bar) → Result Verdict
  judge_opening i liquid means none = ok (refused "OPENING_RANGE_MISSING_OR_LATE")
  judge_opening i liquid means (some []) = ok (refused "INVALID_OPENING_VOLUME")
  judge_opening i liquid means (some (first ∷ rest)) =
      if volume (first ∷ rest) ≤D zero_D then ok (refused "INVALID_OPENING_VOLUME") else (do
        m ← opening_metrics calendar (first ∷ rest) means
        judge_metrics i liquid first (first ∷ rest) m)

  abbrev opening_means : List (List Bar) → List Decimal
  opening_means = map (λ (bars : List Bar). volume (take_five bars))

  unfoldable pub judge_history :
      Reading → Session → Instrument → List (List Bar) → Decimal → Result Verdict
  judge_history look market i daily last_close =
      if last_close ≤D config.min_previous_close
      then ok (refused "PREVIOUS_CLOSE_TOO_LOW")
      else (if liquidity daily ≤D config.min_average_dollar_volume
          then ok (refused "DOLLAR_LIQUIDITY_TOO_LOW")
          else (if any (λ v. v ≤D zero_D) (opening_means daily)
              then ok (refused "INVALID_HISTORICAL_OPENING_VOLUME")
              else judge_opening i (liquidity daily) (opening_means daily)
                  (collect (look i.symbol market.day) (stamps market.open_at 0 5))))

  unfoldable pub judge_warmup : Reading → Session → Instrument → List (List Bar) → Result Verdict
  judge_warmup look market i daily =
      if not (length daily == 20) then ok (refused "INSUFFICIENT_VALID_WARMUP_20") else (do
        last ← or_raise other_error (last_bar (last_day daily))
        judge_history look market i daily last.close)

  abbrev screen_by : Option String → Reading → Session → List ℕ → Instrument → Result Verdict
  screen_by (some reason) look market previous i = ok (refused reason)
  screen_by none look market previous i = do
    daily ← daily_bars look i.symbol previous
    judge_warmup look market i daily

  -- One round of the loop over the instruments.
  unfoldable pub screen : DataManifest → Reading → Session → List ℕ → Instrument → Result Verdict
  screen manifest look market previous i =
      screen_by (universe_reason manifest i) look market previous i
