-- ===== src/Strategy/Opening.antt =====
-- `ORBStrategy.opening_metrics` of strategies/orb.py and `session_vwap` of strategies/features.py.
use bot_trading.Prelude.{
  ℕ, ◌+◌, ◌*◌, ◌==◌, Bool, true, false, not, ◌&&◌, ◌||◌, List, [], ◌∷◌, any, all, length, map,
  if◌then◌else◌,
}
use bot_trading.Decimal.{Decimals, Decimal, ◌+D◌, ◌*D◌, ◌/D◌, ◌≤D◌, zero_D, of_ℕ, min_D, max_D}
use bot_trading.Exec.{value_error, Result, ok, err}
use bot_trading.Domain.{instrument_eq, after_seconds, Bar}
use bot_trading.Store.Portfolio.{sum_D}
use bot_trading.Market.{Calendar}

module _ ⦃dec : Decimals⦄ where
  pub record OpeningMetrics : Type 0 where
    pub or_high : Decimal
    pub or_low : Decimal
    pub opening_volume : Decimal
    pub historical_opening_volume : Decimal
    pub rvol : Decimal

  -- `max(...)` and `min(...)` of a list that begins with the first argument.
  abbrev pub greatest : Decimal → List Decimal → Decimal
  greatest m [] = m
  greatest m (x ∷ xs) = greatest (max_D m x) xs

  abbrev pub least : Decimal → List Decimal → Decimal
  least m [] = m
  least m (x ∷ xs) = least (min_D m x) xs

  abbrev pub volume : List Bar → Decimal
  volume bars = sum_D (map (λ (b : Bar). b.volume) bars)

  abbrev pub metrics_of : Bar → List Bar → List Decimal → OpeningMetrics
  metrics_of first rest previous =
      let average = sum_D previous /D of_ℕ 20 in
      record {
        or_high = greatest first.high (map (λ (b : Bar). b.high) rest);
        or_low = least first.low (map (λ (b : Bar). b.low) rest);
        opening_volume = volume (first ∷ rest);
        historical_opening_volume = average;
        rvol = volume (first ∷ rest) /D average;
      }

module _ ⦃dec : Decimals⦄ (calendar : Calendar) where
  -- The bars are the minutes from the opening on, of one instrument.
  abbrev pub in_window : Bar → ℕ → List Bar → Bool
  in_window first i [] = true
  in_window first i (b ∷ bars) =
      b.event_time.micros
        == (after_seconds (calendar.open_of (calendar.day_of first.event_time)) (i * 60)).micros
      && instrument_eq b.instrument first.instrument
      && in_window first (i + 1) bars

  unfoldable pub opening_metrics : List Bar → List Decimal → Result OpeningMetrics
  opening_metrics [] previous =
      err (value_error "OPENING_METRICS_REQUIRE_FIVE_MINUTES_AND_TWENTY_SESSIONS")
  opening_metrics (first ∷ rest) previous =
      if not (length (first ∷ rest) == 5) || not (length previous == 20)
      then err (value_error "OPENING_METRICS_REQUIRE_FIVE_MINUTES_AND_TWENTY_SESSIONS")
      else (if not (calendar.is_session (calendar.day_of first.event_time))
          then err (value_error "NOT_TRADING_SESSION")
          else (if not (in_window first 0 (first ∷ rest))
              then err (value_error "OPENING_METRICS_INVALID_WINDOW")
              else (if any (λ v. not (dec.is_finite v) || v ≤D zero_D) previous
                  then err (value_error "INVALID_HISTORICAL_OPENING_VOLUME")
                  else (if volume (first ∷ rest) ≤D zero_D
                      then err (value_error "INVALID_OPENING_VOLUME")
                      else ok (metrics_of first rest previous)))))

  -- The bars of one session: there is exactly one day among them.
  abbrev same_day : List Bar → Bool
  same_day [] = false
  same_day (first ∷ rest) =
      all (λ (b : Bar). calendar.day_of b.event_time == calendar.day_of first.event_time) rest

  abbrev typical : Bar → Decimal
  typical b = (b.high +D b.low +D b.close) /D of_ℕ 3

  unfoldable pub session_vwap : List Bar → Bool → Result Decimal
  session_vwap bars volume_verified =
      if not volume_verified || elim bars [ [] ↦ true | _ ∷ _ ↦ false ]
      then err (value_error "verified share volume and complete bars required")
      else (if not (same_day bars) || not (all (λ (b : Bar). b.final) bars)
          then err (value_error "VWAP must reset each session and use complete bars")
          else (if volume bars ≤D zero_D
              then err (value_error "positive volume required")
              else ok (sum_D (map (λ (b : Bar). typical b *D b.volume) bars) /D volume bars)))
