-- ===== src/Strategy/SessionTests.antt =====
-- A session of one stock: twenty earlier days of one minute each, an opening range of five minutes,
-- and a breakout.
use bot_trading.Prelude.{
  ℕ, zero, suc, ◌+◌, ◌*◌, ◌/◌, ◌≡◌, refl, true, false, none, List, [], ◌∷◌, ◌++◌, map, String,
}
use bot_trading.Prelude.Members.{All}
use bot_trading.Decimal.Fixed.{fixed, milli}
use bot_trading.Risk.Types.{at_second}
use bot_trading.Exec.{ok}
use bot_trading.Domain.{
  Instrument, AssetClass, Bar, DataManifest, VolumeKind, AvailabilityKind, Adjustments,
}
use bot_trading.Market.{Calendar, Session, session, sessions, minutes, DataBundle}
use bot_trading.Strategy.Opening.{opening_metrics}
use bot_trading.Strategy.Config.{StrategyConfig, StrategyVersion}
use bot_trading.Strategy.Screen.{
  Candidate, group, universe_reason, daily_bars, liquidity, judge_metrics, judge_opening,
  judge_history, judge_warmup, screen,
}
use bot_trading.Strategy.Session.{
  SessionDecision, screen_all, select_ranked, select_candidates, breaks_out, signal_of,
  judge_breakout, scan, search_signal, signal_all, process_session,
}
use bot_trading.Strategy.PointInTime.{process_session_point_in_time}
use bot_trading.Strategy.Signals.{IsSourced, process_session-IsSourced}

abbrev days : ℕ → ℕ → List ℕ
days from zero = []
days from (suc n) = from ∷ days (from + 1) n

abbrev pub calendar : Calendar
calendar = record {
  day_of = λ t. t.micros / 86_400_000_000;
  is_session = λ d. true;
  open_of = λ d. at_second (d * 86_400 + 600);
  close_of = λ d. at_second (d * 86_400 + 660);
  sessions_in_range = λ a b. days 80 20;
}

abbrev pub stock : Instrument
stock = record {
  symbol = "AAPL";
  exchange = "XNAS";
  currency = "USD";
  asset_class = AssetClass.common_stock;
  stable_id = none;
  broker_id = none;
}

abbrev pub minute : ℕ → ℕ → ℕ → ℕ → Bar ⦃dec = fixed⦄
minute day n from to = record {
  instrument = stock;
  event_time = at_second (day * 86_400 + 600 + n * 60);
  received_at = at_second (day * 86_400 + 660 + n * 60);
  available_at = at_second (day * 86_400 + 661 + n * 60);
  open_price = milli from;
  high = milli (to + 500);
  low = milli from;
  close = milli to;
  volume = milli 1_000_000_000;
  source = "fixture";
  final = true;
  revision = 0;
}

abbrev pub today : List (Bar ⦃dec = fixed⦄)
today =
    minute 100 0 100_000 100_500
    ∷ minute 100 1 100_500 100_800
    ∷ minute 100 2 99_800 100_100
    ∷ minute 100 3 100_100 101_200
    ∷ minute 100 4 101_200 101_300
    ∷ []

abbrev pub breakout : Bar ⦃dec = fixed⦄
breakout = minute 100 5 101_500 102_000

abbrev pub manifest : DataManifest
manifest = record {
  is_synthetic = true;
  volume_kind = VolumeKind.synthetic_shares;
  adjustments = Adjustments.unadjusted;
  coverage_start = at_second 0;
  coverage_end = at_second 9_000_000;
  availability_kind = AvailabilityKind.synthetic;
  acquired_at = none;
}

abbrev pub config : StrategyConfig ⦃dec = fixed⦄
config = record {
  version = StrategyVersion.orb_rvol_v0;
  min_previous_close = milli 10_000;
  min_average_dollar_volume = milli 50_000_000_000;
  min_rvol = milli 2000;
  max_selected = 10;
  entry_window_minutes = 60;
  selection_wait_seconds = 2;
  signal_ttl_seconds = 10;
  relative_strength_enabled = false;
}

abbrev pub warmups : List (Bar ⦃dec = fixed⦄)
warmups = map (λ (d : ℕ). minute d 0 100_000 100_000) (days 80 20)

abbrev pub data_of : List (Bar ⦃dec = fixed⦄) → DataBundle ⦃dec = fixed⦄
data_of later = record {
  instruments = stock ∷ [];
  bars = warmups ++ today ++ later;
  manifest = manifest;
  evaluation_sessions = 100 ∷ [];
}

abbrev pub name_of : String → ℕ → String → String
name_of version day symbol = symbol

abbrev pub market : Session
market = record { day = 100; open_at = at_second 8_640_600; close_at = at_second 8_640_660 }

abbrev pub chosen : Candidate ⦃dec = fixed⦄
chosen = record {
  instrument = stock;
  rank = 1;
  rvol = milli 5000;
  average_dollar_volume = milli 100_000_000_000;
  or_high = milli 101_800;
  or_low = milli 99_800;
  or_open = milli 100_000;
  or_close = milli 101_300;
  opening_volume = milli 5_000_000_000;
  historical_opening_volume = milli 1_000_000_000;
}

abbrev decided : SessionDecision ⦃dec = fixed⦄
decided = record {
  session_date = 100;
  selection_at = at_second 8_640_902;
  evaluable_symbols = "AAPL" ∷ [];
  selection = chosen ∷ [];
  signals = signal_of calendar name_of config market chosen breakout ∷ [];
  rejections = [];
}

decided_session : process_session calendar name_of config (data_of (breakout ∷ [])) 100 ≡ ok decided
unfolding process_session session sessions minutes group select_candidates screen_all screen
    universe_reason daily_bars judge_warmup judge_history judge_opening judge_metrics liquidity
    opening_metrics select_ranked signal_all search_signal scan breaks_out judge_breakout signal_of
decided_session = refl

process_session-IsSourced_example :
    All
      (IsSourced calendar name_of config (data_of (breakout ∷ [])).bars (chosen ∷ []) market)
      (signal_of calendar name_of config market chosen breakout ∷ [])
unfolding session
process_session-IsSourced_example =
    process_session-IsSourced calendar name_of config (data_of (breakout ∷ [])) 100 market
      {d = decided} refl decided_session

-- The same session with no breakout yet.
abbrev undecided : SessionDecision ⦃dec = fixed⦄
undecided = record decided { signals = [] }

undecided_session : process_session calendar name_of config (data_of []) 100 ≡ ok undecided
unfolding process_session session sessions minutes group select_candidates screen_all screen
    universe_reason daily_bars judge_warmup judge_history judge_opening judge_metrics liquidity
    opening_metrics select_ranked signal_all search_signal scan breaks_out judge_breakout signal_of
undecided_session = refl

process_session_point_in_time_example :
    (chosen ∷ [] ≡ chosen ∷ []) × ("AAPL" ∷ [] ≡ decided.evaluable_symbols)
unfolding session
process_session_point_in_time_example =
    process_session_point_in_time calendar name_of config (data_of (breakout ∷ [])) (data_of []) 100
      market {d = decided} {d' = undecided} refl refl refl refl decided_session undecided_session
