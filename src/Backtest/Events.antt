-- ===== src/Backtest/Events.antt =====
-- The events of a session and their order, of `run_backtest` of backtesting/engine.py.
use bot_trading.Prelude.{
  ℕ, ◌==◌, String, Bool, true, not, ◌&&◌, ◌||◌, Option, none, some, List, [], ◌∷◌, ◌++◌, map, any,
  select, str_eq, ltb, if◌then◌else◌,
}
use bot_trading.Prelude.Sorting.{sort_by}
use bot_trading.Decimal.{Decimals}
use bot_trading.Risk.Types.{Stamp}
use bot_trading.Exec.{Result, ok}
use bot_trading.Exec.Results.{◌>>=◌}
use bot_trading.Domain.{earlier, after_millis, end_time, Bar, Signal}
use bot_trading.Market.{Calendar, Session}
use bot_trading.Store.Tables.{text_before}
use bot_trading.Strategy.Screen.{arrives_before}
use bot_trading.Backtest.{BacktestConfig}
use bot_trading.Backtest.Replay.{Replay, available_at}

-- What an event is about.
module _ ⦃dec : Decimals⦄ where
  pub data Payload : Type 0 where
    bar_open bar_close : Bar → Payload
    signal_sent : Signal → Payload

  pub record Event : Type 0 where
    pub at : Stamp
    pub priority : ℕ
    pub rank : ℕ
    pub symbol : String
    pub payload : Payload

  -- The order of the first four parts: at one instant closes come first, then openings, then
  -- signals by their rank.
  abbrev pub event_before : Event → Event → Bool
  event_before a b =
      earlier a.at b.at
      || (a.at.micros == b.at.micros
          && (ltb a.priority b.priority
              || (a.priority == b.priority
                  && (ltb a.rank b.rank || (a.rank == b.rank && text_before a.symbol b.symbol)))))

  abbrev new_key : List Bar → Bar → Bool
  new_key seen b = not (
      any
        (λ (s : Bar).
          str_eq s.instrument.symbol b.instrument.symbol
          && s.event_time.micros == b.event_time.micros)
        seen)

  -- The first bar of each symbol and minute.
  abbrev pub distinct_bars : List Bar → List Bar → List Bar
  distinct_bars seen [] = []
  distinct_bars seen (b ∷ bars) =
      if new_key seen b then b ∷ distinct_bars (b ∷ seen) bars else distinct_bars seen bars

  -- When a bar is known to have closed: a replay's publication, or its end.
  abbrev pub closed_at : Option Replay → Bar → Result Stamp
  closed_at none b = ok (end_time b)
  closed_at (some r) b = available_at r b

  abbrev is_in_time : Session → Option Replay → Stamp → Bool
  is_in_time market none at = true
  is_in_time market (some r) at = not (earlier market.close_at at)

  abbrev open_event : Bar → Event
  open_event b = record {
    at = b.event_time;
    priority = 1;
    rank = 0;
    symbol = b.instrument.symbol;
    payload = bar_open b;
  }

  abbrev close_event : Stamp → Bar → Event
  close_event at b = record {
    at = at;
    priority = 0;
    rank = 0;
    symbol = b.instrument.symbol;
    payload = bar_close b;
  }

  unfoldable pub bar_events : Session → Option Replay → List Bar → Result (List Event)
  bar_events market replay [] = ok []
  bar_events market replay (b ∷ bars) = do
    at ← closed_at replay b
    later ← bar_events market replay bars
    ok (open_event b ∷ (if is_in_time market replay at then close_event at b ∷ later else later))

  abbrev signal_event : BacktestConfig → Signal → Event
  signal_event config s = record {
    at = after_millis s.available_at config.latency_ms;
    priority = 2;
    rank = s.rank;
    symbol = s.instrument.symbol;
    payload = signal_sent s;
  }

  abbrev bars_of : Calendar → Session → List Bar → List Bar
  bars_of calendar market bars = distinct_bars [] (
      select (λ (b : Bar). calendar.day_of b.event_time == market.day && b.final && b.revision == 0)
        (sort_by arrives_before bars))

  -- The events of a session in their order.
  unfoldable pub session_events :
      BacktestConfig
      → Calendar
      → Session
      → Option Replay
      → List Bar
      → List Signal
      → Result (List Event)
  session_events config calendar market replay bars signals = do
    found ← bar_events market replay (bars_of calendar market bars)
    ok (sort_by event_before (found ++ map (signal_event config) signals))
