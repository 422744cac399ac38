-- ===== src/Backtest/Run.antt =====
-- The sessions of `run_backtest` of backtesting/engine.py: its guards, its decisions, its loop over
-- the events and the end of a session. The digests, the metrics and the bootstrap are left out.
use bot_trading.Prelude.{
  ℕ, String, Bool, true, false, not, Option, none, some, List, [], ◌∷◌, ◌++◌, map, length,
}
use bot_trading.Prelude.Sorting.{sort_by}
use bot_trading.Decimal.{Decimals, Decimal, ◌+D◌, ◌=D◌}
use bot_trading.Risk.Types.{Stamp, RiskEngine, InstrumentRules}
use bot_trading.Exec.{
  value_error, Result, ok, err, Exec, pure, gets, lift, modify, raise_if, for_each, ◌>>=◌, ◌>>◌,
}
use bot_trading.Domain.{Bar}
use bot_trading.Market.{Calendar, Session, session, DataBundle}
use bot_trading.Store.Tables.{text_before}
use bot_trading.Strategy.Config.{StrategyConfig}
use bot_trading.Strategy.Session.{SessionDecision, process_session}
use bot_trading.Backtest.{BacktestConfig, PendingItem, PositionItem, Books}
use bot_trading.Backtest.Orders.{marked, realized, reject_entry, report}
use bot_trading.Backtest.Events.{session_events}
use bot_trading.Backtest.Handlers.{on_event}
use bot_trading.Backtest.Replay.{Replay}
use bot_trading.Backtest.Replay.Views.{replay_session}

module _ ⦃dec : Decimals⦄ where
  -- What still waits at the end of a session is rejected.
  abbrev pub reject_unfilled : Stamp → List PendingItem → Books → Books
  reject_unfilled at [] b = b
  reject_unfilled at (i ∷ items) b =
      reject_unfilled at items
        (reject_entry i.symbol at "UNFILLED_NO_EXECUTABLE_BAR" (some i.order.signal.signal_id) b)

  abbrev pub report_exposure : Stamp → List PositionItem → Books → Books
  report_exposure at [] b = b
  report_exposure at (i ∷ items) b =
      report (sort_by text_before (map (λ (p : PositionItem). p.symbol) (i ∷ items))) at
        "UNRESOLVED_EXPOSURE_NO_EXIT_BAR" none b

  abbrev mark_equity : ℕ → Books → Books
  mark_equity day b = record b {
    equity_curve =
        b.equity_curve
        ++ record {
          session_date = day;
          equity = b.cash +D marked b;
          cash = b.cash;
          open_positions = length b.positions;
        }
          ∷ [];
  }

  -- After the last event of a session.
  unfoldable pub end_session : Session → Books → Books
  end_session market b =
      let emptied = record (reject_unfilled market.close_at b.pending b) { pending = [] } in
      mark_equity market.day (report_exposure market.close_at emptied.positions emptied)

module _ ⦃dec : Decimals⦄ (config : BacktestConfig) (engine : RiskEngine)
    (strategy : StrategyConfig) (default_rules : InstrumentRules) (day_text : ℕ → String)
    (calendar : Calendar) where
  unfoldable pub run_session :
      Option Replay → List Bar → SessionDecision → ℕ → Exec Books (Unit {0})
  run_session replay bars decision day = do
    market ← lift (session calendar day)
    reference ← gets (λ (b : Books). b.cash +D marked b)
    realized_start ← gets realized
    events ← lift (session_events config calendar market replay bars decision.signals)
    for_each events (
        on_event config engine strategy default_rules day_text calendar market reference
          realized_start)
    modify (end_session market)

  abbrev pub run_pair : Option Replay → List Bar → ℕ × SessionDecision → Exec Books (Unit {0})
  run_pair replay bars (day, decision) = run_session replay bars decision day

module _ ⦃dec : Decimals⦄ (calendar : Calendar) (signal_id : String → ℕ → String → String)
    (strategy : StrategyConfig) where
  unfoldable pub decide_all : DataBundle → List ℕ → Result (List (ℕ × SessionDecision))
  decide_all bundle [] = ok []
  decide_all bundle (day ∷ days) = elim (process_session calendar signal_id strategy bundle day) [
    | err e ↦ err e
    | ok d ↦ elim (decide_all bundle days) [ err e ↦ err e | ok rest ↦ ok ((day, d) ∷ rest) ]
  ]

  unfoldable pub replay_all : List ℕ → Exec Replay (List (ℕ × SessionDecision))
  replay_all [] = pure []
  replay_all (day ∷ days) = do
    d ← replay_session calendar signal_id strategy day
    rest ← replay_all days
    pure ((day, d) ∷ rest)

  abbrev pub decisions_of :
      DataBundle → Option Replay → Result (List (ℕ × SessionDecision)) × Option Replay
  decisions_of bundle none = (decide_all bundle bundle.evaluation_sessions, none)
  decisions_of bundle (some r) =
      let (decided, later) = replay_all bundle.evaluation_sessions r in (decided, some later)

module _ ⦃dec : Decimals⦄ where
  abbrev pub opening_books : Decimal → Books
  opening_books capital = record {
    cash = capital;
    pending = [];
    positions = [];
    seen_intents = [];
    trades = [];
    rejects = [];
    incidents = [];
    equity_curve = [];
  }

  abbrev is_empty : List ℕ → Bool
  is_empty [] = true
  is_empty (d ∷ days) = false

  -- What is refused before the run.
  unfoldable pub guards : BacktestConfig → RiskEngine → DataBundle → Bool → Exec Books (Unit {0})
  guards config engine bundle is_replay_of_bundle = do
    raise_if (not is_replay_of_bundle) (value_error "REPLAY_DATASET_IDENTITY_MISMATCH")
    raise_if (not (config.starting_capital =D engine.config.allocated_capital))
        (value_error "BACKTEST_CAPITAL_MUST_MATCH_RISK_ALLOCATION")
    raise_if (not engine.costs.known) (value_error "RESEARCH_BLOCKED_COSTS_UNKNOWN")
    raise_if (is_empty bundle.evaluation_sessions)
        (value_error "RESEARCH_BLOCKED_DATA: at least 20 warmups and one evaluation session")

module _ ⦃dec : Decimals⦄ (calendar : Calendar) (signal_id : String → ℕ → String → String)
    (default_rules : InstrumentRules) (day_text : ℕ → String) where
  abbrev pub run_decided :
      BacktestConfig
      → RiskEngine
      → StrategyConfig
      → DataBundle
      → Result (List (ℕ × SessionDecision)) × Option Replay
      → Exec Books (Unit {0})
  run_decided config engine strategy bundle (decided, replay) = do
    pairs ← lift decided
    for_each pairs
        (run_pair config engine strategy default_rules day_text calendar replay bundle.bars)

  unfoldable pub run_checked :
      BacktestConfig
      → RiskEngine
      → StrategyConfig
      → DataBundle
      → Option Replay
      → Bool
      → Exec Books (Unit {0})
  run_checked config engine strategy bundle replay is_replay_of_bundle = do
    guards config engine bundle is_replay_of_bundle
    run_decided config engine strategy bundle
        (decisions_of calendar signal_id strategy bundle replay)

  -- The result and the books at the end. The flag says that a replay is one of this very bundle.
  abbrev pub run_backtest :
      BacktestConfig
      → RiskEngine
      → StrategyConfig
      → DataBundle
      → Option Replay
      → Bool
      → Result (Unit {0}) × Books
  run_backtest config engine strategy bundle replay is_replay_of_bundle =
      run_checked config engine strategy bundle replay is_replay_of_bundle
        (opening_books config.starting_capital)
