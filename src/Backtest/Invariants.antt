-- ===== src/Backtest/Invariants.antt =====
-- What each event and the end of a session keep, a whole backtest keeps.
use mathlib.Core.Path.{subst, sym}
use bot_trading.Prelude.{ℕ, String, ◌≡◌, Bool, Option, List, arith}
use bot_trading.Decimal.{Decimals, Decimal, ◌+D◌}
use bot_trading.Risk.Types.{Stamp, RiskEngine, InstrumentRules}
use bot_trading.Exec.{Result, lift, modify, for_each, Keeps, Keeps-bind, Keeps-for_each}
use bot_trading.Domain.{Bar, Signal}
use bot_trading.Market.{Calendar, Session, session, DataBundle}
use bot_trading.Strategy.Config.{StrategyConfig}
use bot_trading.Strategy.Session.{SessionDecision}
use bot_trading.Backtest.{BacktestConfig, Books}
use bot_trading.Backtest.Orders.{marked, realized, on_open, on_close}
use bot_trading.Backtest.Events.{Payload, bar_open, bar_close, signal_sent, Event, session_events}
use bot_trading.Backtest.Handlers.{on_signal, handle, on_event}
use bot_trading.Backtest.Replay.{Replay}
use bot_trading.Backtest.Run.{
  end_session, run_session, run_pair, run_decided, guards, run_checked, decisions_of,
}

module _ ⦃dec : Decimals⦄ (config : BacktestConfig) (engine : RiskEngine)
    (strategy : StrategyConfig) (default_rules : InstrumentRules) (day_text : ℕ → String) where
  -- What is kept by the three kinds of events and by the end of a session.
  pub record IsInvariant (P : Books → Type 0) : Type 0 where
    pub opens :
        (calendar : Calendar) (market : Session) (symbol : String) (b : Bar) (at : Stamp)
        → Keeps P (on_open config engine calendar market strategy symbol b at)
    pub closes :
        (symbol : String) (b : Bar) (at : Stamp) → Keeps P (on_close config engine symbol b at)
    pub signals :
        (market : Session) (reference realized_start : Decimal) (symbol : String) (s : Signal)
        (at : Stamp) (b : Books)
        → P b
        → P (
            on_signal config engine strategy default_rules day_text market reference realized_start
              symbol s at b)
    pub ends : (market : Session) (b : Books) → P b → P (end_session market b)

module _ ⦃dec : Decimals⦄ (config : BacktestConfig) (engine : RiskEngine)
    (strategy : StrategyConfig) (default_rules : InstrumentRules) (day_text : ℕ → String)
    (P : Books → Type 0) (kept : IsInvariant config engine strategy default_rules day_text P) where
  handle_keeps :
      (calendar : Calendar) (market : Session) (reference realized_start : Decimal)
      (symbol : String) (at : Stamp) (payload : Payload)
      → Keeps P (
          handle config engine strategy default_rules day_text calendar market reference
            realized_start symbol at payload)
  handle_keeps calendar market reference realized_start symbol at (bar_open b) =
      kept.opens calendar market symbol b at
  handle_keeps calendar market reference realized_start symbol at (bar_close b) =
      kept.closes symbol b at
  handle_keeps calendar market reference realized_start symbol at (signal_sent s) =
      kept.signals market reference realized_start symbol s at

  on_event_keeps :
      (calendar : Calendar) (market : Session) (reference realized_start : Decimal) (e : Event)
      → Keeps P (
          on_event config engine strategy default_rules day_text calendar market reference
            realized_start e)
  unfolding on_event
  on_event_keeps calendar market reference realized_start e =
      handle_keeps calendar market reference realized_start e.symbol e.at e.payload

module _ ⦃dec : Decimals⦄ (calendar : Calendar) (signal_id : String → ℕ → String → String)
    (config : BacktestConfig) (engine : RiskEngine) (strategy : StrategyConfig)
    (default_rules : InstrumentRules) (day_text : ℕ → String) (P : Books → Type 0)
    (kept : IsInvariant config engine strategy default_rules day_text P) where
  run_session_keeps :
      (replay : Option Replay) (bars : List Bar) (decision : SessionDecision) (day : ℕ)
      → Keeps P (
          run_session config engine strategy default_rules day_text calendar replay bars decision
            day)
  unfolding run_session
  run_session_keeps replay bars decision day =
      Keeps-bind P (lift (session calendar day)) _ (λ b h. h)
        (λ market b h.
          Keeps-bind P (lift (session_events config calendar market replay bars decision.signals)) _
            (λ c k. k)
            (λ events.
              Keeps-bind P
                (for_each events (
                  on_event config engine strategy default_rules day_text calendar market
                    (b.cash +D marked b) (realized b)))
                (λ _. modify (end_session market))
                (Keeps-for_each P events
                  (on_event config engine strategy default_rules day_text calendar market
                    (b.cash +D marked b) (realized b))
                  (on_event_keeps config engine strategy default_rules day_text P kept calendar
                    market (b.cash +D marked b) (realized b)))
                (λ _. kept.ends market))
            b h)

  run_pair_keeps :
      (replay : Option Replay) (bars : List Bar) (pair : ℕ × SessionDecision)
      → Keeps P (run_pair config engine strategy default_rules day_text calendar replay bars pair)
  run_pair_keeps replay bars (day, decision) = run_session_keeps replay bars decision day

  run_decided_keeps :
      (bundle : DataBundle) (d : Result (List (ℕ × SessionDecision)) × Option Replay)
      → Keeps P
          (run_decided calendar signal_id default_rules day_text config engine strategy bundle d)
  run_decided_keeps bundle (decided, replay) =
      Keeps-bind P (lift decided) _ (λ b h. h)
        (λ pairs.
          Keeps-for_each P pairs
            (run_pair config engine strategy default_rules day_text calendar replay bundle.bars)
            (run_pair_keeps replay bundle.bars))

  guards_same :
      (bundle : DataBundle) (same : Bool) (b : Books) → (guards config engine bundle same b).1 ≡ b
  unfolding guards
  guards_same bundle same b = ground arith

  guards_keeps : (bundle : DataBundle) (same : Bool) → Keeps P (guards config engine bundle same)
  guards_keeps bundle same b h = subst P (sym (guards_same bundle same b)) h

  pub run_checked_keeps :
      (bundle : DataBundle) (replay : Option Replay) (same : Bool)
      → Keeps P (
          run_checked calendar signal_id default_rules day_text config engine strategy bundle replay
            same)
  unfolding run_checked
  run_checked_keeps bundle replay same =
      let decided = decisions_of calendar signal_id strategy bundle replay in
      Keeps-bind P (guards config engine bundle same)
        (λ _.
          run_decided calendar signal_id default_rules day_text config engine strategy bundle
            decided)
        (guards_keeps bundle same) (λ _. run_decided_keeps bundle decided)
