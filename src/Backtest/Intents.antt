-- ===== src/Backtest/Intents.antt =====
-- A backtest uses each intent at most once, from its first session to its last.
use mathlib.Core.Path.{subst}
use bot_trading.Prelude.{
  ℕ, ◌≤◌, String, ◌≡◌, refl, sym, Bool, false, Option, List, [], ◌∷◌, any, str_eq, inl, inr,
  Bool-cases, eq_iff, arith,
}
use bot_trading.Prelude.Counting.{count-upsert}
use bot_trading.Decimal.{Decimals, Decimal}
use bot_trading.Risk.Types.{Stamp, RiskEngine, RiskDecision, InstrumentRules}
use bot_trading.Risk.Engine.{assess}
use bot_trading.Domain.{Signal}
use bot_trading.Market.{Calendar, Session, DataBundle}
use bot_trading.Strategy.Config.{StrategyConfig}
use bot_trading.Backtest.{BacktestConfig, PendingItem, PositionItem, Books}
use bot_trading.Backtest.Handlers.{request_of, portfolio_of, on_signal, place, see}
use bot_trading.Backtest.Replay.{Replay}
use bot_trading.Backtest.Run.{
  reject_unfilled, report_exposure, end_session, run_backtest, opening_books,
}
use bot_trading.Backtest.Invariants.{IsInvariant, run_checked_keeps}
use bot_trading.Backtest.Once.{uses, waits, IsOnce, on_open-IsOnce, on_close-IsOnce}

module _ ⦃dec : Decimals⦄ (id : String) where
  place-IsOnce :
      (symbol : String) (s : Signal) (at : Stamp) (risk : RiskDecision) (b : Books)
      → any (str_eq s.signal_id) b.seen_intents ≡ false
      → IsOnce id b
      → IsOnce id (place symbol s at risk (see s b))
  place-IsOnce symbol s at risk b unseen h =
      let more =
        count-upsert (waits id) (λ (i : PendingItem). str_eq i.symbol symbol)
          (record { symbol = symbol; order = record { signal = s; sent_at = at; decision = risk } })
          b.pending in
      elim (Bool-cases (str_eq id s.signal_id)) [
        | inl same ↦
            let fresh =
              subst (λ name. any (str_eq name) b.seen_intents ≡ false)
                (sym ((eq_iff id s.signal_id).0 same)) unseen in
            ground arith
        | inr different ↦ ground arith
      ]

module _ ⦃dec : Decimals⦄ (config : BacktestConfig) (engine : RiskEngine)
    (strategy : StrategyConfig) (default_rules : InstrumentRules) (day_text : ℕ → String)
    (id : String) where
  on_signal-IsOnce :
      (market : Session) (reference realized_start : Decimal) (symbol : String) (s : Signal)
      (at : Stamp) (b : Books)
      → IsOnce id b
      → IsOnce id (
          on_signal config engine strategy default_rules day_text market reference realized_start
            symbol s at b)
  unfolding on_signal
  on_signal-IsOnce market reference realized_start symbol s at b h =
      elim (Bool-cases (any (str_eq s.signal_id) b.seen_intents)) [
        | inl seen ↦ rw seen h
        | inr unseen ↦ rw unseen (
            place-IsOnce id symbol s at
              (assess engine
                (request_of config engine strategy default_rules day_text market at symbol s)
                (portfolio_of config engine strategy default_rules day_text market reference
                  realized_start (see s b)))
              b unseen h)
      ]

module _ ⦃dec : Decimals⦄ (id : String) where
  -- The end of a session writes no table that counts, but it empties the pending orders.
  reject_unfilled_same :
      (at : Stamp) (l : List PendingItem) (b : Books)
      → ((reject_unfilled at l b).positions ≡ b.positions)
        × ((reject_unfilled at l b).trades ≡ b.trades)
        × ((reject_unfilled at l b).seen_intents ≡ b.seen_intents)
  reject_unfilled_same at [] b = (refl, refl, refl)
  reject_unfilled_same at (i ∷ l) b = reject_unfilled_same at l _

  report_exposure-IsOnce :
      (at : Stamp) (l : List PositionItem) (b : Books)
      → IsOnce id b
      → IsOnce id (report_exposure at l b)
  report_exposure-IsOnce at [] b h = h
  report_exposure-IsOnce at (i ∷ l) b h = h

  end_session-IsOnce :
      (market : Session) (b : Books) → IsOnce id b → IsOnce id (end_session market b)
  unfolding end_session
  end_session-IsOnce market b h =
      let emptied = record (reject_unfilled market.close_at b.pending b) { pending = [] } in
      let (positions, trades, seen) = reject_unfilled_same market.close_at b.pending b in
      report_exposure-IsOnce market.close_at emptied.positions emptied (ground arith)

module _ ⦃dec : Decimals⦄ (config : BacktestConfig) (engine : RiskEngine)
    (strategy : StrategyConfig) (default_rules : InstrumentRules) (day_text : ℕ → String)
    (id : String) where
  IsOnce-kept : IsInvariant config engine strategy default_rules day_text (IsOnce id)
  IsOnce-kept = record {
    opens = λ calendar market. on_open-IsOnce config engine id calendar market strategy;
    closes = on_close-IsOnce config engine id;
    signals = on_signal-IsOnce config engine strategy default_rules day_text id;
    ends = end_session-IsOnce id;
  }

module _ ⦃dec : Decimals⦄ (calendar : Calendar) (signal_id : String → ℕ → String → String)
    (config : BacktestConfig) (engine : RiskEngine) (strategy : StrategyConfig)
    (default_rules : InstrumentRules) (day_text : ℕ → String) where
  -- However a backtest ends, also where it raises: a signal stands for at most one pending order,
  -- position or trade altogether, so it is traded at most once.
  pub run_backtest_once :
      (id : String) (bundle : DataBundle) (replay : Option Replay) (same : Bool)
      → uses id
          (run_backtest calendar signal_id default_rules day_text config engine strategy bundle
            replay same).1
        ≤ 1
  run_backtest_once id bundle replay same =
      let once =
        run_checked_keeps calendar signal_id config engine strategy default_rules day_text
          (IsOnce id) (IsOnce-kept config engine strategy default_rules day_text id) bundle replay
          same (opening_books config.starting_capital) (ground arith) in
      elim (Bool-cases (
        any (str_eq id)
          (run_backtest calendar signal_id default_rules day_text config engine strategy bundle
            replay same).1.seen_intents)) [ inl seen ↦ ground arith | inr unseen ↦ ground arith ]
