-- ===== src/Backtest/Knowledge.antt =====
-- No order of a backtest is filled before it was sent, from its first session to its last.
use bot_trading.Prelude.{
  ℕ, String, ◌≡◌, refl, Bool, true, Option, List, [], ◌∷◌, any, str_eq, inl, inr, Bool-cases,
}
use bot_trading.Prelude.Members.{All-upsert}
use bot_trading.Decimal.{Decimals, Decimal}
use bot_trading.Risk.Types.{Stamp, RiskEngine, RiskDecision, InstrumentRules}
use bot_trading.Risk.Engine.{assess}
use bot_trading.Domain.{Signal}
use bot_trading.Market.{Calendar, Session, DataBundle}
use bot_trading.Strategy.Config.{StrategyConfig}
use bot_trading.Backtest.{BacktestConfig, Pending, PendingItem, PositionItem, Books}
use bot_trading.Backtest.Handlers.{request_of, portfolio_of, on_signal, place, see}
use bot_trading.Backtest.Replay.{Replay}
use bot_trading.Backtest.Run.{
  reject_unfilled, report_exposure, end_session, run_backtest, opening_books,
}
use bot_trading.Backtest.Invariants.{IsInvariant, run_checked_keeps}
use bot_trading.Backtest.Causal.{IsGranted, IsCausal, on_open-IsCausal, on_close-IsCausal}

module _ ⦃dec : Decimals⦄ (config : BacktestConfig) (engine : RiskEngine)
    (strategy : StrategyConfig) (default_rules : InstrumentRules) (day_text : ℕ → String) where
  -- What is granted, and causal, under these settings.
  abbrev Granted : Pending → Type 0
  Granted = IsGranted config engine strategy default_rules day_text

  abbrev Causal : Books → Type 0
  Causal = IsCausal config engine strategy default_rules day_text

  place-IsCausal :
      (symbol : String) (s : Signal) (at : Stamp) (risk : RiskDecision) (b : Books)
      → (risk.approved ≡ true → Granted (record { signal = s; sent_at = at; decision = risk }))
      → Causal b
      → Causal (place symbol s at risk (see s b))
  place-IsCausal symbol s at risk b grant h = elim (Bool-cases risk.approved) [
    | inl granted ↦ simp granted (record {
      waiting =
          All-upsert (λ (i : PendingItem). Granted i.order)
            (λ (i : PendingItem). str_eq i.symbol symbol) _ b.pending (grant granted) h.waiting;
      held = h.held;
      traded = h.traded;
    })
    | inr refused ↦ simp refused (record { waiting = h.waiting; held = h.held; traded = h.traded })
  ]

  reject_unfilled-IsCausal :
      (at : Stamp) (l : List PendingItem) (b : Books) → Causal b → Causal (reject_unfilled at l b)
  reject_unfilled-IsCausal at [] b h = h
  reject_unfilled-IsCausal at (i ∷ l) b h =
      reject_unfilled-IsCausal at l _
        (record { waiting = h.waiting; held = h.held; traded = h.traded })

  report_exposure-IsCausal :
      (at : Stamp) (l : List PositionItem) (b : Books) → Causal b → Causal (report_exposure at l b)
  report_exposure-IsCausal at [] b h = h
  report_exposure-IsCausal at (i ∷ l) b h = record {
    waiting = h.waiting;
    held = h.held;
    traded = h.traded;
  }

  end_session-IsCausal : (market : Session) (b : Books) → Causal b → Causal (end_session market b)
  unfolding end_session
  end_session-IsCausal market b h =
      let rejected = reject_unfilled-IsCausal market.close_at b.pending b h in
      let emptied = record (reject_unfilled market.close_at b.pending b) { pending = [] } in
      let reported =
        report_exposure-IsCausal market.close_at emptied.positions emptied
          (record { waiting = tt; held = rejected.held; traded = rejected.traded }) in
      record { waiting = reported.waiting; held = reported.held; traded = reported.traded }

  on_signal-IsCausal :
      (market : Session) (reference realized_start : Decimal) (symbol : String) (s : Signal)
      (at : Stamp) (b : Books)
      → Causal b
      → Causal (
          on_signal config engine strategy default_rules day_text market reference realized_start
            symbol s at b)
  unfolding on_signal
  on_signal-IsCausal market reference realized_start symbol s at b h =
      elim (Bool-cases (any (str_eq s.signal_id) b.seen_intents)) [
        | inl seen ↦ rw seen h
        | inr unseen ↦
            let risk =
              assess engine
                (request_of config engine strategy default_rules day_text market at symbol s)
                (portfolio_of config engine strategy default_rules day_text market reference
                  realized_start (see s b)) in
            rw unseen (
              place-IsCausal symbol s at risk b
                (λ approved. record {
                  symbol = symbol;
                  market = market;
                  reference = reference;
                  realized_start = realized_start;
                  books = see s b;
                  assessed = refl;
                  approved = approved;
                })
                h)
      ]

  IsCausal-kept : IsInvariant config engine strategy default_rules day_text Causal
  IsCausal-kept = record {
    opens = on_open-IsCausal config engine strategy default_rules day_text;
    closes = on_close-IsCausal config engine strategy default_rules day_text;
    signals = on_signal-IsCausal;
    ends = end_session-IsCausal;
  }

module _ ⦃dec : Decimals⦄ (calendar : Calendar) (signal_id : String → ℕ → String → String)
    (config : BacktestConfig) (engine : RiskEngine) (strategy : StrategyConfig)
    (default_rules : InstrumentRules) (day_text : ℕ → String) where
  -- However a backtest ends, also where it raises: what waits has a decision that is an approval
  -- and the one `assess` gives for the request of its signal, at the time it was sent, with some
  -- portfolio of the books; what is held has such a decision too and was filled strictly after it
  -- was sent; and every trade was filled strictly after it was submitted.
  pub run_backtest-IsCausal :
      (bundle : DataBundle) (replay : Option Replay) (same : Bool)
      → IsCausal config engine strategy default_rules day_text
          (run_backtest calendar signal_id default_rules day_text config engine strategy bundle
            replay same).1
  run_backtest-IsCausal bundle replay same =
      run_checked_keeps calendar signal_id config engine strategy default_rules day_text
        (IsCausal config engine strategy default_rules day_text)
        (IsCausal-kept config engine strategy default_rules day_text) bundle replay same
        (opening_books config.starting_capital) (record { waiting = tt; held = tt; traded = tt })
