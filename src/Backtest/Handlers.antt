-- ===== src/Backtest/Handlers.antt =====
-- The event of a signal and the choice of an event's handler, of `run_backtest` of
-- backtesting/engine.py.
use bot_trading.Prelude.{
  ℕ, ◌+◌, ◌*◌, ◌==◌, String, true, not, none, some, ◌∷◌, map, any, length, upsert, str_eq,
  if◌then◌else◌,
}
use bot_trading.Prelude.Int.{pos}
use bot_trading.Decimal.{Decimals, Decimal, ◌+D◌, ◌-D◌, ◌*D◌, min_D}
use bot_trading.Risk.Types.{
  Stamp, RiskEngine, InstrumentRules, EntryRequest, RiskPortfolio, RiskDecision,
}
use bot_trading.Risk.Engine.{assess}
use bot_trading.Exec.{Exec, modify}
use bot_trading.Domain.{earlier, after_seconds, Signal}
use bot_trading.Market.{Calendar, Session}
use bot_trading.Store.Portfolio.{sum_D}
use bot_trading.Strategy.Config.{StrategyConfig}
use bot_trading.Backtest.{
  BacktestConfig, Pending, PendingItem, PositionItem, Books, Side, executable,
}
use bot_trading.Backtest.Orders.{marked, realized, reject_entry, on_open, on_close}
use bot_trading.Backtest.Events.{Payload, bar_open, bar_close, signal_sent, Event}

module _ ⦃dec : Decimals⦄ where
  abbrev reserved : Pending → Decimal
  reserved p = p.decision.notional +D p.decision.estimated_cost

  abbrev pub see : Signal → Books → Books
  see s b = record b { seen_intents = s.signal_id ∷ b.seen_intents }

  abbrev pub place : String → Signal → Stamp → RiskDecision → Books → Books
  place symbol s at risk b =
      if risk.approved
      then record b {
        pending =
            upsert (λ (i : PendingItem). str_eq i.symbol symbol)
              (record {
                symbol = symbol;
                order = record { signal = s; sent_at = at; decision = risk };
              })
              b.pending;
      }
      else reject_entry symbol at risk.reason none b

module _ ⦃dec : Decimals⦄ (config : BacktestConfig) (engine : RiskEngine)
    (strategy : StrategyConfig) (default_rules : InstrumentRules) (day_text : ℕ → String) where
  -- The request that a signal makes, with the other fields at their defaults.
  abbrev pub request_of : Session → Stamp → String → Signal → EntryRequest
  request_of market at symbol s = record {
    signal_id = s.signal_id;
    session_id = day_text market.day;
    symbol = symbol;
    available_at = s.available_at;
    expires_at = s.expires_at;
    now = at;
    entry_price = executable config engine.costs s.reference_price Side.purchase;
    stop_price = s.stop_price;
    bid = executable config engine.costs s.reference_price Side.sale;
    ask = executable config engine.costs s.reference_price Side.purchase;
    quote_at = s.available_at;
    reference_price = some s.reference_price;
    source_price = none;
    entry_window_open =
        earlier at (after_seconds market.open_at (strategy.entry_window_minutes * 60));
    rules = default_rules;
    strategy = "ORB_RVOL";
    version = "0.1";
  }

  -- What the risk engine sees of the books.
  unfoldable pub portfolio_of : Session → Decimal → Decimal → Books → RiskPortfolio
  portfolio_of market reference realized_start b = record {
    reference_capital = min_D reference engine.config.allocated_capital;
    equity = b.cash +D marked b;
    cash = b.cash;
    gross_exposure = marked b;
    reserved_cash = sum_D (map (λ (i : PendingItem). reserved i.order) b.pending);
    reserved_risk =
        sum_D (map (λ (i : PendingItem). i.order.decision.planned_risk) b.pending)
        +D sum_D (map (λ (i : PositionItem). i.position.pending.decision.planned_risk) b.positions);
    potential_positions = pos (length b.pending + length b.positions);
    realized_pnl = realized b -D realized_start;
    unrealized_pnl = sum_D (
        map
          (λ (i : PositionItem).
            (i.position.mark -D i.position.entry) *D i.position.pending.decision.units
            -D i.position.entry_fee)
          b.positions);
    entries_paused =
        any (λ (i : PositionItem). not (i.position.pending.signal.session_date == market.day))
          b.positions;
    reconciliation_ok = true;
  }

  -- The event of a signal: an intent is judged once.
  unfoldable pub on_signal : Session → Decimal → Decimal → String → Signal → Stamp → Books → Books
  on_signal market reference realized_start symbol s at b =
      if any (str_eq s.signal_id) b.seen_intents
      then b
      else place symbol s at
          (assess engine (request_of market at symbol s)
            (portfolio_of market reference realized_start (see s b)))
          (see s b)

  abbrev pub handle :
      Calendar → Session → Decimal → Decimal → String → Stamp → Payload → Exec Books (Unit {0})
  handle calendar market reference realized_start symbol at (bar_open b) =
      on_open config engine calendar market strategy symbol b at
  handle calendar market reference realized_start symbol at (bar_close b) =
      on_close config engine symbol b at
  handle calendar market reference realized_start symbol at (signal_sent s) =
      modify (on_signal market reference realized_start symbol s at)

  unfoldable pub on_event : Calendar → Session → Decimal → Decimal → Event → Exec Books (Unit {0})
  on_event calendar market reference realized_start e =
      handle calendar market reference realized_start e.symbol e.at e.payload
