-- ===== src/Backtest/Orders.antt =====
-- What one event does to the books of `run_backtest` of backtesting/engine.py.
use bot_trading.Prelude.{
  ◌*◌, String, true, not, Option, none, some, List, [], ◌∷◌, ◌++◌, map, find_row, upsert,
  delete_rows, str_eq, if◌then◌else◌,
}
use bot_trading.Decimal.{Decimals, Decimal, ◌+D◌, ◌-D◌, ◌*D◌, ◌/D◌, ◌≤D◌, min_D}
use bot_trading.Risk.Types.{Stamp, CostConfig, RiskEngine}
use bot_trading.Risk.Engine.{post_fill_risk}
use bot_trading.Exec.{Exec, key_error, gets, lift, or_raise, ◌>>=◌, ◌>>◌, modify, when, skip}
use bot_trading.Domain.{earlier, after_seconds, Bar}
use bot_trading.Market.{Calendar, Session, session, flatten_at}
use bot_trading.Store.Portfolio.{sum_D}
use bot_trading.Strategy.Config.{StrategyConfig}
use bot_trading.Backtest.{
  BacktestConfig, Pending, Position, PendingItem, PositionItem, Trade, Books, Side, fee, executable,
}

module _ ⦃dec : Decimals⦄ where
  abbrev pub position_at : String → Books → Option Position
  position_at symbol b =
      elim (find_row (λ (i : PositionItem). str_eq i.symbol symbol) b.positions) [
        | none ↦ none
        | some item ↦ some item.position
      ]

  abbrev pub pending_at : String → Books → Option Pending
  pending_at symbol b = elim (find_row (λ (i : PendingItem). str_eq i.symbol symbol) b.pending) [
    | none ↦ none
    | some item ↦ some item.order
  ]

  abbrev pub set_position : String → Position → Books → Books
  set_position symbol p b = record b {
    positions =
        upsert (λ (i : PositionItem). str_eq i.symbol symbol)
          (record { symbol = symbol; position = p }) b.positions;
  }

  abbrev pub drop_position : String → Books → Books
  drop_position symbol b = record b {
    positions = delete_rows (λ (i : PositionItem). str_eq i.symbol symbol) b.positions;
  }

  abbrev pub drop_pending : String → Books → Books
  drop_pending symbol b = record b {
    pending = delete_rows (λ (i : PendingItem). str_eq i.symbol symbol) b.pending;
  }

  abbrev pub reject_entry : String → Stamp → String → Option String → Books → Books
  reject_entry symbol at reason signal_id b = record b {
    rejects =
        b.rejects
        ++ record { symbol = symbol; at = at; reason = reason; signal_id = signal_id } ∷ [];
  }

  abbrev pub report : List String → Stamp → String → Option Decimal → Books → Books
  report symbols at reason risk b = record b {
    incidents =
        b.incidents ++ record { symbols = symbols; at = at; reason = reason; risk = risk } ∷ [];
  }

  -- The value of what is held, at its marks.
  abbrev pub marked : Books → Decimal
  marked b =
      sum_D (
        map (λ (i : PositionItem). i.position.mark *D i.position.pending.decision.units)
          b.positions)

  abbrev pub realized : Books → Decimal
  realized b = sum_D (map (λ (t : Trade). t.net_pnl) b.trades)

module _ ⦃dec : Decimals⦄ (config : BacktestConfig) (engine : RiskEngine) where
  abbrev costs : CostConfig
  costs = engine.costs

  -- The trade of a position that is sold at a price of the market.
  unfoldable pub trade_of : String → Position → Decimal → Stamp → String → Trade
  trade_of symbol p price at reason =
      let units = p.pending.decision.units in
      let exit_price = executable config costs price Side.sale in
      let exit_fee = fee config costs units exit_price in
      let net = units *D (exit_price -D p.entry) -D p.entry_fee -D exit_fee in
      let friction = p.friction +D units *D (price -D exit_price) in
      record {
        signal_id = p.pending.signal.signal_id;
        symbol = symbol;
        session_date = p.pending.signal.session_date;
        submitted_at = p.pending.sent_at;
        entry_at = p.filled_at;
        exit_at = at;
        units = units;
        entry_price = p.entry;
        exit_price = exit_price;
        stop_price = p.pending.signal.stop_price;
        exit_reason = reason;
        net_pnl = net;
        planned_risk = p.pending.decision.planned_risk;
        r_multiple = net /D p.pending.decision.planned_risk;
        costs = p.entry_fee +D exit_fee +D friction;
        fees = p.entry_fee +D exit_fee;
        spread_slippage = friction;
        turnover = units *D (p.entry +D exit_price);
      }

  abbrev pub sold : String → Position → Decimal → Stamp → String → Books → Books
  sold symbol p price at reason b =
      let units = p.pending.decision.units in
      let exit_price = executable config costs price Side.sale in
      record (drop_position symbol b) {
        cash = b.cash +D (units *D exit_price -D fee config costs units exit_price);
        trades = b.trades ++ trade_of symbol p price at reason ∷ [];
      }

  -- `close`.
  unfoldable pub close : String → Decimal → Stamp → String → Exec Books (Unit {0})
  close symbol price at reason = do
    held ← gets (position_at symbol)
    p ← or_raise (key_error symbol) held
    modify (sold symbol p price at reason)

  -- A pending order that meets an opening within the entry window is filled.
  abbrev pub opened : String → Pending → Bar → Stamp → Books → Books
  opened symbol order bar at b =
      let units = order.decision.units in
      let price = executable config costs bar.open_price Side.purchase in
      let entry_fee = fee config costs units price in
      set_position symbol
        (record {
          pending = order;
          filled_at = at;
          entry = price;
          entry_fee = entry_fee;
          mark = bar.open_price;
          friction = units *D (price -D bar.open_price);
        })
        (record b { cash = b.cash -D (units *D price +D entry_fee) })

  abbrev pub after_fill : String → Bar → Stamp → Decimal × Option String → Exec Books (Unit {0})
  after_fill symbol bar at (actual, none) = skip
  after_fill symbol bar at (actual, some incident) = do
    modify (report (symbol ∷ []) at incident (some actual))
    close symbol bar.open_price at "POST_FILL_RISK_EXIT"

  unfoldable pub fill_pending :
      Session → StrategyConfig → String → Pending → Bar → Stamp → Exec Books (Unit {0})
  fill_pending market strategy symbol order bar at = do
    modify (drop_pending symbol)
    (if not (earlier at (after_seconds market.open_at (strategy.entry_window_minutes * 60)))
        then modify (reject_entry symbol at "PENDING_ENTRY_WINDOW_CLOSED" none)
        else (do
          modify (opened symbol order bar at)
          after_fill symbol bar at (
              post_fill_risk engine order.decision.units
                (executable config costs bar.open_price Side.purchase) order.signal.stop_price
                order.decision.planned_risk true)))

  abbrev pub fill_if_later :
      Session → StrategyConfig → String → Bar → Stamp → Option Pending → Exec Books (Unit {0})
  fill_if_later market strategy symbol bar at none = skip
  fill_if_later market strategy symbol bar at (some order) =
      when (earlier order.sent_at at) (fill_pending market strategy symbol order bar at)

  abbrev pub close_scheduled :
      Calendar → String → Bar → Stamp → Option Position → Exec Books (Unit {0})
  close_scheduled calendar symbol bar at none = skip
  close_scheduled calendar symbol bar at (some p) = do
    own ← lift (session calendar p.pending.signal.session_date)
    when (not (earlier at (flatten_at own))) (close symbol bar.open_price at "SCHEDULED_CLOSE")

  -- The event of a bar's opening.
  unfoldable pub on_open :
      Calendar → Session → StrategyConfig → String → Bar → Stamp → Exec Books (Unit {0})
  on_open calendar market strategy symbol bar at = do
    held ← gets (position_at symbol)
    close_scheduled calendar symbol bar at held
    waiting ← gets (pending_at symbol)
    fill_if_later market strategy symbol bar at waiting

  abbrev pub stop_out : String → Bar → Stamp → Position → Exec Books (Unit {0})
  stop_out symbol bar at p = when (not (earlier bar.event_time p.filled_at)) (do
    modify (set_position symbol (record p { mark = bar.close }))
    when (bar.low ≤D p.pending.signal.stop_price)
        (close symbol (min_D bar.open_price p.pending.signal.stop_price) at "STOP_CONSERVATIVE"))

  abbrev pub stop_held : String → Bar → Stamp → Option Position → Exec Books (Unit {0})
  stop_held symbol bar at none = skip
  stop_held symbol bar at (some p) = stop_out symbol bar at p

  -- The event of a bar's close.
  unfoldable pub on_close : String → Bar → Stamp → Exec Books (Unit {0})
  on_close symbol bar at = do held ← gets (position_at symbol); stop_held symbol bar at held
