-- ===== src/Backtest/Once.antt =====
-- Each intent of a backtest is used at most once: it waits, or it is held, or it was traded.
use bot_trading.Prelude.{
  ℕ, ◌+◌, ◌*◌, ◌≤◌, String, ◌≡◌, refl, Bool, true, not, Option, none, some, [], ◌∷◌, any, find_row,
  str_eq, inl, inr, Option-cases, Bool-cases, arith,
}
use bot_trading.Prelude.Counting.{
  one_if, count, count-append, count-upsert, count-delete_rows_found, count-upsert_found,
}
use bot_trading.Decimal.{Decimals, Decimal, ◌*D◌, ◌-D◌, ◌≤D◌, min_D}
use bot_trading.Risk.Types.{Stamp, RiskEngine}
use bot_trading.Exec.{lift, when, Keeps, Keeps-bind, Keeps-when}
use bot_trading.Domain.{earlier, after_seconds, Bar}
use bot_trading.Risk.Engine.{post_fill_risk}
use bot_trading.Market.{Calendar, Session, session, flatten_at}
use bot_trading.Strategy.Config.{StrategyConfig}
use bot_trading.Backtest.{
  BacktestConfig, Pending, Position, PendingItem, PositionItem, Trade, Books, Side, executable, fee,
}
use bot_trading.Backtest.Orders.{
  position_at, pending_at, set_position, drop_position, drop_pending, trade_of, report, close,
  opened, after_fill, fill_pending, close_scheduled, fill_if_later, on_open, stop_held, on_close,
}

module _ ⦃dec : Decimals⦄ (id : String) where
  abbrev pub waits : PendingItem → Bool
  waits i = str_eq id i.order.signal.signal_id

  abbrev holds : PositionItem → Bool
  holds i = str_eq id i.position.pending.signal.signal_id

  abbrev pub traded : Trade → Bool
  traded t = str_eq id t.signal_id

  -- How many orders, positions and trades stand for a signal.
  abbrev pub uses : Books → ℕ
  uses b = count waits b.pending + (count holds b.positions + count traded b.trades)

  -- An unseen signal has no use, a seen one has at most one.
  abbrev pub IsOnce : Books → Type 0
  IsOnce b = uses b ≤ one_if (any (str_eq id) b.seen_intents)

  drop_pending-waits :
      (symbol : String) (b : Books) {p : Pending}
      → pending_at symbol b ≡ some p
      → one_if (str_eq id p.signal.signal_id) + count waits (drop_pending symbol b).pending
        ≤ count waits b.pending
  drop_pending-waits symbol b {p} h =
      elim (Option-cases (find_row (λ (i : PendingItem). str_eq i.symbol symbol) b.pending)) [
        | inl missing ↦ absurd (ground arith)
        | inr (item, found) ↦ ground (
          arith,
          count-delete_rows_found waits (λ (i : PendingItem). str_eq i.symbol symbol) b.pending
              {x = item},
        )
      ]

  drop_position-holds :
      (symbol : String) (b : Books) {p : Position}
      → position_at symbol b ≡ some p
      → one_if (str_eq id p.pending.signal.signal_id)
          + count holds (drop_position symbol b).positions
        ≤ count holds b.positions
  drop_position-holds symbol b {p} h =
      elim (Option-cases (find_row (λ (i : PositionItem). str_eq i.symbol symbol) b.positions)) [
        | inl missing ↦ absurd (ground arith)
        | inr (item, found) ↦ ground (
          arith,
          count-delete_rows_found holds (λ (i : PositionItem). str_eq i.symbol symbol) b.positions
              {x = item},
        )
      ]

module _ ⦃dec : Decimals⦄ (config : BacktestConfig) (engine : RiskEngine) (id : String) where
  close-IsOnce :
      (symbol : String) (price : Decimal) (at : Stamp) (reason : String) (b : Books)
      → IsOnce id b
      → IsOnce id (close config engine symbol price at reason b).1
  unfolding close trade_of
  close-IsOnce symbol price at reason b h = elim (Option-cases (position_at symbol b)) [
    | inl missing ↦ ground arith
    | inr (p, held) ↦ ground (
      arith,
      drop_position-holds id symbol b {p = p},
      count-append (traded id) b.trades (trade_of config engine symbol p price at reason ∷ []),
    )
  ]

  -- A fill takes the pending order's place.
  opened-IsOnce :
      (symbol : String) (order : Pending) (bar : Bar) (at : Stamp) (b : Books)
      → pending_at symbol b ≡ some order
      → IsOnce id b
      → IsOnce id (opened config engine symbol order bar at (drop_pending symbol b))
  opened-IsOnce symbol order bar at b waiting h = ground (
    arith,
    drop_pending-waits id symbol b {p = order},
    count-upsert (holds id) (λ (i : PositionItem). str_eq i.symbol symbol)
        (record {
          symbol = symbol;
          position = record {
            pending = order;
            filled_at = at;
            entry = executable config engine.costs bar.open_price Side.purchase;
            entry_fee =
                fee config engine.costs order.decision.units
                  (executable config engine.costs bar.open_price Side.purchase);
            mark = bar.open_price;
            friction =
                order.decision.units
                *D (executable config engine.costs bar.open_price Side.purchase -D bar.open_price);
          };
        })
        b.positions,
  )

  after_fill-IsOnce :
      (symbol : String) (bar : Bar) (at : Stamp) (r : Decimal × Option String) (b : Books)
      → IsOnce id b
      → IsOnce id (after_fill config engine symbol bar at r b).1
  after_fill-IsOnce symbol bar at (actual, none) b h = h
  after_fill-IsOnce symbol bar at (actual, some incident) b h =
      close-IsOnce symbol bar.open_price at "POST_FILL_RISK_EXIT"
        (report (symbol ∷ []) at incident (some actual) b) h

  fill_pending-IsOnce :
      (market : Session) (strategy : StrategyConfig) (symbol : String) (order : Pending) (bar : Bar)
      (at : Stamp) (b : Books)
      → pending_at symbol b ≡ some order
      → IsOnce id b
      → IsOnce id (fill_pending config engine market strategy symbol order bar at b).1
  unfolding fill_pending
  fill_pending-IsOnce market strategy symbol order bar at b waiting h =
      elim (Bool-cases
        (earlier at (after_seconds market.open_at (strategy.entry_window_minutes * 60)))) [
          | inl inside ↦ rw inside (
              after_fill-IsOnce symbol bar at
                (post_fill_risk engine order.decision.units
                  (executable config engine.costs bar.open_price Side.purchase)
                  order.signal.stop_price order.decision.planned_risk true)
                (opened config engine symbol order bar at (drop_pending symbol b))
                (opened-IsOnce symbol order bar at b waiting h))
          | inr outside ↦
              let fewer = drop_pending-waits id symbol b {p = order} waiting in
              rw outside (ground arith)
        ]

  fill_if_later-IsOnce :
      (market : Session) (strategy : StrategyConfig) (symbol : String) (waiting : Option Pending)
      (bar : Bar) (at : Stamp) (b : Books)
      → pending_at symbol b ≡ waiting
      → IsOnce id b
      → IsOnce id (fill_if_later config engine market strategy symbol bar at waiting b).1
  fill_if_later-IsOnce market strategy symbol none bar at b waiting h = h
  fill_if_later-IsOnce market strategy symbol (some order) bar at b waiting h =
      elim (Bool-cases (earlier order.sent_at at)) [
        | inl later ↦ rw later (fill_pending-IsOnce market strategy symbol order bar at b waiting h)
        | inr early ↦ rw early h
      ]

  close_scheduled-IsOnce :
      (calendar : Calendar) (symbol : String) (bar : Bar) (at : Stamp) (held : Option Position)
      → Keeps (IsOnce id) (close_scheduled config engine calendar symbol bar at held)
  close_scheduled-IsOnce calendar symbol bar at none = λ b h. h
  close_scheduled-IsOnce calendar symbol bar at (some p) =
      Keeps-bind (IsOnce id) (lift (session calendar p.pending.signal.session_date))
        (λ own.
          when (not (earlier at (flatten_at own)))
            (close config engine symbol bar.open_price at "SCHEDULED_CLOSE"))
        (λ b h. h)
        (λ own.
          Keeps-when (IsOnce id) (not (earlier at (flatten_at own)))
            (close config engine symbol bar.open_price at "SCHEDULED_CLOSE")
            (close-IsOnce symbol bar.open_price at "SCHEDULED_CLOSE"))

  pub on_open-IsOnce :
      (calendar : Calendar) (market : Session) (strategy : StrategyConfig) (symbol : String)
      (bar : Bar) (at : Stamp)
      → Keeps (IsOnce id) (on_open config engine calendar market strategy symbol bar at)
  unfolding on_open
  on_open-IsOnce calendar market strategy symbol bar at b =
      Keeps-bind (IsOnce id)
        (close_scheduled config engine calendar symbol bar at (position_at symbol b))
        (λ _ (c : Books).
          fill_if_later config engine market strategy symbol bar at (pending_at symbol c) c)
        (close_scheduled-IsOnce calendar symbol bar at (position_at symbol b))
        (λ _ (c : Books) h.
          fill_if_later-IsOnce market strategy symbol (pending_at symbol c) bar at c refl h)
        b

  marked-IsOnce :
      (symbol : String) (price : Decimal) (p : Position) (b : Books)
      → position_at symbol b ≡ some p
      → IsOnce id b
      → IsOnce id (set_position symbol (record p { mark = price }) b)
  marked-IsOnce symbol price p b held h =
      elim (Option-cases (find_row (λ (i : PositionItem). str_eq i.symbol symbol) b.positions)) [
        | inl missing ↦ absurd (ground arith)
        | inr (item, found) ↦ ground (
          arith,
          count-upsert_found (holds id) (λ (i : PositionItem). str_eq i.symbol symbol)
              (record { symbol = symbol; position = record p { mark = price } }) b.positions
              {x = item},
        )
      ]

  stop_held-IsOnce :
      (symbol : String) (bar : Bar) (at : Stamp) (held : Option Position) (b : Books)
      → position_at symbol b ≡ held
      → IsOnce id b
      → IsOnce id (stop_held config engine symbol bar at held b).1
  stop_held-IsOnce symbol bar at none b held h = h
  stop_held-IsOnce symbol bar at (some p) b held h =
      elim (Bool-cases (earlier bar.event_time p.filled_at)) [
        | inl early ↦ rw early h
        | inr late ↦ rw late (
            Keeps-when (IsOnce id) (bar.low ≤D p.pending.signal.stop_price)
              (close config engine symbol (min_D bar.open_price p.pending.signal.stop_price) at
                "STOP_CONSERVATIVE")
              (close-IsOnce symbol (min_D bar.open_price p.pending.signal.stop_price) at
                "STOP_CONSERVATIVE")
              (set_position symbol (record p { mark = bar.close }) b)
              (marked-IsOnce symbol bar.close p b held h))
      ]

  pub on_close-IsOnce :
      (symbol : String) (bar : Bar) (at : Stamp)
      → Keeps (IsOnce id) (on_close config engine symbol bar at)
  unfolding on_close
  on_close-IsOnce symbol bar at b h = stop_held-IsOnce symbol bar at (position_at symbol b) b refl h
