-- ===== src/Backtest/Causal.antt =====
-- A backtest acts on no later knowledge: an order is filled strictly after it was sent, and only an
-- approved one.
use mathlib.Core.Path.{subst, sym}
use bot_trading.Prelude.{
  ℕ, ◌*◌, String, ◌≡◌, refl, true, not, Option, none, some, [], ◌∷◌, find_row, str_eq, inl, inr,
  Option-cases, Bool-cases, arith,
}
use bot_trading.Prelude.Members.{All, All-append, All-upsert, All-delete_rows, All-find_row}
use bot_trading.Decimal.{Decimals, Decimal, ◌≤D◌, min_D}
use bot_trading.Risk.Types.{Stamp, RiskEngine, InstrumentRules}
use bot_trading.Risk.Engine.{assess, post_fill_risk}
use bot_trading.Backtest.Handlers.{request_of, portfolio_of}
use bot_trading.Exec.{lift, when, Keeps, Keeps-bind, Keeps-when}
use bot_trading.Domain.{earlier, after_seconds, Bar}
use bot_trading.Market.{Calendar, Session, session, flatten_at}
use bot_trading.Strategy.Config.{StrategyConfig}
use bot_trading.Backtest.{
  BacktestConfig, Pending, Position, PendingItem, PositionItem, Trade, Books, Side, executable,
}
use bot_trading.Backtest.Orders.{
  position_at, pending_at, set_position, drop_pending, report, trade_of, close, opened, after_fill,
  fill_pending, fill_if_later, close_scheduled, on_open, stop_held, on_close,
}

module _ ⦃dec : Decimals⦄ (config : BacktestConfig) (engine : RiskEngine)
    (strategy : StrategyConfig) (default_rules : InstrumentRules) (day_text : ℕ → String) where
  -- An order that was granted: its decision is an approval, and the one that the risk engine gives
  -- for the request of its signal at the time it was sent, with a portfolio drawn from books.
  pub record IsGranted (p : Pending) : Type 0 where
    pub symbol : String
    pub market : Session
    pub reference : Decimal
    pub realized_start : Decimal
    pub books : Books
    pub assessed :
        p.decision
        ≡ assess engine
            (request_of config engine strategy default_rules day_text market p.sent_at symbol
              p.signal)
            (portfolio_of config engine strategy default_rules day_text market reference
              realized_start books)
    pub approved : p.decision.approved ≡ true

  abbrev pub IsCausalPosition : Position → Type 0
  IsCausalPosition p = (earlier p.pending.sent_at p.filled_at ≡ true) × IsGranted p.pending

  abbrev pub IsCausalTrade : Trade → Type 0
  IsCausalTrade t = earlier t.submitted_at t.entry_at ≡ true

  -- What waits was granted, what is held was granted and filled after it was sent, and what was
  -- traded was filled after it was sent.
  pub record IsCausal (b : Books) : Type 0 where
    pub waiting : All (λ (i : PendingItem). IsGranted i.order) b.pending
    pub held : All (λ (i : PositionItem). IsCausalPosition i.position) b.positions
    pub traded : All IsCausalTrade b.trades

  position_at-causal :
      (symbol : String) (b : Books) {p : Position}
      → IsCausal b
      → position_at symbol b ≡ some p
      → IsCausalPosition p
  position_at-causal symbol b {p} h found =
      elim (Option-cases (find_row (λ (i : PositionItem). str_eq i.symbol symbol) b.positions)) [
        | inl missing ↦ absurd (ground arith)
        | inr (item, here) ↦
            let (late, approved) =
              All-find_row (λ (i : PositionItem). IsCausalPosition i.position)
                (λ (i : PositionItem). str_eq i.symbol symbol) b.positions {x = item} h.held here in
            let same : p ≡ item.position = ground arith in
            subst IsCausalPosition (sym same) (late, approved)
      ]

  pending_at-IsGranted :
      (symbol : String) (b : Books) {p : Pending}
      → IsCausal b
      → pending_at symbol b ≡ some p
      → IsGranted p
  pending_at-IsGranted symbol b {p} h found =
      elim (Option-cases (find_row (λ (i : PendingItem). str_eq i.symbol symbol) b.pending)) [
        | inl missing ↦ absurd (ground arith)
        | inr (item, here) ↦
            let approved =
              All-find_row (λ (i : PendingItem). IsGranted i.order)
                (λ (i : PendingItem). str_eq i.symbol symbol) b.pending {x = item} h.waiting here in
            let same : p ≡ item.order = ground arith in subst IsGranted (sym same) approved
      ]

  set_position-IsCausal :
      (symbol : String) (p : Position) (b : Books)
      → IsCausalPosition p
      → IsCausal b
      → IsCausal (set_position symbol p b)
  set_position-IsCausal symbol p b c h = record {
    waiting = h.waiting;
    traded = h.traded;
    held =
        All-upsert (λ (i : PositionItem). IsCausalPosition i.position)
          (λ (i : PositionItem). str_eq i.symbol symbol) (record { symbol = symbol; position = p })
          b.positions c h.held;
  }

  drop_pending-IsCausal :
      (symbol : String) (b : Books) → IsCausal b → IsCausal (drop_pending symbol b)
  drop_pending-IsCausal symbol b h = record {
    held = h.held;
    traded = h.traded;
    waiting =
        All-delete_rows (λ (i : PendingItem). IsGranted i.order)
          (λ (i : PendingItem). str_eq i.symbol symbol) b.pending h.waiting;
  }

  close-IsCausal :
      (symbol : String) (price : Decimal) (at : Stamp) (reason : String)
      → Keeps IsCausal (close config engine symbol price at reason)
  unfolding close trade_of
  close-IsCausal symbol price at reason b h = elim (Option-cases (position_at symbol b)) [
    | inl missing ↦ rw missing h
    | inr (p, found) ↦
        let (late, approved) = position_at-causal symbol b {p = p} h found in
        rw found (record {
          waiting = h.waiting;
          held =
              All-delete_rows (λ (i : PositionItem). IsCausalPosition i.position)
                (λ (i : PositionItem). str_eq i.symbol symbol) b.positions h.held;
          traded = All-append IsCausalTrade b.trades _ h.traded (late, tt);
        })
  ]

  after_fill-IsCausal :
      (symbol : String) (bar : Bar) (at : Stamp) (r : Decimal × Option String)
      → Keeps IsCausal (after_fill config engine symbol bar at r)
  after_fill-IsCausal symbol bar at (actual, none) b h = h
  after_fill-IsCausal symbol bar at (actual, some incident) b h =
      close-IsCausal symbol bar.open_price at "POST_FILL_RISK_EXIT"
        (report (symbol ∷ []) at incident (some actual) b)
        (record { waiting = h.waiting; held = h.held; traded = h.traded })

  fill_pending-IsCausal :
      (market : Session) (symbol : String) (order : Pending) (bar : Bar) (at : Stamp)
      → earlier order.sent_at at ≡ true
      → IsGranted order
      → Keeps IsCausal (fill_pending config engine market strategy symbol order bar at)
  unfolding fill_pending
  fill_pending-IsCausal market symbol order bar at late approved b h =
      let dropped = drop_pending-IsCausal symbol b h in
      elim (Bool-cases
        (earlier at (after_seconds market.open_at (strategy.entry_window_minutes * 60)))) [
          | inl inside ↦ rw inside (
              after_fill-IsCausal symbol bar at
                (post_fill_risk engine order.decision.units
                  (executable config engine.costs bar.open_price Side.purchase)
                  order.signal.stop_price order.decision.planned_risk true)
                (opened config engine symbol order bar at (drop_pending symbol b))
                (record {
                  waiting = dropped.waiting;
                  held =
                      All-upsert (λ (i : PositionItem). IsCausalPosition i.position)
                        (λ (i : PositionItem). str_eq i.symbol symbol) _ b.positions
                        (late, approved) h.held;
                  traded = h.traded;
                }))
          | inr outside ↦
              rw outside
                (record { waiting = dropped.waiting; held = dropped.held; traded = dropped.traded })
        ]

  fill_if_later-IsCausal :
      (market : Session) (symbol : String) (waiting : Option Pending) (bar : Bar) (at : Stamp)
      (b : Books)
      → pending_at symbol b ≡ waiting
      → IsCausal b
      → IsCausal (fill_if_later config engine market strategy symbol bar at waiting b).1
  fill_if_later-IsCausal market symbol none bar at b found h = h
  fill_if_later-IsCausal market symbol (some order) bar at b found h =
      elim (Bool-cases (earlier order.sent_at at)) [
        | inl later ↦ rw later (
            fill_pending-IsCausal market symbol order bar at later
              (pending_at-IsGranted symbol b {p = order} h found) b h)
        | inr early ↦ rw early h
      ]

  close_scheduled-IsCausal :
      (calendar : Calendar) (symbol : String) (bar : Bar) (at : Stamp) (held : Option Position)
      → Keeps IsCausal (close_scheduled config engine calendar symbol bar at held)
  close_scheduled-IsCausal calendar symbol bar at none = λ b h. h
  close_scheduled-IsCausal calendar symbol bar at (some p) =
      Keeps-bind IsCausal (lift (session calendar p.pending.signal.session_date))
        (λ own.
          when (not (earlier at (flatten_at own)))
            (close config engine symbol bar.open_price at "SCHEDULED_CLOSE"))
        (λ b h. h)
        (λ own.
          Keeps-when IsCausal (not (earlier at (flatten_at own)))
            (close config engine symbol bar.open_price at "SCHEDULED_CLOSE")
            (close-IsCausal symbol bar.open_price at "SCHEDULED_CLOSE"))

  pub on_open-IsCausal :
      (calendar : Calendar) (market : Session) (symbol : String) (bar : Bar) (at : Stamp)
      → Keeps IsCausal (on_open config engine calendar market strategy symbol bar at)
  unfolding on_open
  on_open-IsCausal calendar market symbol bar at b =
      Keeps-bind IsCausal
        (close_scheduled config engine calendar symbol bar at (position_at symbol b))
        (λ _ (c : Books).
          fill_if_later config engine market strategy symbol bar at (pending_at symbol c) c)
        (close_scheduled-IsCausal calendar symbol bar at (position_at symbol b))
        (λ _ (c : Books) h.
          fill_if_later-IsCausal market symbol (pending_at symbol c) bar at c refl h)
        b

  stop_held-IsCausal :
      (symbol : String) (bar : Bar) (at : Stamp) (held : Option Position) (b : Books)
      → position_at symbol b ≡ held
      → IsCausal b
      → IsCausal (stop_held config engine symbol bar at held b).1
  stop_held-IsCausal symbol bar at none b found h = h
  stop_held-IsCausal symbol bar at (some p) b found h =
      elim (Bool-cases (earlier bar.event_time p.filled_at)) [
        | inl early ↦ rw early h
        | inr late ↦ rw late (
            Keeps-when IsCausal (bar.low ≤D p.pending.signal.stop_price)
              (close config engine symbol (min_D bar.open_price p.pending.signal.stop_price) at
                "STOP_CONSERVATIVE")
              (close-IsCausal symbol (min_D bar.open_price p.pending.signal.stop_price) at
                "STOP_CONSERVATIVE")
              (set_position symbol (record p { mark = bar.close }) b)
              (set_position-IsCausal symbol (record p { mark = bar.close }) b
                (position_at-causal symbol b {p = p} h found) h))
      ]

  pub on_close-IsCausal :
      (symbol : String) (bar : Bar) (at : Stamp)
      → Keeps IsCausal (on_close config engine symbol bar at)
  unfolding on_close
  on_close-IsCausal symbol bar at b h =
      stop_held-IsCausal symbol bar at (position_at symbol b) b refl h
