-- ===== src/Backtest/Stops.antt =====
-- What the close of a bar does to a position.
use bot_trading.Prelude.{
  String, ◌≡◌, refl, true, false, none, some, [], ◌∷◌, ◌++◌, str_eq, eq_iff, ◌⊎◌, inl, inr,
  Bool-cases, arith,
}
use bot_trading.Prelude.TableLaws.{find_row-upsert, find_row-delete_rows}
use bot_trading.Decimal.{Decimals, Decimal, ◌≤D◌, min_D, max_D, neg_D, of_ℕ, ◌+D◌, ◌-D◌, ◌*D◌, ◌/D◌}
use bot_trading.Risk.Types.{Stamp, RiskEngine}
use bot_trading.Exec.{ok}
use bot_trading.Domain.{earlier, Bar}
use bot_trading.Backtest.{BacktestConfig, Position, PositionItem, Trade, Books, executable, fee}
use bot_trading.Backtest.Orders.{
  position_at, set_position, drop_position, trade_of, sold, close, on_close,
}

module _ ⦃dec : Decimals⦄ (config : BacktestConfig) (engine : RiskEngine) where
  position_at-set_position :
      (symbol : String) (p : Position) (b : Books)
      → position_at symbol (set_position symbol p b) ≡ some p
  position_at-set_position symbol p b =
      let found =
        find_row-upsert (λ (i : PositionItem). str_eq i.symbol symbol)
          (record { symbol = symbol; position = p }) b.positions ((eq_iff symbol symbol).1 refl) in
      ground arith

  position_at-drop_position :
      (symbol : String) (b : Books) → position_at symbol (drop_position symbol b) ≡ none
  position_at-drop_position symbol b =
      let none_left =
        find_row-delete_rows (λ (i : PositionItem). str_eq i.symbol symbol) b.positions in
      ground arith

  -- The price that a sale gets for a price of the market: half the spread and the slippage are
  -- taken off in basis points, and half of the slippage of a round trip per unit.
  abbrev received : Decimal → Decimal
  received price =
      price *D (of_ℕ 1 +D neg_D (config.spread_bps /D of_ℕ 2 +D config.slippage_bps) /D of_ℕ 10_000)
      +D neg_D engine.costs.slippage_per_unit /D of_ℕ 2

  -- One side's charge: the fixed part, the commission with its minimum, and half of the impact.
  abbrev charge : Decimal → Decimal → Decimal
  charge units price =
      let c = engine.costs in
      c.fixed_per_side
      +D max_D c.minimum_per_side
          (units *D c.per_unit_per_side +D units *D price *D c.notional_rate_per_side)
      +D c.quadratic_impact *D units *D units /D of_ℕ 2

  -- The trade that the stop of a position ends, with its accounts: the profit is what the units
  -- gained between the prices paid and received, less the fees of both sides.
  pub record IsStopped (symbol : String) (bar : Bar) (at : Stamp) (p : Position) (b : Books)
      (t : Trade) (ended : Books) : Type 0 where
    pub not_held : position_at symbol ended ≡ none
    pub traded : ended.trades ≡ b.trades ++ t ∷ []
    pub own_symbol : t.symbol ≡ symbol
    pub own_signal : t.signal_id ≡ p.pending.signal.signal_id
    pub own_day : t.session_date ≡ p.pending.signal.session_date
    pub submitted : t.submitted_at ≡ p.pending.sent_at
    pub bought : t.entry_at ≡ p.filled_at
    pub exited : t.exit_at ≡ at
    pub reason : t.exit_reason ≡ "STOP_CONSERVATIVE"
    pub units_kept : t.units ≡ p.pending.decision.units
    pub paid : t.entry_price ≡ p.entry
    pub stop_kept : t.stop_price ≡ p.pending.signal.stop_price
    pub got : t.exit_price ≡ received (min_D bar.open_price p.pending.signal.stop_price)
    pub charged : t.fees ≡ p.entry_fee +D charge t.units t.exit_price
    pub profit :
        t.net_pnl
        ≡ t.units *D (t.exit_price -D t.entry_price) -D p.entry_fee -D charge t.units t.exit_price
    pub planned : t.planned_risk ≡ p.pending.decision.planned_risk
    pub multiple : t.r_multiple ≡ t.net_pnl /D t.planned_risk
    pub slipped :
        t.spread_slippage
        ≡ p.friction
          +D t.units *D (min_D bar.open_price p.pending.signal.stop_price -D t.exit_price)
    pub all_costs : t.costs ≡ t.fees +D t.spread_slippage
    pub turned : t.turnover ≡ t.units *D (t.entry_price +D t.exit_price)
    pub proceeds : ended.cash ≡ b.cash +D (t.units *D t.exit_price -D charge t.units t.exit_price)

  sold-IsStopped :
      (symbol : String) (bar : Bar) (at : Stamp) (p : Position) (b : Books)
      → let price = min_D bar.open_price p.pending.signal.stop_price in
        let marked = record p { mark = bar.close } in
        IsStopped symbol bar at p b
          (trade_of config engine symbol marked price at "STOP_CONSERVATIVE")
          (sold config engine symbol marked price at "STOP_CONSERVATIVE"
            (set_position symbol marked b))
  unfolding trade_of executable fee
  sold-IsStopped symbol bar at p b = record {
    not_held =
        position_at-drop_position symbol (set_position symbol (record p { mark = bar.close }) b);
    traded = refl;
    own_symbol = refl;
    own_signal = refl;
    own_day = refl;
    submitted = refl;
    bought = refl;
    exited = refl;
    reason = refl;
    units_kept = refl;
    paid = refl;
    stop_kept = refl;
    got = refl;
    charged = refl;
    profit = refl;
    planned = refl;
    multiple = refl;
    slipped = refl;
    all_costs = refl;
    turned = refl;
    proceeds = refl;
  }

  close_stopped :
      (symbol : String) (price : Decimal) (at : Stamp) (reason : String) (p : Position) (b : Books)
      → position_at symbol b ≡ some p
      → close config engine symbol price at reason b
        ≡ (ok tt, sold config engine symbol p price at reason b)
  unfolding close
  close_stopped symbol price at reason p b held = ground arith

  -- The close of a bar for a held position, on every branch. A bar that began before the position
  -- was filled changes nothing. A later bar whose low stays above the stop moves the mark to its
  -- close, and neither the cash nor the trades change. A later bar whose low touches the stop
  -- sells the position at the worse of the bar's opening and the stop, less the spread and the
  -- slippage: it is no longer held, the one trade of this sale is added with its accounts, and the
  -- cash grows by the proceeds less the fee of the exit.
  pub on_close_touched :
      (symbol : String) (bar : Bar) (at : Stamp) (b : Books) (p : Position)
      → position_at symbol b ≡ some p
      → let (r, ended) = on_close config engine symbol bar at b in
        (r ≡ ok tt)
        × (((earlier bar.event_time p.filled_at ≡ true) × (ended ≡ b))
            ⊎ ((earlier bar.event_time p.filled_at ≡ false)
                × ((bar.low ≤D p.pending.signal.stop_price) ≡ false)
                × (position_at symbol ended ≡ some (record p { mark = bar.close }))
                × (ended.trades ≡ b.trades)
                × (ended.cash ≡ b.cash))
            ⊎ ((earlier bar.event_time p.filled_at ≡ false)
                × ((bar.low ≤D p.pending.signal.stop_price) ≡ true)
                × ((t : Trade) × IsStopped symbol bar at p b t ended)))
  unfolding on_close
  on_close_touched symbol bar at b p held =
      let marked = record p { mark = bar.close } in
      let found = position_at-set_position symbol marked b in
      let price = min_D bar.open_price p.pending.signal.stop_price in
      elim (Bool-cases (earlier bar.event_time p.filled_at)) [
        | inl early ↦ rw (held, early) (refl, inl (refl, refl))
        | inr since ↦ elim (Bool-cases (bar.low ≤D p.pending.signal.stop_price)) [
          | inr above ↦ rw (held, since, above) (refl, inr (inl (refl, refl, found, refl, refl)))
          | inl touched ↦
              rw
                (
                  held,
                  since,
                  touched,
                  close_stopped symbol price at "STOP_CONSERVATIVE" marked
                      (set_position symbol marked b) found,
                )
                (refl, inr (inr (refl, refl, (_, sold-IsStopped symbol bar at p b))))
        ]
      ]
