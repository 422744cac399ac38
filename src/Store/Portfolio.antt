-- ===== src/Store/Portfolio.antt =====
-- `StateStore.portfolio` of persistence/store.py: what the risk engine sees of the store.
use mathlib.Core.List.{foldl}
use bot_trading.Prelude.{
  ℕ, String, Bool, true, false, ◌&&◌, Option, none, some, List, [], ◌∷◌, ◌++◌, map, any, length,
  select, str_eq, if◌then◌else◌,
}
use bot_trading.Prelude.Int.{pos}
use bot_trading.Decimal.{Decimals, Decimal, ◌+D◌, ◌-D◌, ◌*D◌, ◌=D◌, zero_D}
use bot_trading.Risk.Types.{RiskPortfolio}
use bot_trading.Exec.{Exec, gets, ◌>>=◌}
use bot_trading.Order.State.{is_active}
use bot_trading.Order.Types.{IntentKind, kind_eq, OrderIntent, Position, TradingSession}
use bot_trading.Store.Tables.{Store, Reservation}
use bot_trading.Store.Access.{get_meta, session, intents, positions}

-- The distinct texts of a list: the length of Python's set of them.
abbrev add_text : List String → String → List String
add_text seen s = if any (str_eq s) seen then seen else seen ++ s ∷ []

unfoldable pub distinct : List String → List String
distinct = foldl add_text []

module _ ⦃dec : Decimals⦄ where
  -- `sum(..., D("0"))`
  abbrev pub sum_D : List Decimal → Decimal
  sum_D = foldl ◌+D◌ zero_D

  -- `p.mark_price or p.average_entry`
  abbrev pub mark_or_entry : Position → Decimal
  mark_or_entry p = elim p.mark_price [
    | none ↦ p.average_entry
    | some price ↦ if price =D zero_D then p.average_entry else price
  ]

  abbrev pub exposure : List Position → Decimal
  exposure ps = sum_D (map (λ (p : Position). p.units *D p.average_entry) ps)

  abbrev pub unrealized : List Position → Decimal
  unrealized ps = sum_D (map (λ (p : Position). p.units *D (mark_or_entry p -D p.average_entry)) ps)

  abbrev pub pending_entries : Store → List OrderIntent
  pending_entries s =
      select (λ (i : OrderIntent). kind_eq i.kind IntentKind.entry && is_active i.state) (intents s)

  -- The owners of open positions and the pending entries, each counted once.
  unfoldable pub potential : Store → ℕ
  unfolding positions intents distinct
  potential s = length (
      distinct (
        map (λ (p : Position). p.owner_intent_id) (positions true s)
        ++ map (λ (i : OrderIntent). i.intent_id) (pending_entries s)))

  unfoldable pub all_pnl : Store → Decimal
  all_pnl s = sum_D (map (λ (row : TradingSession). row.realized_pnl) s.sessions)

  unfoldable pub is_true : Option String → Bool
  is_true none = false
  is_true (some v) = str_eq v "true"

  unfoldable pub assemble : TradingSession → Store → RiskPortfolio
  unfolding is_true get_meta
  assemble own s =
      let held = positions true s in
      record {
        reference_capital = own.reference_capital;
        equity = own.reference_capital +D all_pnl s +D unrealized held;
        cash = own.reference_capital +D all_pnl s -D exposure held;
        gross_exposure = exposure held;
        reserved_cash = sum_D (map (λ (row : Reservation). row.cash) s.reservations);
        reserved_risk =
            sum_D (map (λ (row : Reservation). row.risk) s.reservations)
            +D sum_D (map (λ (p : Position). p.planned_risk) held);
        potential_positions = pos (potential s);
        realized_pnl = own.realized_pnl;
        unrealized_pnl = unrealized held;
        entries_paused = own.entries_paused;
        reconciliation_ok = is_true (get_meta "reconciliation_ok" s);
      }

  unfoldable pub portfolio : String → Exec Store RiskPortfolio
  unfolding session
  portfolio session_id = do own ← session session_id; gets (assemble own)
