-- ===== src/Store/Access.antt =====
-- The single-statement methods of `StateStore`, and `transition`, `position`, `mark` and
-- `set_protection`, of persistence/store.py.
use bot_trading.Prelude.{
  String, Bool, true, not, ◌||◌, Option, none, some, List, [], ◌∷◌, ◌++◌, map, any, find_row,
  update_rows, delete_rows, upsert, upsert_ordered, select, str_eq, if◌then◌else◌,
}
use mathlib.Core.Option
use bot_trading.Decimal.{Decimals, Decimal, ◌≤D◌, ◌<D◌, ◌=D◌, zero_D}
use bot_trading.Exec.{
  Exec, lifecycle_error, value_error, key_error, pure, lift, or_raise, transaction, ◌>>=◌, ◌>>◌,
  modify, raise_if, when,
}
use bot_trading.Order.State.{OrderState, is_active, validate_transition, state_name}
use bot_trading.Order.Types.{mode_eq, IntentKind, kind_eq, OrderIntent, Position, TradingSession}
use bot_trading.Store.Tables.{Store, IntentRow, text_before}

module _ ⦃dec : Decimals⦄ where
  unfoldable pub get_meta : String → Store → Option String
  get_meta key s = elim (find_row (λ m. str_eq m.key key) s.metadata) [
    | none ↦ none
    | some m ↦ some m.value
  ]

  unfoldable pub set_meta : String → String → Exec Store (Unit {0})
  set_meta key value = modify (λ s. record s {
    metadata = upsert (λ m. str_eq m.key key) (record { key = key; value = value }) s.metadata;
  })

  unfoldable pub audit : String → Option String → String → Exec Store (Unit {0})
  audit kind intent_id details = modify (λ s. record s {
    audit =
        s.audit
        ++ record { kind = kind; intent_id = intent_id; details = details; mode = s.mode } ∷ [];
  })

  unfoldable pub session : String → Exec Store TradingSession
  session session_id s =
      or_raise (key_error "Unknown trading session")
        (find_row (λ row. str_eq row.session_id session_id) s.sessions) s

  -- `INSERT OR IGNORE INTO sessions`: a new session has no result and is paused.
  abbrev insert_session : String → Decimal → Store → Store
  insert_session session_id capital s =
      if any (λ (row : TradingSession). str_eq row.session_id session_id) s.sessions
      then s
      else record s {
        sessions =
            s.sessions
            ++ record {
              session_id = session_id;
              reference_capital = capital;
              realized_pnl = zero_D;
              entries_paused = true;
            }
              ∷ [];
      }

  unfoldable pub ensure_session : String → Decimal → Exec Store TradingSession
  unfolding session
  ensure_session session_id capital = do
    raise_if (not (dec.is_finite capital) || capital ≤D zero_D)
        (value_error "Reference capital must be positive finite Decimal")
    modify (insert_session session_id capital)
    found ← session session_id
    raise_if (not (found.reference_capital =D capital))
        (value_error "Cannot change session reference capital")
    pure found

  abbrev paused_rows : String → Bool → List TradingSession → List TradingSession
  paused_rows session_id paused =
      update_rows (λ row. str_eq row.session_id session_id)
        (λ row. record row { entries_paused = paused })

  unfoldable pub pause : String → Bool → Exec Store (Unit {0})
  unfolding audit
  pause session_id paused = do
    modify (λ s. record s { sessions = paused_rows session_id paused s.sessions })
    audit (if paused then "PAUSE_ENTRIES" else "ENTRIES_ARMED") none session_id

  unfoldable pub intent : String → Exec Store OrderIntent
  intent intent_id s =
      or_raise (key_error "Unknown intent")
        (Option.map (λ (row : IntentRow). row.payload)
          (find_row (λ row. str_eq row.payload.intent_id intent_id) s.intents))
        s

  unfoldable pub intents : Store → List OrderIntent
  intents s = map (λ (row : IntentRow). row.payload) s.intents

  abbrev pub save_row : OrderIntent → IntentRow → IntentRow
  save_row i row = record row { payload = i }

  unfoldable pub save_intent : OrderIntent → Exec Store (Unit {0})
  save_intent i = modify (λ s. record s {
    intents = update_rows (λ row. str_eq row.payload.intent_id i.intent_id) (save_row i) s.intents;
  })

  unfoldable pub delete_reservation : String → Exec Store (Unit {0})
  delete_reservation intent_id = modify (λ s. record s {
    reservations = delete_rows (λ row. str_eq row.intent_id intent_id) s.reservations;
  })

  unfoldable pub transition : String → OrderState → Exec Store OrderIntent
  unfolding intent save_intent delete_reservation audit
  transition intent_id state = transaction (do
    old ← intent intent_id
    lift (validate_transition old.state state)
    let updated = record old { state = state }
    save_intent updated
    when (not (is_active state)) (delete_reservation intent_id)
    audit "ORDER_STATE" (some intent_id) (state_name state)
    pure updated)

  -- `positions(open_only)`; the table is kept in the order of its key.
  unfoldable pub positions : Bool → Store → List Position
  positions open_only s =
      if open_only then select (λ p. zero_D <D p.units) s.positions else s.positions

  unfoldable pub position : String → Exec Store Position
  unfolding intent
  position position_id s =
      (do
        found ←
            or_raise (lifecycle_error "OWNERSHIP_UNPROVEN")
              (find_row (λ (row : Position). str_eq row.position_id position_id) s.positions)
        origin ← intent found.owner_intent_id
        raise_if
            (not (kind_eq origin.kind IntentKind.entry)
              || not (mode_eq origin.mode s.mode)
              || origin.filled_units ≤D zero_D)
            (lifecycle_error "OWNERSHIP_UNPROVEN")
        pure found)
        s

  unfoldable pub save_position : Position → Exec Store (Unit {0})
  save_position p = modify (λ s. record s {
    positions =
        upsert_ordered (λ row. str_eq row.position_id p.position_id)
          (λ row. text_before row.position_id p.position_id) p s.positions;
  })

  unfoldable pub mark : String → Decimal → Exec Store (Unit {0})
  unfolding position save_position
  mark position_id price = do
    raise_if (not (dec.is_finite price) || price ≤D zero_D) (value_error "Invalid liquidation mark")
    found ← position position_id
    save_position (record found { mark_price = some price })

  unfoldable pub set_protection : String → Decimal → Bool → Exec Store (Unit {0})
  unfolding position save_position audit
  set_protection position_id stop_price protected = transaction (do
    found ← position position_id
    raise_if (not (dec.is_finite stop_price) || stop_price <D found.stop_price)
        (lifecycle_error "STOP_WIDENING_BLOCKED")
    save_position (record found { stop_price = stop_price; protected = protected })
    audit "PROTECTION_UPDATED" (some found.owner_intent_id) "")
