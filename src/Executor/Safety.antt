-- ===== src/Executor/Safety.antt =====
-- What the executor's operations promise: no entry without the guards, no claim to be flat or
-- reconciled that the store does not bear out.
use bot_trading.Prelude.{
  String, ◌≡◌, refl, Bool, true, false, not, ◌&&◌, none, some, List, [], ◌∷◌, ◌++◌, any,
  update_rows, ◌⊎◌, inl, inr, str_eq, eq_iff, arith,
}
use bot_trading.Prelude.TableLaws.{find_row-upsert}
use bot_trading.Decimal.{Decimals}
use bot_trading.Exec.{ok, Result-cases, all_clean}
use bot_trading.Order.Types.{Mode, TradingSession}
use bot_trading.Store.Tables.{Store, Metadatum}
use bot_trading.Store.Access.{get_meta, set_meta, pause, audit, intents, positions}
use bot_trading.Store.Portfolio.{is_true}
use bot_trading.Executor.World.{Executor, World, require_started}
use bot_trading.Executor.Control.{
  flag_text, any_unknown, any_incomplete, no_exposure, arm_offline, conclude, reconcile_one,
  reconcile, confirm_flat, close_all, flatten_owned,
}

module _ ⦃dec : Decimals⦄ where
  -- The flag of the metadata that a clean reconciliation sets.
  abbrev pub reconciled : Store → Bool
  reconciled s = is_true (get_meta "reconciliation_ok" s)

  -- No intent is unknown, and no position waits for its accounting.
  abbrev pub settled : Store → Bool
  settled s = not (any_unknown s) && not (any_incomplete s)

  -- The store's view of a session that holds nothing and waits for nothing.
  abbrev pub flat_store : Store → Bool
  flat_store s = no_exposure s && settled s && reconciled s

  -- Every row of the session is paused.
  abbrev pub paused : String → Store → Bool
  paused sid s = not (
      any (λ (row : TradingSession). str_eq row.session_id sid && not row.entries_paused)
        s.sessions)

  paused_rows_lem :
      (sid : String) (rows : List TradingSession)
      → not (
          any
            (λ (row : TradingSession). str_eq row.session_id sid && not row.entries_paused)
            (update_rows
              (λ (row : TradingSession). str_eq row.session_id sid)
              (λ row. record row { entries_paused = true })
              rows))
        ≡ true
  paused_rows_lem sid [] = refl
  paused_rows_lem sid (row ∷ rows) = ground (arith, paused_rows_lem sid rows)

  pub get_meta-set_meta :
      (key value : String) (s s' : Store)
      → s'.metadata ≡ (set_meta key value s).1.metadata
      → get_meta key s' ≡ some value
  unfolding get_meta set_meta
  get_meta-set_meta key value s s' h = ground (
    arith,
    eq_iff key key,
    find_row-upsert (λ (m : Metadatum). str_eq m.key key) (record { key = key; value = value })
        s.metadata,
  )

  is_true-text : (b : Bool) → is_true (some (flag_text b)) ≡ b
  unfolding is_true
  is_true-text true = refl
  is_true-text false = refl

module _ ⦃dec : Decimals⦄ {B : Type 0} (x : Executor B) where
  conclude_same :
      (answered : Bool) (w : World B) → settled (conclude x answered w).1.store ≡ settled w.store
  unfolding conclude audit pause set_meta intents positions
  conclude_same answered w = ground arith

  conclude_clean :
      (answered : Bool) (w : World B) → (conclude x answered w).0 ≡ ok (answered && settled w.store)
  unfolding conclude audit pause set_meta
  conclude_clean answered w = ground arith

  conclude_metadata :
      (answered : Bool) (w : World B)
      → (conclude x answered w).1.store.metadata
        ≡ (set_meta "reconciliation_ok"
            (flag_text (answered && settled w.store))
            w.store).1.metadata
  unfolding conclude audit pause set_meta
  conclude_metadata answered w = ground arith

  conclude_flag :
      (answered : Bool) (w : World B)
      → reconciled (conclude x answered w).1.store ≡ (answered && settled w.store)
  conclude_flag answered w =
      let clean = answered && settled w.store in
      ground (
        arith,
        is_true-text clean,
        get_meta-set_meta "reconciliation_ok" (flag_text clean) w.store
            (conclude x answered w).1.store (conclude_metadata answered w),
      )

  pub paused-pause : (sid : String) (s : Store) → paused sid (pause sid true s).1 ≡ true
  unfolding pause audit
  paused-pause sid s = paused_rows_lem sid s.sessions

  conclude-paused :
      (answered : Bool) (w : World B)
      → (answered && settled w.store) ≡ false
      → paused x.session_id (conclude x answered w).1.store ≡ true
  unfolding conclude audit set_meta
  conclude-paused answered w h =
      ground (arith, paused-pause x.session_id (set_meta "reconciliation_ok" "false" w.store).1)

  -- When a reconciliation returns, it has set the flag that the risk engine reads to what it
  -- returns. If it returns true, no intent is unknown and every position's accounting is
  -- complete; if it returns false, the entries of the session are paused.
  pub reconcile_sound :
      (w w' : World B) {clean : Bool}
      → reconcile x w ≡ (ok clean, w')
      → (reconciled w'.store ≡ clean)
        × (clean ≡ true → settled w'.store ≡ true)
        × (clean ≡ false → paused x.session_id w'.store ≡ true)
  unfolding reconcile require_started
  reconcile_sound w w' {clean} h =
      let loop = all_clean (intents w.store) (reconcile_one x) true w in
      elim (Result-cases loop.0) [
        | inl (answered, e) ↦ ground (
          arith,
          conclude_same answered loop.1,
          conclude_clean answered loop.1,
          conclude_flag answered loop.1,
          conclude-paused answered loop.1,
        )
        | inr (e, failed) ↦ absurd (ground arith)
      ]

  confirm_flat_lem :
      (w w' : World B) → confirm_flat x w ≡ (ok true, w') → flat_store w'.store ≡ true
  unfolding confirm_flat audit intents positions get_meta
  confirm_flat_lem w w' h = elim (Result-cases (reconcile x w).0) [
    | inl (answered, e) ↦ ground (arith, reconcile_sound w (reconcile x w).1 {clean = answered})
    | inr (e, failed) ↦ absurd (ground arith)
  ]

  -- When flattening returns true, the store shows no open position and no active intent, no
  -- intent is unknown, the accounting of every position is complete, and the reconciliation flag
  -- is set.
  pub flatten_owned_flat :
      (w w' : World B) → flatten_owned x w ≡ (ok true, w') → flat_store w'.store ≡ true
  unfolding flatten_owned
  flatten_owned_flat w w' h = elim (Result-cases (close_all x w).0) [
    | inl (u, e) ↦ confirm_flat_lem (close_all x w).1 w' (ground arith)
    | inr (e, failed) ↦ absurd (ground arith)
  ]

  -- Entries are armed by the local method only on a started executor that holds the lock, in a
  -- simulated mode, with the reconciliation flag set. Two tables change then, and nothing else:
  -- in the rows of this session, and in no other, the entries are no longer paused, and the audit
  -- has one more row, which names the session.
  pub arm_offline_guarded :
      (w w' : World B)
      → arm_offline x w ≡ (ok tt, w')
      → (w.started ≡ true)
        × (w.lock_handle ≡ true)
        × ((w.store.mode ≡ Mode.offline) ⊎ (w.store.mode ≡ Mode.backtest))
        × (reconciled w.store ≡ true)
        × (w' ≡ record w {
          store = record w.store {
            sessions =
                update_rows
                  (λ row. str_eq row.session_id x.session_id)
                  (λ row. record row { entries_paused = false })
                  w.store.sessions;
            audit =
                w.store.audit
                ++ record {
                  kind = "ENTRIES_ARMED";
                  intent_id = none;
                  details = x.session_id;
                  mode = w.store.mode;
                }
                  ∷ [];
          };
        })
  unfolding arm_offline require_started pause audit
  arm_offline_guarded w w' h = ground arith
