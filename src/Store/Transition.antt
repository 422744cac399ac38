-- ===== src/Store/Transition.antt =====
-- What `transition` of persistence/store.py leaves in the table of intents.
use mathlib.Core.Path.{subst, sym}
use bot_trading.Prelude.{String, ◌≡◌, refl, str_eq, eq_iff, arith}
use bot_trading.Prelude.TableLaws.{find_row-update_rows}
use bot_trading.Decimal.{Decimals}
use bot_trading.Exec.{ok}
use bot_trading.Order.State.{OrderState, validate_transition}
use bot_trading.Order.Types.{OrderIntent}
use bot_trading.Store.Tables.{Store, IntentRow}
use bot_trading.Store.Access.{save_row, save_intent, intent, delete_reservation, audit, transition}
use bot_trading.Store.Replay.{found_id}

module _ ⦃dec : Decimals⦄ where
  abbrev pub moved : OrderIntent → OrderState → OrderIntent
  moved i st = record i { state = st }

  save_own :
      (i : OrderIntent) (st : OrderState) (s : Store)
      → intent i.intent_id s ≡ (ok i, s)
      → (intent i.intent_id (save_intent (moved i st) s).1).0 ≡ ok (moved i st)
  unfolding intent save_intent
  save_own i st s h = ground (
    arith,
    find_row-update_rows (λ (row : IntentRow). str_eq row.payload.intent_id i.intent_id)
        (save_row (moved i st)) (λ row p. (eq_iff i.intent_id i.intent_id).1 refl) s.intents,
  )

  intent-save_intent :
      (i : OrderIntent) (st : OrderState) (id : String) (s : Store)
      → intent id s ≡ (ok i, s)
      → (intent id (save_intent (moved i st) s).1).0 ≡ ok (moved i st)
  intent-save_intent i st id s h =
      let same = found_id id i s h in
      subst (λ key. (intent key (save_intent (moved i st) s).1).0 ≡ ok (moved i st)) same
        (save_own i st s (subst (λ key. intent key s ≡ (ok i, s)) (sym same) h))

  -- A permitted change of state does not raise, and the intent is then found in its new state.
  pub intent-transition :
      (i : OrderIntent) (st : OrderState) (id : String) (s : Store)
      → intent id s ≡ (ok i, s)
      → validate_transition i.state st ≡ ok tt
      → ((transition id st s).0 ≡ ok (moved i st))
        × ((intent id (transition id st s).1).0 ≡ ok (moved i st))
  unfolding transition audit delete_reservation save_intent intent
  intent-transition i st id s h k = ground (arith, intent-save_intent i st id s h)
