-- ===== src/Executor/Lost.antt =====
-- A submission whose answer is lost.
use bot_trading.Prelude.{ap, some, String, ◌≡◌, refl, Bool, true, false, Option, arith}
use bot_trading.Decimal.{Decimals}
use bot_trading.Risk.Types.{Stamp}
use bot_trading.Exec.{Exec, Exn, rejected_before_send, ok, err}
use bot_trading.Order.State.{submitting, unknown, validate_transition}
use bot_trading.Order.Types.{OrderIntent, Position}
use bot_trading.Store.Tables.{Store}
use bot_trading.Store.Access.{audit, pause, set_meta, intent}
use bot_trading.Store.Transition.{moved, intent-transition}
use bot_trading.Store.Portfolio.{is_true}
use bot_trading.Executor.World.{PreparedSubmission, Executor, World}
use bot_trading.Executor.Orders.{
  mark_unknown, submission_ambiguous, submission_failed, dispatch, send_with,
}
use bot_trading.Executor.Safety.{reconciled, paused, paused-pause, get_meta-set_meta}

-- The exception does not say that nothing was sent.
abbrev pub is_ambiguous : Exn → Bool
is_ambiguous (rejected_before_send _) = false
is_ambiguous _ = true

module _ ⦃dec : Decimals⦄ {B : Type 0} (x : Executor B) where
  mark_unknown_lem :
      (id : String) (cur : OrderIntent) (w : World B)
      → intent id w.store ≡ (ok cur, w.store)
      → cur.state ≡ submitting
      → ((mark_unknown x id w).0 ≡ ok tt)
        × ((intent id (mark_unknown x id w).1.store).0 ≡ ok (moved cur unknown))
  unfolding mark_unknown validate_transition
  mark_unknown_lem id cur w h k = ground (arith, intent-transition cur unknown id w.store h)

  -- The store after an ambiguous failure: the order may exist, and nothing new is entered.
  pub record IsUnresolved (id : String) (cur : OrderIntent) (s : Store) : Type 0 where
    pub order_unknown : (intent id s).0 ≡ ok (moved cur unknown)
    pub entries_paused : paused x.session_id s ≡ true
    pub not_reconciled : reconciled s ≡ false

  submission_failed_step :
      (i : OrderIntent) (e : Exn) (w : World B)
      → is_ambiguous e ≡ true
      → submission_failed x i e w ≡ submission_ambiguous x i w
  unfolding submission_failed
  submission_failed_step i e w h = ground arith

  -- The steps that follow the marking.
  abbrev after_mark : OrderIntent → Store → Store
  after_mark i s =
      (audit "SUBMISSION_AMBIGUOUS" (some i.intent_id) ""
        (set_meta "reconciliation_ok" "false" (pause x.session_id true s).1).1).1

  after_mark_intent :
      (i : OrderIntent) (s : Store)
      → (intent i.intent_id (after_mark i s)).0 ≡ (intent i.intent_id s).0
  unfolding intent audit set_meta pause
  after_mark_intent i s = ground arith

  after_mark-paused : (i : OrderIntent) (s : Store) → paused x.session_id (after_mark i s) ≡ true
  unfolding audit set_meta
  after_mark-paused i s = paused-pause x x.session_id s

  after_mark_flag : (i : OrderIntent) (s : Store) → reconciled (after_mark i s) ≡ false
  unfolding audit is_true
  after_mark_flag i s = ap is_true (
      get_meta-set_meta "reconciliation_ok" "false" (pause x.session_id true s).1 (after_mark i s)
        refl)

  submission_ambiguous_lem :
      (i cur : OrderIntent) (w : World B)
      → intent i.intent_id w.store ≡ (ok cur, w.store)
      → cur.state ≡ submitting
      → ((submission_ambiguous x i w).0 ≡ ok tt)
        × IsUnresolved i.intent_id cur (submission_ambiguous x i w).1.store
  unfolding submission_ambiguous audit set_meta pause
  submission_ambiguous_lem i cur w h k =
      let marked = (mark_unknown x i.intent_id w).1.store in
      ground (
        arith,
        mark_unknown_lem i.intent_id cur w h k,
        after_mark_intent i marked,
        after_mark-paused i marked,
        after_mark_flag i marked,
      )

  -- When the broker's answer is lost, by an exception that does not say that nothing was sent,
  -- while the intent is being submitted, then the submission itself does not raise: the order is
  -- kept as unknown, the session's entries are paused, and the reconciliation flag is off.
  pub send_with_lost :
      (manage : Position → Exec (World B) (Unit {0})) (i cur : OrderIntent) (now : Stamp)
      (p : Option (PreparedSubmission B)) (w w' : World B) (e : Exn)
      → dispatch x i p w ≡ (err e, w')
      → is_ambiguous e ≡ true
      → intent i.intent_id w'.store ≡ (ok cur, w'.store)
      → cur.state ≡ submitting
      → ((send_with x manage i now p w).0 ≡ ok tt)
        × IsUnresolved i.intent_id cur (send_with x manage i now p w).1.store
  unfolding send_with
  send_with_lost manage i cur now p w w' e h a f k =
      ground (arith, submission_failed_step i e w' a, submission_ambiguous_lem i cur w' f k)
